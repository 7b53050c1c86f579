-- ===== src/Compress/Zstd/Reader/Chunks.antt =====
-- How `fread_wrapper_zstd` of compress_zstd.c takes compressed bytes from the file.
use ovh_ttyrec.Base.{
  Bool-cases, List, [], ap, arith, drop, drop_add, if◌then◌else◌, inl, inr, length, length-append,
  refl, some, suc, sym, take, true, zero, ℕ, ◌*◌, ◌++◌, ◌+◌, ◌<◌, ◌==◌, ◌∙◌, ◌∷◌, ◌≡◌, ◌≢◌,
}
use ovh_ttyrec.Stdio.{File, fread, remaining}
use ovh_ttyrec.Compress.Zstd.Reader.{Decoder, Unzip, renew, refill}
use ovh_ttyrec.Compress.Zstd.Reader.Laws.{Inflates, frames_bytes, Stands, between, within, Opened}

-- What a read of single bytes gives, and what it leaves.
pub record Chunk (k : ℕ) (f : File) : Type 0 where
  pub counted : (fread 1 k f).1 ≡ length (fread 1 k f).0
  pub split : (fread 1 k f).0 ++ remaining (fread 1 k f).2 ≡ remaining f
  pub stops : (fread 1 k f).1 ≡ 0 → 0 < k → remaining f ≡ []

drop_taken : (k : ℕ) (xs : List ℕ) → take k xs ++ drop (length (take k xs)) xs ≡ xs
drop_taken zero xs = refl
drop_taken (suc k) [] = refl
drop_taken (suc k) (x ∷ xs) = ap (◌∷◌ x) (drop_taken k xs)

nothing_taken : (k : ℕ) (xs : List ℕ) → length (take k xs) ≡ 0 → 0 < k → xs ≡ []
nothing_taken zero xs e p = absurd (omega arith)
nothing_taken (suc k) [] e p = refl
nothing_taken (suc k) (x ∷ xs) e p = absurd (omega arith)

pub fread_singles : (k : ℕ) (f : File) → Chunk k f
unfolding fread
fread_singles k f =
    let once : 1 * k ≡ k = omega arith in
    let got = take (1 * k) (remaining f) in
    record {
      counted = omega arith;
      split =
          ap (λ (v : List ℕ). got ++ v) (drop_add f.pos (length got) f.content)
          ∙ drop_taken (1 * k) (remaining f);
      stops = λ e p. nothing_taken (1 * k) (remaining f) (omega arith) (omega arith);
    }

nothing_left : (xs ys : List ℕ) → xs ++ ys ≡ [] → ys ≡ []
nothing_left [] ys h = h
nothing_left (x ∷ xs) ys h = cc

module _ {D : Type 0} (decoder : Decoder D) (inflates : Inflates decoder) where
  open inflates use {creates, not_empty}

  abbrev pub renewed : Unzip D → Unzip D
  renewed s = if s.to_read == 0 then renew decoder s else s

  -- With the input buffer empty a stream that is over is replaced, and nothing is lost by that.
  pub record Renewed (s : Unzip D) (unread : List ℕ) : Type 0 where
    pub d : D
    pub is_open : (renewed s).dstream ≡ some d
    pub plain : List ℕ
    pub positive : 0 < (renewed s).to_read
    pub same_file : (renewed s).file ≡ s.file
    pub same_pending : (renewed s).pending ≡ s.pending
    pub same_input : (renewed s).input ≡ s.input
    pub same_exit : (renewed s).exit_code ≡ s.exit_code
    pub stands : Stands decoder inflates d (renewed s).to_read (remaining s.file) plain
    pub unread_is : unread ≡ s.pending ++ plain

  renew_between :
      (s : Unzip D) (unread plain : List ℕ) (d : D)
      → s.input ≡ []
      → s.to_read ≡ 0
      → Stands decoder inflates d s.to_read (s.input ++ remaining s.file) plain
      → unread ≡ s.pending ++ plain
      → Renewed s unread
  unfolding renew
  renew_between s unread plain d i z (within f c fs ok w pos_f pos_r e p) u = absurd (omega arith)
  renew_between s unread plain d i z (between fs ok ready e p) u =
      let e' : remaining s.file ≡ frames_bytes fs =
        ap (λ (v : List ℕ). v ++ remaining s.file) (sym i) ∙ e in
      let test : (s.to_read == 0) ≡ true = ground arith in
      record {
        d = decoder.create.0;
        is_open = rw test refl;
        plain = plain;
        positive = rw test (creates.1);
        same_file = rw test refl;
        same_pending = rw test refl;
        same_input = rw test refl;
        same_exit = rw test refl;
        stands = between fs ok creates.0 e' p;
        unread_is = u;
      }

  unempty :
      (d : D) (to_read : ℕ) (plain xs ys : List ℕ)
      → xs ≡ []
      → Stands decoder inflates d to_read (xs ++ ys) plain
      → Stands decoder inflates d to_read ys plain
  unempty d to_read plain [] ys e h = h
  unempty d to_read plain (x ∷ xs) ys e h = cc

  pub renew_lem :
      (s : Unzip D) (unread : List ℕ)
      → s.input ≡ []
      → Opened decoder inflates s unread
      → Renewed s unread
  renew_lem s unread i o = elim (Bool-cases (s.to_read == 0)) [
    | inl zero_left ↦ renew_between s unread o.plain o.d i (ground arith) o.stands o.unread_is
    | inr more ↦
        let here : Stands decoder inflates o.d s.to_read (remaining s.file) o.plain =
          unempty o.d s.to_read o.plain s.input (remaining s.file) i o.stands in
        record {
          d = o.d;
          is_open = rw more (o.is_open);
          plain = o.plain;
          positive = rw more (ground (arith, more));
          same_file = rw more refl;
          same_pending = rw more refl;
          same_input = rw more refl;
          same_exit = rw more refl;
          stands = rw more here;
          unread_is = o.unread_is;
        }
  ]

  -- Where no compressed byte is left, nothing more comes out.
  pub stands_end :
      (d : D) (to_read : ℕ) (compressed plain : List ℕ)
      → Stands decoder inflates d to_read compressed plain
      → compressed ≡ []
      → plain ≡ []
  stands_end d to_read compressed plain (between [] ok ready e p) z = p
  stands_end d to_read compressed plain (between ((f, c) ∷ fs) ok ready e p) z =
      absurd (
        omega (arith, not_empty f c ok.0, ap length (sym z ∙ e), length-append f (frames_bytes fs)))
  stands_end d to_read compressed plain (within f c fs ok w pos_f pos_r e p) z =
      absurd (omega (arith, ap length (sym z ∙ e), length-append f (frames_bytes fs)))

  pub moved :
      (d : D) (to_read : ℕ) (xs ys plain : List ℕ)
      → xs ≡ ys
      → Stands decoder inflates d to_read xs plain
      → Stands decoder inflates d to_read ys plain
  moved d to_read xs ys plain h (between fs ok ready e p) = between fs ok ready (sym h ∙ e) p
  moved d to_read xs ys plain h (within f c fs ok w pos_f pos_r e p) =
      within f c fs ok w pos_f pos_r (sym h ∙ e) p

  -- After more bytes have been read from the file: nothing is lost, and there is less to do. Where none
  -- came, nothing was left.
  pub record Refilled (s : Unzip D) (unread : List ℕ) (chunk : List ℕ) (n : ℕ) (s1 : Unzip D)
      : Type 0 where
    pub opened : Opened decoder inflates (record s1 { input = chunk }) unread
    pub not_pending : s1.pending ≡ []
    pub less : n ≢ 0 → length chunk + 2 * length (remaining s1.file) < 2 * length (remaining s.file)
    pub at_end : n ≡ 0 → (unread ≡ []) × Opened decoder inflates s1 []

  pub refill_lem :
      (s : Unzip D) (unread : List ℕ)
      → s.input ≡ []
      → s.pending ≡ []
      → Opened decoder inflates s unread
      → Refilled s unread (refill decoder s).0 (refill decoder s).1 (refill decoder s).2
  unfolding refill
  refill_lem s unread i p o =
      let r = renew_lem s unread i o in
      let c = fread_singles (renewed s).to_read (renewed s).file in
      let whole = c.split ∙ ap remaining r.same_file in
      let rest = remaining (fread 1 (renewed s).to_read (renewed s).file).2 in
      let got = (fread 1 (renewed s).to_read (renewed s).file).0 in
      record {
        opened = record {
          d = r.d;
          is_open = r.is_open;
          runs = r.same_exit ∙ o.runs;
          plain = r.plain;
          stands =
              moved r.d (renewed s).to_read (remaining s.file) (got ++ rest) r.plain (sym whole)
                r.stands;
          unread_is = r.unread_is ∙ ap (λ (v : List ℕ). v ++ r.plain) (sym r.same_pending);
        };
        not_pending = r.same_pending ∙ p;
        less = λ some_bytes. omega (arith, c.counted, ap length whole, length-append got rest);
        at_end = λ none_read.
            let empty = ap remaining (sym r.same_file) ∙ c.stops none_read r.positive in
            let over =
              stands_end r.d (renewed s).to_read (remaining s.file) r.plain r.stands empty in
            let left : rest ≡ [] = nothing_left got rest (whole ∙ empty) in
            (
              r.unread_is ∙ ap (λ (v : List ℕ). v ++ r.plain) p ∙ over,
              record {
                d = r.d;
                is_open = r.is_open;
                runs = r.same_exit ∙ o.runs;
                plain = r.plain;
                stands =
                    moved r.d (renewed s).to_read (remaining s.file) ((renewed s).input ++ rest)
                      r.plain
                      (empty ∙ sym (ap (λ (v : List ℕ). v ++ rest) (r.same_input ∙ i) ∙ left))
                      r.stands;
                unread_is = sym (ap (λ (v : List ℕ). v ++ r.plain) (r.same_pending ∙ p) ∙ over);
              },
            );
      }
