-- ===== src/Compress/Zstd/Reader/Loop.antt =====
-- The loop of `fread_wrapper_zstd` of compress_zstd.c.
use ovh_ttyrec.Base.{
  ==_iff, Bool-cases, List, List-cases, [], ap, append-nil, append_assoc, arith, drop,
  drop-append_le, drop_over, if◌then◌else◌, inl, inr, leb, length, length-append, length-drop,
  length_zero, none, refl, some, suc, sym, take, take-append_le, take_over, zero, ℕ, ◌*◌, ◌++◌, ◌+◌,
  ◌-◌, ◌<◌, ◌==◌, ◌∙◌, ◌∷◌, ◌≡◌, ◌≤◌,
}
use native.Mathlib.Decide.{dec_le}
use ovh_ttyrec.Stdio.{remaining}
use ovh_ttyrec.Compress.Zstd.Reader.{
  Decoder, Unzip, served, wants, got_data, refill, decompress, rounds_for,
}
use ovh_ttyrec.Compress.Zstd.Reader.Laws.{Inflates, call_lem, Stands, Opened}
use ovh_ttyrec.Compress.Zstd.Reader.Chunks.{moved, refill_lem}

module _ {D : Type 0} (decoder : Decoder D) (inflates : Inflates decoder) where
  -- What a call gives that is asked for `want` bytes more, where `unread` is left to be read: all of
  -- them and the number of items, or 0 and what there was. No byte that is behind them is lost.
  pub record Reading (nmemb want : ℕ) (given unread : List ℕ) (result : List ℕ × ℕ × Unzip D)
      : Type 0 where
    pub bytes_are : result.0 ≡ given ++ take want unread
    pub count_is : result.1 ≡ (if leb want (length unread) then nmemb else 0)
    pub then_opened : Opened decoder inflates result.2 (drop want unread)

  -- The rounds of the loop.
  decompress_read :
      (rounds nmemb want : ℕ) (given : List ℕ) (s : Unzip D) (d : D)
      → s.dstream ≡ some d
      → s.input ≡ []
      → decompress decoder (suc rounds) nmemb want given s ≡ (
          let (chunk, n, s1) = refill decoder s in
          if n == 0
          then (given, 0, s1)
          else decompress decoder rounds nmemb want given (record s1 { input = chunk }))
  unfolding decompress
  decompress_read rounds nmemb want given s d o i = simp (o, decompress) (simp (i, decompress) refl)

  decompress_call :
      (rounds nmemb want b : ℕ) (input given : List ℕ) (s : Unzip D) (d : D) (out : List ℕ)
      (taken hint : ℕ) (d' : D)
      → s.dstream ≡ some d
      → s.input ≡ b ∷ input
      → decoder.decompress_stream d (b ∷ input) ≡ some (out, taken, hint, d')
      → let s1 = record s {
        dstream = some d';
        to_read = hint;
        input = drop taken (b ∷ input);
        pending = out;
      } in
        decompress decoder (suc rounds) nmemb want given s ≡ (
          if length out == 0
          then decompress decoder rounds nmemb want given s1
          else elim (got_data decoder want given s1) [
            | served all s2 ↦ (all, nmemb, s2)
            | wants more some_bytes s2 ↦ decompress decoder rounds nmemb more some_bytes s2
          ])
  unfolding decompress
  decompress_call rounds nmemb want b input given s d out taken hint d' o i e =
      rw (o, decompress) (rw (i, decompress) (rw (e, decompress) refl))

  -- What GOTDATA does, by how much stands in the output buffer.
  pub got_enough :
      (nmemb want : ℕ) (given unread : List ℕ) (s : Unzip D)
      → 0 < want
      → want ≤ length s.pending
      → Opened decoder inflates s unread
      → (all : List ℕ) × (s2 : Unzip D) × (got_data decoder want given s ≡ served all s2)
        × Reading nmemb want given unread (all, nmemb, s2)
  unfolding got_data
  got_enough nmemb want given unread s p h o = (
    given ++ take want s.pending,
    record s { pending = drop want s.pending },
    ground arith,
    record {
      bytes_are =
          ap (◌++◌ given)
            (sym (ap (take want) o.unread_is ∙ take-append_le want s.pending o.plain h));
      count_is = ground (arith, ap length o.unread_is, length-append s.pending o.plain);
      then_opened = record {
        d = o.d;
        is_open = o.is_open;
        runs = o.runs;
        plain = o.plain;
        stands = o.stands;
        unread_is = ap (drop want) o.unread_is ∙ drop-append_le want s.pending o.plain h;
      };
    },
  )

  pub got_some :
      (want : ℕ) (given : List ℕ) (s : Unzip D)
      → 0 < length s.pending
      → length s.pending < want
      → got_data decoder want given s
        ≡ wants (want - length s.pending) (given ++ s.pending) (record s { pending = [] })
  unfolding got_data
  got_some want given s p h = ground arith

  pub got_none :
      (want : ℕ) (given : List ℕ) (s : Unzip D)
      → s.pending ≡ []
      → got_data decoder want given s ≡ wants want given s
  unfolding got_data
  got_none want given s h = ground (arith, ap length h)

  -- A part of what is wanted is there already.
  pub reads_later :
      (nmemb want more : ℕ) (given out unread later : List ℕ) (r : List ℕ × ℕ × Unzip D)
      → want ≡ length out + more
      → unread ≡ out ++ later
      → Reading nmemb more (given ++ out) later r
      → Reading nmemb want given unread r
  reads_later nmemb want more given out unread later r w u h =
      let dropped : drop want unread ≡ drop more later =
        ap (drop want) u ∙ drop_over want more out later w in
      record {
        bytes_are =
            h.bytes_are
            ∙ append_assoc given out (take more later)
            ∙ ap (◌++◌ given) (sym (ap (take want) u ∙ take_over want more out later w));
        count_is = h.count_is ∙ ground (arith, ap length u, length-append out later, w);
        then_opened = record {
          d = h.then_opened.d;
          is_open = h.then_opened.is_open;
          runs = h.then_opened.runs;
          plain = h.then_opened.plain;
          stands = h.then_opened.stands;
          unread_is = dropped ∙ h.then_opened.unread_is;
        };
      }

  -- At the end of the file.
  reads_nothing :
      (nmemb want : ℕ) (given unread : List ℕ) (s : Unzip D)
      → 0 < want
      → unread ≡ []
      → Opened decoder inflates s []
      → Reading nmemb want given unread (given, 0, s)
  reads_nothing nmemb zero given unread s p e o = absurd (omega arith)
  reads_nothing nmemb (suc want) given [] s p e o = record {
    bytes_are = sym (append-nil given);
    count_is = ground arith;
    then_opened = o;
  }
  reads_nothing nmemb (suc want) given (x ∷ xs) s p e o = cc

  -- A round of the loop, where the rounds behind it are known to read right.
  module _ (rounds nmemb : ℕ)
      (later : (want : ℕ) (given unread : List ℕ) (s : Unzip D)
        → 0 < want
        → rounds_for decoder want s < rounds
        → s.pending ≡ []
        → Opened decoder inflates s unread
        → Reading nmemb want given unread (decompress decoder rounds nmemb want given s)) where
    read_round :
        (want : ℕ) (given unread : List ℕ) (s : Unzip D)
        → 0 < want
        → rounds_for decoder want s < suc rounds
        → s.pending ≡ []
        → s.input ≡ []
        → Opened decoder inflates s unread
        → Reading nmemb want given unread (decompress decoder (suc rounds) nmemb want given s)
    read_round want given unread s p enough empty i o =
        let (chunk, n, s1) = refill decoder s in
        let r = refill_lem decoder inflates s unread i empty o in
        rw (decompress_read rounds nmemb want given s o.d o.is_open i) (elim (Bool-cases (n == 0)) [
          | inl over ↦
              let ended = r.at_end (ground arith) in
              rw over (reads_nothing nmemb want given unread s1 p ended.0 ended.1)
          | inr more ↦ rw more (
              later want given unread (record s1 { input = chunk }) p
                (omega (arith, r.less (ground arith), ap length i)) r.not_pending r.opened)
        ])

    -- The library has put out something, or nothing.
    out_round :
        (want : ℕ) (given unread plain : List ℕ) (s : Unzip D)
        → 0 < want
        → want + length s.input + 2 * length (remaining s.file) < rounds + length s.pending
        → (d : D) → s.dstream ≡ some d
        → Stands decoder inflates d s.to_read (s.input ++ remaining s.file) plain
        → unread ≡ s.pending ++ plain
        → s.exit_code ≡ none
        → Reading nmemb want given unread (
            if length s.pending == 0
            then decompress decoder rounds nmemb want given s
            else elim (got_data decoder want given s) [
              | served all s2 ↦ (all, nmemb, s2)
              | wants more some_bytes s2 ↦ decompress decoder rounds nmemb more some_bytes s2
            ])
    out_round want given unread plain s p enough d is_open stands u runs =
        let o : Opened decoder inflates s unread = record {
          d = d;
          is_open = is_open;
          runs = runs;
          plain = plain;
          stands = stands;
          unread_is = u;
        } in
        let n = length s.pending in
        elim (Bool-cases (n == 0)) [
          | inl nothing ↦
              let zero_long = (==_iff n 0).0 nothing in
              rw nothing
                (later want given unread s p (omega arith) (length_zero s.pending zero_long) o)
          | inr some_out ↦ rw some_out (elim (dec_le want n) [
            | yes all_there ↦
                let g = got_enough nmemb want given unread s p all_there o in rw g.2 g.3
            | no too_few ↦
                let rest = record s { pending = [] } in
                let positive : 0 < n = ground arith in
                rw (got_some want given s positive (omega arith)) (
                  reads_later nmemb want (want - n) given s.pending unread plain
                    (decompress decoder rounds nmemb (want - n) (given ++ s.pending) rest)
                    (omega arith) u
                    (later (want - n) (given ++ s.pending) plain rest (omega arith)
                      (omega (arith, positive)) refl
                      (record {
                        d = d;
                        is_open = is_open;
                        runs = runs;
                        plain = plain;
                        stands = stands;
                        unread_is = refl;
                      })))
          ])
        ]

    call_round :
        (want b : ℕ) (input given unread : List ℕ) (s : Unzip D)
        → 0 < want
        → rounds_for decoder want s < suc rounds
        → s.pending ≡ []
        → s.input ≡ b ∷ input
        → Opened decoder inflates s unread
        → Reading nmemb want given unread (decompress decoder (suc rounds) nmemb want given s)
    call_round want b input given unread s p enough empty i o =
        let chunk = b ∷ input in
        let file = remaining s.file in
        let whole = ap (λ (v : List ℕ). v ++ file) i in
        let k = call_lem decoder inflates o.d s.to_read b input file o.plain (
          moved decoder inflates o.d s.to_read (s.input ++ file) (chunk ++ file) o.plain whole
            o.stands) in
        let s1 : Unzip D = record s {
          dstream = some k.d';
          to_read = k.hint;
          input = drop k.taken chunk;
          pending = k.out;
        } in
        let round =
          decompress_call rounds nmemb want b input given s o.d k.out k.taken k.hint k.d' o.is_open
            i k.result in
        rw round (
          out_round want given unread k.plain' s1 p
            (omega (arith, length-drop k.taken chunk, ap length i, k.advances, k.within_chunk)) k.d'
            refl k.then_stands (o.unread_is ∙ ap (λ (v : List ℕ). v ++ o.plain) empty ∙ k.puts_out)
            o.runs)

  pub decompress_lem :
      (rounds nmemb want : ℕ) (given unread : List ℕ) (s : Unzip D)
      → 0 < want
      → rounds_for decoder want s < rounds
      → s.pending ≡ []
      → Opened decoder inflates s unread
      → Reading nmemb want given unread (decompress decoder rounds nmemb want given s)
  decompress_lem zero nmemb want given unread s p enough empty o = absurd (omega arith)
  decompress_lem (suc rounds) nmemb want given unread s p enough empty o =
      let later = λ (w : ℕ) (g u : List ℕ) (t : Unzip D). decompress_lem rounds nmemb w g u t in
      elim (List-cases s.input) [
        | inl i ↦ read_round rounds nmemb later want given unread s p enough empty i o
        | inr (b, input, i) ↦
            call_round rounds nmemb later want b input given unread s p enough empty i o
      ]
