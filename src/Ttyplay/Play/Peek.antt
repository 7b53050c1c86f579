-- ===== src/Ttyplay/Play/Peek.antt =====
-- `ttyskipall` and `ttypeek` of ttyplay.c on a recording that grows.
use ovh_ttyrec.Base.{
  Bool, List, Option, [], ap, append-nil, append_assoc, arith, drop, drop-append, drop_add, false,
  length, length-append, length-drop, map, none, refl, some, split_longer, suc, sym, take_all, true,
  zero, ℕ, ◌++◌, ◌<◌, ◌∙◌, ◌∷◌, ◌≡◌, ◌≤◌,
}
use ovh_ttyrec.Stdio.{File, remaining, clearerr}
use ovh_ttyrec.Header.{Timeval}
use ovh_ttyrec.Io.{Endian}
use ovh_ttyrec.Recording.{Record, header_of, time_of, record_bytes, file_bytes, payloads}
use ovh_ttyrec.Ttyplay.Read.{plain, max_record_len, ttyread, ttypread}
use ovh_ttyrec.Ttyplay.Read.Cut.{ttyread_end, ttyread_cut}
use ovh_ttyrec.Ttyplay.Read.Follow.{
  grow, joined, ttypread_grows, ttypread_last, ttypread_retry, remaining-grow,
}
use ovh_ttyrec.Ttyplay.Play.{
  Player, ttyplay_loop, no_time, following, waiting, ttywrite, ttynowait, ttyskipall, ttypeek,
}
use ovh_ttyrec.Ttyplay.Play.Skip.{skip_all}
use ovh_ttyrec.Ttyplay.Play.Replay.{AllPlayable, behind, loop_end, loop_first, loop_next}

-- What the file holds of the first new record: not all of it.
abbrev pub Begun : Endian → List ℕ → List Record → Type 0
Begun e part [] = length part < 12
Begun e part (r ∷ rs) = length part < length (record_bytes e r)

module _ {D : Type 0} (malloc : ℕ → Bool) (enough : (n : ℕ) → n ≤ max_record_len → malloc n ≡ true)
    (e e' : Endian) (zero_speed : D) where
  abbrev Peeker : Type 0
  Peeker = Player File (List (File → File))

  abbrev peek_loop : ℕ → Bool → Timeval → D → Peeker → Option Peeker
  peek_loop =
      ttyplay_loop (following (ttypread plain malloc e')) ttywrite (waiting (ttynowait zero_speed))

  -- Where no whole record comes any more, `ttypread` fails when the sleeps are over.
  ttypread_idle :
      (tail : List ℕ) (pieces : List (List ℕ)) (fp : File)
      → fp.seekable ≡ true
      → fp.broken ≡ false
      → fp.pos ≤ length fp.content
      → length tail < 12
      → remaining fp ++ joined pieces ≡ tail
      → (fp' : File) × (ttypread plain malloc e' (map grow pieces) fp ≡ (none, [], fp'))
  unfolding clearerr
  ttypread_idle tail [] fp s b inside t h = (
    clearerr fp,
    ttypread_last malloc e' fp (
        ttyread_end malloc e' fp s b (omega (arith, ap length h, length-append (remaining fp) []))),
  )
  ttypread_idle tail (c ∷ cs) fp s b inside t h =
      let again = ttypread_retry malloc e' (grow c) (map grow cs) fp (
        ttyread_end malloc e' fp s b
          (omega (arith, ap length h, length-append (remaining fp) (c ++ joined cs)))) in
      let (fp', rest) =
        ttypread_idle tail cs (clearerr (grow c (clearerr fp))) s b
          (omega (arith, length-append fp.content c)) t
          (ap (λ (v : List ℕ). v ++ joined cs) (remaining-grow c fp inside)
            ∙ append_assoc (remaining fp) c (joined cs)
            ∙ h) in
      (fp', again ∙ rest)

  -- A round that shows a record.
  show_one :
      (rounds : ℕ) (first : Bool) (prev : Timeval) (speed : D) (w : Peeker) (r : Record)
      (later : List (File → File)) (fp : File)
      → ttypread plain malloc e' w.env w.input ≡ (some (header_of r, r.payload), later, fp)
      → (speed' : D) × (peek_loop (suc rounds) first prev speed w
          ≡ peek_loop rounds false
              (time_of r)
              speed'
              (record { input = fp; out = w.out ++ r.payload; env = later }))
  unfolding ttywrite ttynowait
  show_one rounds true prev speed w r later fp h = (
    speed,
    loop_first (following (ttypread plain malloc e')) ttywrite (waiting (ttynowait zero_speed))
          rounds prev speed w (ap (λ x. (x.0, record w { input = x.2; env = x.1 })) h)
        ∙ ap
            (λ (o : List ℕ).
              peek_loop rounds false (time_of r) speed
                (record { input = fp; out = w.out ++ o; env = later }))
            (take_all (length r.payload) r.payload (omega arith)),
  )
  show_one rounds false prev speed w r later fp h = (
    zero_speed,
    loop_next (following (ttypread plain malloc e')) ttywrite (waiting (ttynowait zero_speed))
          rounds prev speed w (ap (λ x. (x.0, record w { input = x.2; env = x.1 })) h)
        ∙ ap
            (λ (o : List ℕ).
              peek_loop rounds false (time_of r) zero_speed
                (record { input = fp; out = w.out ++ o; env = later }))
            (take_all (length r.payload) r.payload (omega arith)),
  )

  -- What comes while the player follows is shown record by record.
  show_all :
      (rs : List Record) (tail : List ℕ) (pieces : List (List ℕ)) (rounds : ℕ) (first : Bool)
      (prev : Timeval) (speed : D) (w : Peeker)
      → AllPlayable rs
      → w.input.seekable ≡ true
      → w.input.broken ≡ false
      → w.input.pos ≤ length w.input.content
      → length tail < 12
      → w.env ≡ map grow pieces
      → remaining w.input ++ joined pieces ≡ file_bytes e rs ++ tail
      → length rs < rounds
      → (w' : Peeker) × (peek_loop rounds first prev speed w ≡ some w')
        × (w'.out ≡ w.out ++ payloads rs)
  show_all rs tail pieces zero first prev speed w ok s b inside t sleeps here p =
      absurd (omega arith)
  show_all [] tail pieces (suc rounds) first prev speed w ok s b inside t sleeps here p =
      let (fp, idle) = ttypread_idle tail pieces w.input s b inside t here in
      (
        record w { input = fp; env = [] },
        loop_end (following (ttypread plain malloc e')) ttywrite (waiting (ttynowait zero_speed))
            rounds first prev speed w
            (ap (λ x. (x.0, record w { input = x.2; env = x.1 }))
              (ap (λ (l : List (File → File)). ttypread plain malloc e' l w.input) sleeps ∙ idle)),
        sym (append-nil w.out),
      )
  show_all (r ∷ rs) tail pieces (suc rounds) first prev speed w ok s b inside t sleeps here p =
      let (result, later, fp) = ttypread plain malloc e' (map grow pieces) w.input in
      let f =
        ttypread_grows malloc e e' r (file_bytes e rs ++ tail) pieces w.input ok.0
          (enough (length r.payload) ok.0.not_long) s b inside
          (here ∙ append_assoc (record_bytes e r) (file_bytes e rs) tail) in
      let (speed', one) = show_one rounds first prev speed w r later fp (
        ap (λ (l : List (File → File)). ttypread plain malloc e' l w.input) sleeps
        ∙ ap (λ x. (x, later, fp)) f.found) in
      let (w', rest, out) =
        show_all rs tail f.to_come rounds false (time_of r) speed'
          (record { input = fp; out = w.out ++ r.payload; env = later }) ok.1 f.can_seek
          f.not_broken f.inside t f.left f.holds (omega arith) in
      (w', one ∙ rest, out ∙ append_assoc w.out r.payload (payloads rs))

  -- What is there of a record that is being written is left for later.
  partial_stops :
      (part more tail : List ℕ) (new : List Record)
      → AllPlayable new
      → Begun e part new
      → part ++ more ≡ file_bytes e new ++ tail
      → (fp : File) → remaining fp ≡ part
      → fp.seekable ≡ true
      → fp.broken ≡ false
      → ttyread plain malloc e' fp ≡ (none, clearerr fp)
  partial_stops part more tail [] ok short h fp here s b =
      ttyread_end malloc e' fp s b (omega (arith, ap length here))
  partial_stops part more tail (r ∷ rs) ok short h fp here s b =
      let missing = drop (length part) (record_bytes e r) in
      let rest = file_bytes e rs ++ tail in
      let whole =
        split_longer (record_bytes e r) rest part more
          (sym (h ∙ append_assoc (record_bytes e r) (file_bytes e rs) tail)) (omega arith) in
      ttyread_cut malloc e e' r missing fp ok.0 (enough (length r.payload) ok.0.not_long) s b
        (ap (λ (v : List ℕ). v ++ missing) here ∙ sym whole)
        (omega (arith, length-drop (length part) (record_bytes e r)))

  -- Peeking at a recording that grows: the records that the file holds when the player starts are skipped,
  -- and however the bytes of the later ones arrive while it sleeps, in whatever pieces, exactly these
  -- records are written to stdout, in order; also where the file holds a part of the first of them
  -- at the start, and where a header cut short is all that comes behind them. The file can seek and
  -- has no input error, `malloc` gives every buffer up to MAX_RECORD_LEN, every record has 1 to
  -- MAX_RECORD_LEN bytes, and there is one round more than there are records of each kind.
  pub ttypeek_follows :
      (old new : List Record) (part tail : List ℕ) (pieces : List (List ℕ)) (rounds : ℕ) (speed : D)
      (w : Peeker)
      → AllPlayable old
      → AllPlayable new
      → w.input.seekable ≡ true
      → w.input.broken ≡ false
      → w.input.pos ≤ length w.input.content
      → length tail < 12
      → w.env ≡ map grow pieces
      → remaining w.input ≡ file_bytes e old ++ part
      → Begun e part new
      → part ++ joined pieces ≡ file_bytes e new ++ tail
      → length old < rounds
      → length new < rounds
      → (w' : Peeker) × (ttypeek plain malloc e' rounds zero_speed speed w ≡ some w')
        × (w'.out ≡ w.out ++ payloads new)
  unfolding ttypeek ttyskipall
  ttypeek_follows old new part tail pieces rounds speed w ok_old ok_new s b inside t sleeps here
        begun comes p q =
      let n = length (file_bytes e old) in
      let skip =
        skip_all malloc enough e e' zero_speed old part rounds true no_time zero_speed w
          (partial_stops part (joined pieces) tail new ok_new begun comes) ok_old s b here p in
      let at = record w { input = behind n w.input } in
      let left : remaining (behind n w.input) ≡ part =
        drop_add w.input.pos n w.input.content
        ∙ ap (drop n) here
        ∙ drop-append (file_bytes e old) part n refl in
      let (w', shown, out) =
        show_all new tail pieces rounds true no_time speed at ok_new s b
          (omega (
            arith,
            ap length here,
            length-append (file_bytes e old) part,
            length-drop w.input.pos w.input.content,
          ))
          t sleeps (ap (λ (v : List ℕ). v ++ joined pieces) left ∙ comes) q in
      (w', rw (skip, ttypeek) shown, out)
