-- ===== src/Ttyplay/Play/Skip.antt =====
-- The loop of `ttyskipall` of ttyplay.c on the records that are there.
use ovh_ttyrec.Base.{
  Bool, List, Option, [], ap, append_assoc, arith, false, length, length-append, none, some, suc,
  true, zero, ℕ, ◌++◌, ◌<◌, ◌∙◌, ◌∷◌, ◌≡◌, ◌≤◌,
}
use ovh_ttyrec.Stdio.{File, remaining, clearerr}
use ovh_ttyrec.Header.{Timeval}
use ovh_ttyrec.Io.{Endian}
use ovh_ttyrec.Recording.{Record, header_of, time_of, record_bytes, file_bytes}
use ovh_ttyrec.Ttyplay.Read.{plain, max_record_len, ttyread}
use ovh_ttyrec.Ttyplay.Play.{Player, ttyplay_loop, reading, waiting, ttynowrite, ttynowait}
use ovh_ttyrec.Ttyplay.Play.Replay.{AllPlayable, behind, loop_end, loop_first, loop_next, read_one}

module _ {D : Type 0} (malloc : ℕ → Bool) (enough : (n : ℕ) → n ≤ max_record_len → malloc n ≡ true)
    (e e' : Endian) (zero_speed : D) where
  abbrev pub Peeker : Type 0
  Peeker = Player File (List (File → File))

  abbrev pub skip_loop : ℕ → Bool → Timeval → D → Peeker → Option Peeker
  skip_loop =
      ttyplay_loop (reading (ttyread plain malloc e')) ttynowrite (waiting (ttynowait zero_speed))

  -- A round that skips a record.
  skip_one :
      (rounds : ℕ) (first : Bool) (prev : Timeval) (speed : D) (w : Peeker) (r : Record) (fp : File)
      → ttyread plain malloc e' w.input ≡ (some (header_of r, r.payload), fp)
      → (speed' : D) × (skip_loop (suc rounds) first prev speed w
          ≡ skip_loop rounds false (time_of r) speed' (record w { input = fp }))
  unfolding ttynowrite ttynowait
  skip_one rounds true prev speed w r fp h = (
    speed,
    loop_first (reading (ttyread plain malloc e')) ttynowrite (waiting (ttynowait zero_speed))
        rounds prev speed w (ap (λ x. (x.0, record w { input = x.1 })) h),
  )
  skip_one rounds false prev speed w r fp h = (
    zero_speed,
    loop_next (reading (ttyread plain malloc e')) ttynowrite (waiting (ttynowait zero_speed)) rounds
        prev speed w (ap (λ x. (x.0, record w { input = x.1 })) h),
  )

  skipped :
      (w : Peeker) {k k' : ℕ}
      → k ≡ k'
      → let at = λ (n : ℕ). record w { input = record w.input { pos = n; error = false } } in
        ◌≡◌ {A = Option Peeker} (some (at k)) (some (at k'))
  skipped w h =
      ap (λ (n : ℕ). some (record w { input = record w.input { pos = n; error = false } })) h

  -- The records that are there are skipped, and the stream stands behind them.
  pub skip_all :
      (rs : List Record) (part : List ℕ) (rounds : ℕ) (first : Bool) (prev : Timeval) (speed : D)
      (w : Peeker)
      → ((fp : File)
          → remaining fp ≡ part
          → fp.seekable ≡ true
          → fp.broken ≡ false
          → ttyread plain malloc e' fp ≡ (none, clearerr fp))
      → AllPlayable rs
      → w.input.seekable ≡ true
      → w.input.broken ≡ false
      → remaining w.input ≡ file_bytes e rs ++ part
      → length rs < rounds
      → skip_loop rounds first prev speed w
        ≡ some (record w { input = behind (length (file_bytes e rs)) w.input })
  unfolding clearerr
  skip_all rs part zero first prev speed w stop ok s b here p = absurd (omega arith)
  skip_all [] part (suc rounds) first prev speed w stop ok s b here p =
      loop_end (reading (ttyread plain malloc e')) ttynowrite (waiting (ttynowait zero_speed))
        rounds first prev speed w
        (ap (λ x. (x.0, record w { input = x.1 })) (stop w.input here s b))
      ∙ skipped w (omega arith)
  skip_all (r ∷ rs) part (suc rounds) first prev speed w stop ok s b here p =
      let rest = file_bytes e rs ++ part in
      let this =
        read_one malloc enough e e' r rest w.input ok.0
          (here ∙ append_assoc (record_bytes e r) (file_bytes e rs) part) in
      let fp = behind (length (record_bytes e r)) w.input in
      let (speed', one) = skip_one rounds first prev speed w r fp this.0 in
      one
      ∙ skip_all rs part rounds false (time_of r) speed' (record w { input = fp }) stop ok.1 s b
          this.1 (omega arith)
      ∙ skipped w (omega (arith, length-append (record_bytes e r) (file_bytes e rs)))
