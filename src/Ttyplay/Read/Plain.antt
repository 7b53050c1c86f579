-- ===== src/Ttyplay/Read/Plain.antt =====
-- `ttyread` of ttyplay.c over a plain file, at a whole record.
use ovh_ttyrec.Base.{Bool, List, ap, arith, length, some, true, ℕ, ◌*◌, ◌++◌, ◌<◌, ◌∙◌, ◌≡◌, ◌≤◌}
use ovh_ttyrec.Stdio.{File, remaining, fread, clearerr}
use ovh_ttyrec.Io.{Endian}
use ovh_ttyrec.Io.Read.{advance, fread_full}
use ovh_ttyrec.Recording.{Record, header_of, Fits, record_bytes}
use ovh_ttyrec.Recording.Position.{read_header-record, remaining_payload}
use ovh_ttyrec.Ttyplay.Read.{plain, max_record_len, ttyread}

-- A record that the format can hold and that `ttyread` accepts.
pub record Playable (r : Record) : Type 0 where
  pub fits : Fits r
  pub not_empty : 0 < length r.payload
  pub not_long : length r.payload ≤ max_record_len

-- The read of the bytes behind the header of a whole record.
fread_payload :
    (e : Endian) (r : Record) (fp : File) (rest : List ℕ)
    → remaining fp ≡ record_bytes e r ++ rest
    → fread 1 (length r.payload) (advance 12 fp)
      ≡ (r.payload, length r.payload, advance (length r.payload) (advance 12 fp))
fread_payload e r fp rest here =
    let n = length r.payload in
    let whole =
      fread_full 1 n (advance 12 fp) r.payload rest (omega arith) (omega arith)
        (remaining_payload e r fp rest here) in
    let once : 1 * n ≡ n = omega arith in
    whole ∙ ap (λ (k : ℕ). (r.payload, n, advance k (advance 12 fp))) once

-- Where a whole record stands, it is returned, and the stream is behind it.
pub ttyread_record :
    (malloc : ℕ → Bool) (e e' : Endian) (r : Record) (rest : List ℕ) (fp : File)
    → Playable r
    → malloc (length r.payload) ≡ true
    → remaining fp ≡ record_bytes e r ++ rest
    → ttyread plain malloc e' fp
      ≡ (some (header_of r, r.payload), advance (length r.payload) (advance 12 (clearerr fp)))
unfolding ttyread clearerr
ttyread_record malloc e e' r rest fp ok m here =
    let n = length r.payload in
    let payload : fread 1 n (advance 12 (clearerr fp))
        ≡ (r.payload, n, advance n (advance 12 (clearerr fp))) =
      fread_payload e r (clearerr fp) rest here in
    rw (read_header-record e r (clearerr fp) rest here e' ok.fits, ttyread)
      (rw (read_header-record e r (clearerr fp) rest here e' ok.fits, payload) (ground arith))
