-- ===== src/Ttyplay/Read/Cut.antt =====
-- `ttyread` at a record that is not whole yet, and at an invalid length.
use native.Mathlib.Decide.{dec_le}
use ovh_ttyrec.Base.{
  Bool, List, ap, arith, drop, drop-append, false, leb_ℤ, length, length-append, length-drop, ltb_ℤ,
  negsuc, none, pos, split_longer, sym, true, ℕ, ℤ, ◌++◌, ◌+◌, ◌-◌, ◌/◌, ◌<ℤ◌, ◌<◌, ◌==◌, ◌^◌, ◌||◌,
  ◌∙◌, ◌≡◌, ◌≤ℤ◌, ◌⊎◌,
}
use ovh_ttyrec.Stdio.{File, remaining, fsetpos, clearerr}
use ovh_ttyrec.Io.{Endian, encode_header}
use ovh_ttyrec.Io.Layout.{stamp}
use ovh_ttyrec.Io.RoundTrip.{length-encode_header}
use ovh_ttyrec.Io.Read.{
  advance, remaining-advance, fread_short, read_header_short, read_header-encode_header,
}
use ovh_ttyrec.Recording.{Record, header_of, record_bytes}
use ovh_ttyrec.Ttyplay.Read.{plain, max_record_len, read_failed, ttyread}
use ovh_ttyrec.Ttyplay.Read.Plain.{Playable}

-- A stream that a failed `fread` left at its end is put back to where the record begins.
put_back :
    (malloc : ℕ → Bool) (e : Endian) (fp : File) (end : ℕ)
    → fp.seekable ≡ true
    → fp.broken ≡ false
    → read_failed plain malloc e fp.seekable fp.pos
        (record fp { pos = end; error = false || fp.broken })
      ≡ clearerr fp
unfolding read_failed fsetpos clearerr
put_back malloc e fp end s b = ground arith

-- Where fewer than twelve bytes are left, `ttyread` reports a failure and the stream is put back.
pub ttyread_end :
    (malloc : ℕ → Bool) (e : Endian) (fp : File)
    → fp.seekable ≡ true
    → fp.broken ≡ false
    → length (remaining fp) < 12
    → ttyread plain malloc e fp ≡ (none, clearerr fp)
unfolding ttyread clearerr
ttyread_end malloc e fp s b h =
    let short = read_header_short e (clearerr fp) h in
    let end = fp.pos + length (remaining fp) in
    rw (short, ttyread) (rw short (ap (λ (t : File). (none, t)) (put_back malloc e fp end s b)))

module _ (malloc : ℕ → Bool) (e e' : Endian) (r : Record) (fp : File) (ok : Playable r)
    (m : malloc (length r.payload) ≡ true) (s : fp.seekable ≡ true) (b : fp.broken ≡ false) where
  cut_in_payload :
      (part : List ℕ)
      → length part < length r.payload
      → remaining fp ≡ encode_header e (header_of r) ++ part
      → ttyread plain malloc e' fp ≡ (none, clearerr fp)
  unfolding ttyread clearerr
  cut_in_payload part h here =
      let n = length r.payload in
      let header =
        read_header-encode_header e e' r.sec r.usec (pos n) (clearerr fp) part ok.fits.sec_fits
          ok.fits.usec_fits (omega arith) (omega (arith, ok.fits.len_fits)) here in
      let left : length (remaining (advance 12 fp)) ≡ length part = ap length (
        remaining-advance 12 fp
        ∙ ap (drop 12) here
        ∙ drop-append (encode_header e (header_of r)) part 12
            (sym (length-encode_header e (header_of r)))) in
      let k = length (remaining (advance 12 fp)) in
      let payload = fread_short 1 n (advance 12 (clearerr fp)) (omega (arith, left)) in
      let too_few : (k / 1 == n) ≡ false = ground (arith, left) in
      let small : leb_ℤ (pos n) (pos 0) ≡ false = ground (arith, ok.not_empty) in
      let large : ltb_ℤ (pos max_record_len) (pos n) ≡ false = ground (arith, ok.not_long) in
      rw (header, ttyread)
        (rw (header, small, large, m, payload, too_few)
          (ap (λ (t : File). (none, t)) (put_back malloc e' fp (fp.pos + 12 + k) s b)))

-- Where only a part of a record has been written, `ttyread` reports a failure, and the stream is as
-- before the call, ready for a retry, but that its error flag is cleared. The stream can seek and
-- its end is no input error.
pub ttyread_cut :
    (malloc : ℕ → Bool) (e e' : Endian) (r : Record) (missing : List ℕ) (fp : File)
    → Playable r
    → malloc (length r.payload) ≡ true
    → fp.seekable ≡ true
    → fp.broken ≡ false
    → remaining fp ++ missing ≡ record_bytes e r
    → 0 < length missing
    → ttyread plain malloc e' fp ≡ (none, clearerr fp)
ttyread_cut malloc e e' r missing fp ok m s b here more = elim (dec_le 12 (length (remaining fp))) [
  | no short ↦ ttyread_end malloc e' fp s b (omega arith)
  | yes long ↦
      let header = encode_header e (header_of r) in
      let twelve = length-encode_header e (header_of r) in
      let split : remaining fp ≡ header ++ drop (length header) (remaining fp) =
        split_longer (remaining fp) missing header r.payload here (omega (arith, twelve)) in
      cut_in_payload malloc e e' r fp ok m s b (drop (length header) (remaining fp))
        (omega (
          arith,
          ap length here,
          length-append (remaining fp) missing,
          length-append header r.payload,
          length-drop (length header) (remaining fp),
        ))
        split
]

-- A header whose length is not 1 to MAX_RECORD_LEN is reported as a failure too, but the stream
-- stays behind the twelve bytes, also where it can seek.
pub ttyread_invalid :
    (malloc : ℕ → Bool) (e e' : Endian) (sec usec : ℕ) (len : ℤ) (rest : List ℕ) (fp : File)
    → sec < 2 ^ 44
    → usec < 2 ^ 20
    → negsuc (2 ^ 31 - 1) ≤ℤ len
    → len <ℤ pos (2 ^ 31)
    → (len ≤ℤ pos 0) ⊎ (pos max_record_len <ℤ len)
    → remaining fp ≡ encode_header e (stamp sec usec len) ++ rest
    → ttyread plain malloc e' fp ≡ (none, advance 12 (clearerr fp))
unfolding ttyread clearerr
ttyread_invalid malloc e e' sec usec len rest fp hs hu lo hi bad here =
    let header = read_header-encode_header e e' sec usec len (clearerr fp) rest hs hu lo hi here in
    let test : leb_ℤ len (pos 0) || ltb_ℤ (pos max_record_len) len ≡ true = ground (arith, bad) in
    rw (header, ttyread) (rw (header, test))
