-- ===== src/Ttyplay/Read/Source.antt =====
-- `ttyread` of ttyplay.c over any `fread_wrapper` that gives the bytes one after the other.
use ovh_ttyrec.Base.{
  ==_iff, Bool, List, append_assoc, arith, false, leb_ℤ, length, ltb_ℤ, none, pos, refl, some, true,
  ℕ, ◌*◌, ◌++◌, ◌<◌, ◌==◌, ◌≡◌, ◌≤◌,
}
use ovh_ttyrec.Stdio.{clearerr}
use ovh_ttyrec.Header.{Timeval}
use ovh_ttyrec.Io.{Endian, encode_header, read_header}
use ovh_ttyrec.Io.RoundTrip.{length-encode_header, decode-encode_header}
use ovh_ttyrec.Recording.{Record, header_of, record_bytes}
use ovh_ttyrec.Ttyplay.Read.{Input, max_record_len, read_failed, ttyread}
use ovh_ttyrec.Ttyplay.Read.Plain.{Playable}

-- What such a function promises: `Has` says which bytes are still to be read. A read of no more than
-- these gives the next ones, one of more tells by its count that they were not all there, and the
-- error flag of the stream does not matter.
pub record Source {S : Type 0} (io : Input S) : Type 1 where
  pub Has : S → List ℕ → Type 0
  pub gives :
      (size nmemb : ℕ) (s : S) (bytes rest : List ℕ)
      → 0 < size
      → 0 < nmemb
      → length bytes ≡ size * nmemb
      → Has s (bytes ++ rest)
      → (s' : S) × (io.fread_wrapper size nmemb s ≡ (bytes, nmemb, s')) × Has s' rest
  pub lacks :
      (size nmemb : ℕ) (s : S) (unread : List ℕ)
      → 0 < size
      → length unread < size * nmemb
      → Has s unread
      → (got : List ℕ) × (count : ℕ) × (s' : S) × (io.fread_wrapper size nmemb s ≡ (got, count, s'))
        × (count < nmemb)
  pub clears :
      (s : S) (unread : List ℕ)
      → Has s unread
      → Has (io.set_stream (clearerr (io.stream s)) s) unread

module _ {S : Type 0} (io : Input S) (malloc : ℕ → Bool) (e : Endian) where
  abbrev cleared : S → S
  cleared s = io.set_stream (clearerr (io.stream s)) s

  -- `ttyread`, by what is read.
  ttyread-none :
      (s s1 : S)
      → read_header e io.fread_wrapper (cleared s) ≡ (none, s1)
      → ttyread io malloc e s
        ≡ (none, read_failed io malloc e (io.stream s).seekable (io.stream s).pos s1)
  unfolding ttyread
  ttyread-none s s1 h = rw (h, ttyread) (rw h refl)

  ttyread-some :
      (s s1 s2 : S) (tv : Timeval) (buf : List ℕ) (n : ℕ)
      → 0 < n
      → n ≤ max_record_len
      → malloc n ≡ true
      → read_header e io.fread_wrapper (cleared s) ≡ (some (record { tv = tv; len = pos n }), s1)
      → io.fread_wrapper 1 n s1 ≡ (buf, n, s2)
      → ttyread io malloc e s ≡ (some (record { tv = tv; len = pos n }, buf), s2)
  unfolding ttyread
  ttyread-some s s1 s2 tv buf n p l m header payload =
      let small : leb_ℤ (pos n) (pos 0) ≡ false = ground arith in
      let large : ltb_ℤ (pos max_record_len) (pos n) ≡ false = ground arith in
      let same : (n == n) ≡ true = (==_iff n n).1 refl in
      rw (header, ttyread) (rw (header, small, large, m, payload, same) refl)

module _ {S : Type 0} (io : Input S) (source : Source io) (malloc : ℕ → Bool) (e e' : Endian) where
  open source use {Has, gives, lacks, clears}

  header_gives :
      (r : Record) (rest : List ℕ) (s : S)
      → Playable r
      → Has s (encode_header e (header_of r) ++ rest)
      → (s' : S) × (read_header e' io.fread_wrapper s ≡ (some (header_of r), s')) × Has s' rest
  unfolding read_header
  header_gives r rest s ok h =
      let (s1, got, later) =
        gives 4 3 s (encode_header e (header_of r)) rest (omega arith) (omega arith)
          (length-encode_header e (header_of r)) h in
      let decoded =
        decode-encode_header e e' r.sec r.usec (pos (length r.payload)) ok.fits.sec_fits
          ok.fits.usec_fits (omega arith) (omega (arith, ok.fits.len_fits)) in
      (s1, rw (got, decoded) refl, later)

  header_lacks :
      (unread : List ℕ) (s : S)
      → length unread < 12
      → Has s unread
      → (s' : S) × (read_header e' io.fread_wrapper s ≡ (none, s'))
  unfolding read_header
  header_lacks unread s short h =
      let (got, count, s1, eq, few) = lacks 4 3 s unread (omega arith) (omega arith) h in
      let test : (count == 3) ≡ false = ground arith in (s1, rw (eq, test) refl)

  -- At a whole record it is returned, and what is left is what stands behind it.
  pub source_record :
      (r : Record) (rest : List ℕ) (s : S)
      → Playable r
      → malloc (length r.payload) ≡ true
      → Has s (record_bytes e r ++ rest)
      → (s' : S) × (ttyread io malloc e' s ≡ (some (header_of r, r.payload), s')) × Has s' rest
  source_record r rest s ok m h =
      let n = length r.payload in
      let split = append_assoc (encode_header e (header_of r)) r.payload rest in
      let (s1, header, then_payload) =
        header_gives r (r.payload ++ rest) (cleared io malloc e' s) ok
          (rw (← split) (clears s (record_bytes e r ++ rest) h)) in
      let (s2, payload, then_rest) =
        gives 1 n s1 r.payload rest (omega arith) ok.not_empty (omega arith) then_payload in
      (
        s2,
        ttyread-some io malloc e' s s1 s2 (header_of r).tv r.payload n ok.not_empty ok.not_long m
            header payload,
        then_rest,
      )

  -- Where not even a header is left, a failure is reported.
  pub source_end :
      (unread : List ℕ) (s : S)
      → length unread < 12
      → Has s unread
      → (s' : S) × (ttyread io malloc e' s ≡ (none, s'))
  source_end unread s short h =
      let (s1, eq) = header_lacks unread (cleared io malloc e' s) short (clears s unread h) in
      (
        read_failed io malloc e' (io.stream s).seekable (io.stream s).pos s1,
        ttyread-none io malloc e' s s1 eq,
      )
