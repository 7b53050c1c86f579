-- ===== src/Io/Read.antt =====
-- `read_header` and `write_header` over a plain file.
use native.Mathlib.Nat.{mul-div_cancel_left}
use ovh_ttyrec.Base.{
  List, arith, drop, drop_add, leb, length, length-take, negsuc, none, pos, some, sym, take,
  take-append, take-append-drop, take_all, true, ℕ, ℤ, ◌*◌, ◌++◌, ◌+◌, ◌-◌, ◌/◌, ◌<ℤ◌, ◌<◌, ◌^◌,
  ◌||◌, ◌≡◌, ◌≤ℤ◌, ◌≤◌,
}
use ovh_ttyrec.Stdio.{File, remaining, fread, Sink, fwrite}
use ovh_ttyrec.Header.{Header}
use ovh_ttyrec.Io.{Endian, decode_header, encode_header, read_header, write_header}
use ovh_ttyrec.Io.Layout.{stamp}
use ovh_ttyrec.Io.RoundTrip.{length-encode_header, decode-encode_header}

-- A stream from which `n` bytes are taken.
abbrev pub advance : ℕ → File → File
advance n f = record f { pos = f.pos + n }

pub remaining-advance : (n : ℕ) (f : File) → remaining (advance n f) ≡ drop n (remaining f)
remaining-advance n f = drop_add f.pos n f.content

-- A read that the file can satisfy gives the bytes and moves on behind them.
pub fread_full :
    (size nmemb : ℕ) (f : File) (bytes rest : List ℕ)
    → 0 < size
    → length bytes ≡ size * nmemb
    → remaining f ≡ bytes ++ rest
    → fread size nmemb f ≡ (bytes, nmemb, advance (size * nmemb) f)
unfolding fread
fread_full size nmemb f bytes rest hs hl hr =
    rw (hr, take-append bytes rest (size * nmemb) (sym hl))
      (ground (arith, hl, mul-div_cancel_left nmemb hs))

-- A read that the file cannot satisfy takes what is left, and sets the error flag on a broken device.
pub fread_short :
    (size nmemb : ℕ) (f : File)
    → length (remaining f) < size * nmemb
    → fread size nmemb f ≡ (
      remaining f,
      length (remaining f) / size,
      record f { pos = f.pos + length (remaining f); error = f.error || f.broken },
    )
unfolding fread
fread_short size nmemb f h = rw (take_all (size * nmemb) (remaining f) (omega arith)) (ground arith)

-- Where a header that any host wrote stands at the position, `read_header` returns it and moves on
-- to the byte behind it.
pub read_header-encode_header :
    (e e' : Endian) (sec usec : ℕ) (len : ℤ) (f : File) (rest : List ℕ)
    → sec < 2 ^ 44
    → usec < 2 ^ 20
    → negsuc (2 ^ 31 - 1) ≤ℤ len
    → len <ℤ pos (2 ^ 31)
    → remaining f ≡ encode_header e (stamp sec usec len) ++ rest
    → read_header e' fread f ≡ (some (stamp sec usec len), advance 12 f)
unfolding read_header
read_header-encode_header e e' sec usec len f rest hs hu lo hi hr =
    let bytes = encode_header e (stamp sec usec len) in
    rw (
      fread_full 4 3 f bytes rest (omega arith) (length-encode_header e (stamp sec usec len)) hr,
      decode-encode_header e e' sec usec len hs hu lo hi,
    )

-- Where fewer than twelve bytes are left, `read_header` reports a failure, at the end of the file.
pub read_header_short :
    (e : Endian) (f : File)
    → length (remaining f) < 12
    → read_header e fread f
      ≡ (none, record f { pos = f.pos + length (remaining f); error = f.error || f.broken })
unfolding read_header
read_header_short e f h = rw (fread_short 4 3 f h) (ground arith)

-- Where twelve bytes or more are left, it returns the header that the next twelve are.
pub read_header_full :
    (e : Endian) (f : File)
    → 12 ≤ length (remaining f)
    → read_header e fread f ≡ (some (decode_header e (take 12 (remaining f))), advance 12 f)
unfolding read_header
read_header_full e f h =
    let twelve : length (take 12 (remaining f)) ≡ 12 =
      omega (arith, length-take 12 (remaining f)) in
    let split = sym (take-append-drop 12 (remaining f)) in
    rw (fread_full 4 3 f (take 12 (remaining f)) (drop 12 (remaining f)) (omega arith) twelve split)

-- A plain file that has room for twelve bytes gets exactly the header, and the call succeeds.
pub write_header_lem :
    (e : Endian) (h : Header) (s : Sink)
    → 12 ≤ s.room
    → write_header e fwrite h s
      ≡ (true, record { written = s.written ++ encode_header e h; room = s.room - 12 })
unfolding write_header fwrite
write_header_lem e h s p =
    ground (arith, take_all 12 (encode_header e h) (omega (arith, length-encode_header e h)))

-- On a device that fills up inside the header, the call reports success as soon as one of the three
-- words was written, although the header in the file is cut short.
pub write_header_partial :
    (e : Endian) (h : Header) (s : Sink)
    → s.room < 12
    → write_header e fwrite h s
      ≡ (leb 4 s.room, record { written = s.written ++ take s.room (encode_header e h); room = 0 })
unfolding write_header fwrite
write_header_partial e h s p = ground arith
