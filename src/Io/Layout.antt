-- ===== src/Io/Layout.antt =====
-- The twelve bytes of a header as fields, and the round trips between headers and bytes.
use ovh_ttyrec.Base.{
  List, [], ap₂, arith, bit_and, bit_or, drop, get_or, length, lt→ltb, negsuc, pattern_bits, pos,
  refl, signed32, signed64, suc, take, zero, ℕ, ℤ, ◌%◌, ◌*◌, ◌++◌, ◌+◌, ◌/◌, ◌<◌, ◌^◌, ◌∷◌, ◌≡◌,
}
use ovh_ttyrec.Base.Bits.{bit_and_low, bit_and_field, bit_or_low_high}
use ovh_ttyrec.Header.{Header}
use ovh_ttyrec.Io.{
  Endian, little, big, word_bytes, bytes_word, convert_to_little_endian, decode_header,
  encode_header,
}
use ovh_ttyrec.Io.Swap.{word_bytes-convert, convert-bytes_word}

-- A header with a date from 1970 on and a microsecond count that is not negative.
abbrev pub stamp : ℕ → ℕ → ℤ → Header
stamp sec usec len = record { tv = record { tv_sec = pos sec; tv_usec = pos usec }; len = len }

-- Every number of the list fits a byte.
abbrev pub AreBytes : List ℕ → Type 0
AreBytes [] = Unit
AreBytes (b ∷ bs) = (b < 256) × AreBytes bs

pub AreBytes-take : (n : ℕ) (bs : List ℕ) → AreBytes bs → AreBytes (take n bs)
AreBytes-take zero bs h = tt
AreBytes-take (suc n) [] h = tt
AreBytes-take (suc n) (b ∷ bs) h = (h.0, AreBytes-take n bs h.1)

pub AreBytes-drop : (n : ℕ) (bs : List ℕ) → AreBytes bs → AreBytes (drop n bs)
AreBytes-drop zero bs h = h
AreBytes-drop (suc n) [] h = tt
AreBytes-drop (suc n) (b ∷ bs) h = AreBytes-drop n bs h.1

pub AreBytes-append : (xs ys : List ℕ) → AreBytes xs → AreBytes ys → AreBytes (xs ++ ys)
AreBytes-append [] ys h k = k
AreBytes-append (x ∷ xs) ys h k = (h.0, AreBytes-append xs ys h.1 k)

get_or-lt : (i : ℕ) (bs : List ℕ) → AreBytes bs → get_or bs i 0 < 2 ^ 8
get_or-lt i [] h = omega arith
get_or-lt zero (b ∷ bs) h = h.0
get_or-lt (suc i) (b ∷ bs) h = get_or-lt i bs h.1

pub word_bytes-AreBytes : (e : Endian) (w : ℕ) → AreBytes (word_bytes e w)
unfolding word_bytes
word_bytes-AreBytes little w = omega arith
word_bytes-AreBytes big w = omega arith

pub length-word_bytes : (e : Endian) (w : ℕ) → length (word_bytes e w) ≡ 4
unfolding word_bytes
length-word_bytes little w = refl
length-word_bytes big w = refl

pub pattern_bits-lt : (n : ℤ) → pattern_bits 32 n < 2 ^ 32
pattern_bits-lt (pos n) = omega arith
pattern_bits-lt (negsuc n) = omega arith

-- The two fields that `tv_usec` and bits 32 to 43 of `tv_sec` share.
shared_word :
    (sec usec : ℕ)
    → usec < 2 ^ 20
    → bit_or (usec % 2 ^ 64) (bit_and (sec % 2 ^ 64) 0x00000fff00000000 / 2 ^ 12) % 2 ^ 32
      ≡ usec + sec / 2 ^ 32 % 2 ^ 12 * 2 ^ 20
shared_word sec usec h =
    let top : bit_and (sec % 2 ^ 64) 0x00000fff00000000 / 2 ^ 12 ≡ sec / 2 ^ 32 % 2 ^ 12 * 2 ^ 20 =
      omega (arith, bit_and_field 12 32 (sec % 2 ^ 64)) in
    let low : usec % 2 ^ 64 ≡ usec = omega arith in
    omega (arith, ap₂ bit_or low top, bit_or_low_high 20 usec (sec / 2 ^ 32 % 2 ^ 12) h)

-- On a host of either byte order, the header in the file is three little-endian words: the low 32
-- bits of the seconds; the microseconds, with bits 32 to 43 of the seconds above 20 bits; the length.
pub encode_header_layout :
    (e : Endian) (sec usec : ℕ) (len : ℤ)
    → usec < 2 ^ 20
    → encode_header e (stamp sec usec len)
      ≡ word_bytes little (sec % 2 ^ 32)
        ++ word_bytes little (usec + sec / 2 ^ 32 % 2 ^ 12 * 2 ^ 20)
        ++ word_bytes little (pattern_bits 32 len)
unfolding encode_header
encode_header_layout e sec usec len h =
    let low : bit_and (sec % 2 ^ 64) 0xffffffff % 2 ^ 32 ≡ sec % 2 ^ 32 =
      omega (arith, bit_and_low 32 (sec % 2 ^ 64)) in
    rw (
      low,
      shared_word sec usec h,
      word_bytes-convert e (sec % 2 ^ 32) (omega arith),
      word_bytes-convert e (usec + sec / 2 ^ 32 % 2 ^ 12 * 2 ^ 20) (omega arith),
      word_bytes-convert e (pattern_bits 32 len) (pattern_bits-lt len),
    )

pub bytes_word-lt : (b : List ℕ) → AreBytes b → bytes_word little b < 2 ^ 32
unfolding bytes_word
bytes_word-lt b h =
    omega (arith, get_or-lt 0 b h, get_or-lt 1 b h, get_or-lt 2 b h, get_or-lt 3 b h)

convert_word :
    (e : Endian) (b : List ℕ)
    → AreBytes b
    → convert_to_little_endian e (bytes_word e b) ≡ bytes_word little b
convert_word e b h =
    convert-bytes_word e b (get_or-lt 0 b h) (get_or-lt 1 b h) (get_or-lt 2 b h) (get_or-lt 3 b h)

-- What `read_header` makes of the two words that hold the time.
read_sec :
    (low shared : ℕ)
    → low < 2 ^ 32
    → shared < 2 ^ 32
    → signed64 (bit_or low (bit_and shared 0xfff00000 * 2 ^ 12 % 2 ^ 64))
      ≡ pos (low + shared / 2 ^ 20 * 2 ^ 32)
read_sec low shared hl hs =
    let high : bit_and shared 0xfff00000 * 2 ^ 12 % 2 ^ 64 ≡ shared / 2 ^ 20 * 2 ^ 32 =
      omega (arith, bit_and_field 12 20 shared) in
    rw (
      high,
      bit_or_low_high 32 low (shared / 2 ^ 20) hl,
      lt→ltb (low + shared / 2 ^ 20 * 2 ^ 32) (2 ^ 63) (omega arith),
    )

-- The fields that a host of either byte order reads from twelve bytes.
pub decode_header_layout :
    (e : Endian) (bytes : List ℕ)
    → AreBytes bytes
    → let low = bytes_word little (take 4 bytes) in
      let shared = bytes_word little (take 4 (drop 4 bytes)) in
      decode_header e bytes
      ≡ stamp
          (low + shared / 2 ^ 20 * 2 ^ 32)
          (shared % 2 ^ 20)
          (signed32 (bytes_word little (take 4 (drop 8 bytes))))
unfolding decode_header
decode_header_layout e bytes h =
    let h0 = AreBytes-take 4 bytes h in
    let h1 = AreBytes-take 4 (drop 4 bytes) (AreBytes-drop 4 bytes h) in
    let h2 = AreBytes-take 4 (drop 8 bytes) (AreBytes-drop 8 bytes h) in
    rw (
      convert_word e (take 4 bytes) h0,
      convert_word e (take 4 (drop 4 bytes)) h1,
      convert_word e (take 4 (drop 8 bytes)) h2,
      read_sec _ _ (bytes_word-lt _ h0) (bytes_word-lt _ h1),
      bit_and_low 20 (bytes_word little (take 4 (drop 4 bytes))),
    )
