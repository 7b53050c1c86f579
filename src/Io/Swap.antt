-- ===== src/Io/Swap.antt =====
-- `convert_to_little_endian` of io.c, on hosts of either byte order.
use ovh_ttyrec.Base.{
  List, ap₂, arith, bit_and, bit_or, get_or, refl, ℕ, ◌%◌, ◌*◌, ◌+◌, ◌/◌, ◌<◌, ◌^◌, ◌∙◌, ◌≡◌,
}
use ovh_ttyrec.Base.Bits.{bit_and_low, bit_and_field, bit_or_high_low}
use ovh_ttyrec.Io.{
  Endian, little, big, word_bytes, bytes_word, is_little_endian, swap_endian,
  convert_to_little_endian,
}

-- The byte of `v` at bit `k`.
abbrev byte_at : ℕ → ℕ → ℕ
byte_at v k = v / 2 ^ k % 2 ^ 8

-- The three `|` of SWAP_ENDIAN, over bytes that are already in their places.
or_bytes :
    (a b c d : ℕ)
    → b < 2 ^ 8
    → c < 2 ^ 8
    → d < 2 ^ 8
    → bit_or (bit_or (bit_or (a * 2 ^ 24) (b * 2 ^ 16)) (c * 2 ^ 8)) d
      ≡ ((a * 2 ^ 8 + b) * 2 ^ 8 + c) * 2 ^ 8 + d
or_bytes a b c d hb hc hd =
    let one : bit_or (a * 2 ^ 24) (b * 2 ^ 16) ≡ (a * 2 ^ 8 + b) * 2 ^ 16 =
      omega (arith, bit_or_high_low 24 a (b * 2 ^ 16) (omega arith)) in
    let two : bit_or ((a * 2 ^ 8 + b) * 2 ^ 16) (c * 2 ^ 8)
        ≡ ((a * 2 ^ 8 + b) * 2 ^ 8 + c) * 2 ^ 8 =
      omega (arith, bit_or_high_low 16 (a * 2 ^ 8 + b) (c * 2 ^ 8) (omega arith)) in
    rw one (rw two (bit_or_high_low 8 ((a * 2 ^ 8 + b) * 2 ^ 8 + c) d hd))

swap_endian_lem :
    (v : ℕ)
    → swap_endian v
      ≡ ((v % 2 ^ 8 * 2 ^ 8 + byte_at v 8) * 2 ^ 8 + byte_at v 16) * 2 ^ 8 + byte_at v 24
unfolding swap_endian
swap_endian_lem v =
    let a : bit_and v 0x000000ff * 2 ^ 24 % 2 ^ 32 ≡ v % 2 ^ 8 * 2 ^ 24 =
      omega (arith, bit_and_low 8 v) in
    let b : bit_and v 0x0000ff00 * 2 ^ 8 % 2 ^ 32 ≡ byte_at v 8 * 2 ^ 16 =
      omega (arith, bit_and_field 8 8 v) in
    let c : bit_and v 0x00ff0000 / 2 ^ 8 ≡ byte_at v 16 * 2 ^ 8 =
      omega (arith, bit_and_field 8 16 v) in
    let d : bit_and v 0xff000000 / 2 ^ 24 ≡ byte_at v 24 = omega (arith, bit_and_field 8 24 v) in
    ap₂ bit_or (ap₂ bit_or (ap₂ bit_or a b) c) d
    ∙ or_bytes (v % 2 ^ 8) (byte_at v 8) (byte_at v 16) (byte_at v 24) (omega arith) (omega arith)
        (omega arith)

pub swap_endian-lt : (v : ℕ) → swap_endian v < 2 ^ 32
swap_endian-lt v = omega (arith, swap_endian_lem v)

-- The bytes that a host stores for a converted number are its bytes from the lowest on.
pub word_bytes-convert :
    (e : Endian) (v : ℕ)
    → v < 2 ^ 32
    → word_bytes e (convert_to_little_endian e v) ≡ word_bytes little v
unfolding word_bytes convert_to_little_endian is_little_endian
word_bytes-convert little v h = refl
word_bytes-convert big v h = ground (arith, swap_endian_lem v)

-- The number that a host converts from four bytes in memory is read from the lowest on.
pub convert-bytes_word :
    (e : Endian) (b : List ℕ)
    → get_or b 0 0 < 2 ^ 8
    → get_or b 1 0 < 2 ^ 8
    → get_or b 2 0 < 2 ^ 8
    → get_or b 3 0 < 2 ^ 8
    → convert_to_little_endian e (bytes_word e b) ≡ bytes_word little b
unfolding bytes_word convert_to_little_endian is_little_endian
convert-bytes_word little b h0 h1 h2 h3 = refl
convert-bytes_word big b h0 h1 h2 h3 = omega (arith, swap_endian_lem (bytes_word big b))
