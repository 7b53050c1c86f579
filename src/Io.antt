-- ===== src/Io.antt =====
-- io.c: a record's header in memory and in the file, for a host of either byte order.
pub mod Swap
pub mod Layout
pub mod RoundTrip
pub mod Read
pub mod Open
use ovh_ttyrec.Base.{
  Bool, List, Option, [], bit_and, bit_or, drop, false, get_or, if◌then◌else◌, none, pattern_bits,
  pos, signed32, signed64, some, take, true, ℕ, ◌%◌, ◌&&◌, ◌*◌, ◌++◌, ◌+◌, ◌/◌, ◌==◌, ◌^◌, ◌∷◌,
}
use ovh_ttyrec.Stdio.{Fread, Fwrite}
use ovh_ttyrec.Header.{Timeval, Header}

-- The byte order of the machine that runs the program.
pub data Endian : Type 0 where
  little big : Endian

-- The four bytes of a `uint32_t` in memory, and the number that four bytes in memory are.
unfoldable pub word_bytes : Endian → ℕ → List ℕ
word_bytes little w = w % 256 ∷ w / 2 ^ 8 % 256 ∷ w / 2 ^ 16 % 256 ∷ w / 2 ^ 24 % 256 ∷ []
word_bytes big w = w / 2 ^ 24 % 256 ∷ w / 2 ^ 16 % 256 ∷ w / 2 ^ 8 % 256 ∷ w % 256 ∷ []

unfoldable pub bytes_word : Endian → List ℕ → ℕ
bytes_word little b =
    get_or b 0 0 + get_or b 1 0 * 2 ^ 8 + get_or b 2 0 * 2 ^ 16 + get_or b 3 0 * 2 ^ 24
bytes_word big b =
    get_or b 3 0 + get_or b 2 0 * 2 ^ 8 + get_or b 1 0 * 2 ^ 16 + get_or b 0 0 * 2 ^ 24

-- The `memcmp` of the four bytes of `int n = 1` with 1, 0, 0, 0.
unfoldable pub is_little_endian : Endian → Bool
unfolding word_bytes
is_little_endian e =
    let p = word_bytes e 1 in
    get_or p 0 0 == 1 && get_or p 1 0 == 0 && get_or p 2 0 == 0 && get_or p 3 0 == 0

-- `<<` on an `unsigned int`.
abbrev pub shl32 : ℕ → ℕ → ℕ
shl32 x k = x * 2 ^ k % 2 ^ 32

unfoldable pub swap_endian : ℕ → ℕ
swap_endian val =
    bit_or
      (bit_or (bit_or (shl32 (bit_and val 0x000000ff) 24) (shl32 (bit_and val 0x0000ff00) 8))
        (bit_and val 0x00ff0000 / 2 ^ 8))
      (bit_and val 0xff000000 / 2 ^ 24)

unfoldable pub convert_to_little_endian : Endian → ℕ → ℕ
convert_to_little_endian e x = if is_little_endian e then x else swap_endian x

-- The fields of the header, from the twelve bytes of `buf`.
unfoldable pub decode_header : Endian → List ℕ → Header
decode_header e bytes =
    let raw_usec = convert_to_little_endian e (bytes_word e (take 4 (drop 4 bytes))) in
    record {
      tv = record {
        tv_sec = signed64 (
            bit_or (convert_to_little_endian e (bytes_word e (take 4 bytes)))
              (bit_and raw_usec 0xfff00000 * 2 ^ 12 % 2 ^ 64));
        tv_usec = pos (bit_and raw_usec 0x000fffff);
      };
      len = signed32 (convert_to_little_endian e (bytes_word e (take 4 (drop 8 bytes))));
    }

-- The twelve bytes of `buf`, from the fields of the header.
unfoldable pub encode_header : Endian → Header → List ℕ
encode_header e h =
    let sec = pattern_bits 64 h.tv.tv_sec in
    let usec = pattern_bits 64 h.tv.tv_usec in
    word_bytes e (convert_to_little_endian e (bit_and sec 0xffffffff % 2 ^ 32))
    ++ word_bytes e (
        convert_to_little_endian e (bit_or usec (bit_and sec 0x00000fff00000000 / 2 ^ 12) % 2 ^ 32))
    ++ word_bytes e (convert_to_little_endian e (pattern_bits 32 h.len))

-- `none` is the 0 that is returned for a short read.
unfoldable pub read_header {ℓ} : {S : Type ℓ} → Endian → Fread S → S → Option Header × S
read_header e fread_wrapper s =
    let (bytes, count, s') = fread_wrapper 4 3 s in
    (if count == 3 then some (decode_header e bytes) else none, s')

-- `false` is the 0 that is returned when `fwrite_wrapper` returns 0.
unfoldable pub write_header {ℓ} : {S : Type ℓ} → Endian → Fwrite S → Header → S → Bool × S
write_header e fwrite_wrapper h s =
    let (n, s') = fwrite_wrapper (encode_header e h) 4 3 s in (if n == 0 then false else true, s')
