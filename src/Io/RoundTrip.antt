-- ===== src/Io/RoundTrip.antt =====
-- The round trips between headers and their twelve bytes, also between hosts.
use ovh_ttyrec.Base.{
  List, [], arith, drop, length, length-append, negsuc, pattern_bits, pos, signed32, take, ℕ, ℤ,
  ◌%◌, ◌*◌, ◌++◌, ◌+◌, ◌-◌, ◌/◌, ◌<ℤ◌, ◌<◌, ◌^◌, ◌∙◌, ◌∷◌, ◌≡◌, ◌≤ℤ◌,
}
use ovh_ttyrec.Header.{Header}
use ovh_ttyrec.Io.{Endian, little, word_bytes, bytes_word, decode_header, encode_header}
use ovh_ttyrec.Io.Layout.{
  AreBytes-take, AreBytes-drop, stamp, AreBytes, AreBytes-append, word_bytes-AreBytes,
  pattern_bits-lt, bytes_word-lt, encode_header_layout, decode_header_layout, length-word_bytes,
}

-- The number that four bytes were stored for, and the bytes of the number that they are.
bytes_word-word_bytes : (w : ℕ) → w < 2 ^ 32 → bytes_word little (word_bytes little w) ≡ w
unfolding bytes_word word_bytes
bytes_word-word_bytes w h = omega arith

word_bytes-bytes_word :
    (a b c d : ℕ)
    → AreBytes (a ∷ b ∷ c ∷ d ∷ [])
    → word_bytes little (bytes_word little (a ∷ b ∷ c ∷ d ∷ [])) ≡ a ∷ b ∷ c ∷ d ∷ []
unfolding bytes_word word_bytes
word_bytes-bytes_word a b c d h = ground arith

signed32-pattern_bits :
    (n : ℤ) → negsuc (2 ^ 31 - 1) ≤ℤ n → n <ℤ pos (2 ^ 31) → signed32 (pattern_bits 32 n) ≡ n
signed32-pattern_bits (pos n) lo hi = ground arith
signed32-pattern_bits (negsuc n) lo hi = ground arith

pattern_bits-signed32 : (w : ℕ) → w < 2 ^ 32 → pattern_bits 32 (signed32 w) ≡ w
pattern_bits-signed32 w h = ground arith

-- Three words in a row.
abbrev words : ℕ → ℕ → ℕ → List ℕ
words a b c = word_bytes little a ++ word_bytes little b ++ word_bytes little c

words-AreBytes : (a b c : ℕ) → AreBytes (words a b c)
words-AreBytes a b c =
    AreBytes-append (word_bytes little a ++ word_bytes little b) (word_bytes little c)
      (AreBytes-append (word_bytes little a) (word_bytes little b) (word_bytes-AreBytes little a)
        (word_bytes-AreBytes little b))
      (word_bytes-AreBytes little c)

pub encode_header-AreBytes :
    (e : Endian) (sec usec : ℕ) (len : ℤ)
    → usec < 2 ^ 20
    → AreBytes (encode_header e (stamp sec usec len))
encode_header-AreBytes e sec usec len h =
    rw (encode_header_layout e sec usec len h) (words-AreBytes _ _ _)

pub length-encode_header : (e : Endian) (h : Header) → length (encode_header e h) ≡ 12
unfolding encode_header
length-encode_header e h = simp (length-append, length-word_bytes)

decode_words :
    (e : Endian) (a b c : ℕ)
    → a < 2 ^ 32
    → b < 2 ^ 32
    → c < 2 ^ 32
    → decode_header e (words a b c) ≡ stamp (a + b / 2 ^ 20 * 2 ^ 32) (b % 2 ^ 20) (signed32 c)
decode_words e a b c ha hb hc =
    decode_header_layout e (words a b c) (words-AreBytes a b c)
    ∙ unfold word_bytes in
      rw (bytes_word-word_bytes a ha, bytes_word-word_bytes b hb, bytes_word-word_bytes c hc)

-- Of a date below 2 ^ 44 seconds, a microsecond count below 2 ^ 20 and a length that fits an `int`,
-- every host reads back what any host wrote.
pub decode-encode_header :
    (e e' : Endian) (sec usec : ℕ) (len : ℤ)
    → sec < 2 ^ 44
    → usec < 2 ^ 20
    → negsuc (2 ^ 31 - 1) ≤ℤ len
    → len <ℤ pos (2 ^ 31)
    → decode_header e' (encode_header e (stamp sec usec len)) ≡ stamp sec usec len
decode-encode_header e e' sec usec len hs hu lo hi =
    let shared : ℕ = usec + sec / 2 ^ 32 % 2 ^ 12 * 2 ^ 20 in
    let same_sec : sec % 2 ^ 32 + shared / 2 ^ 20 * 2 ^ 32 ≡ sec = omega arith in
    let same_usec : shared % 2 ^ 20 ≡ usec = omega arith in
    rw (encode_header_layout e sec usec len hu) (
      decode_words e' (sec % 2 ^ 32) shared (pattern_bits 32 len) (omega arith) (omega arith)
        (pattern_bits-lt len)
      ∙ rw (same_sec, same_usec, signed32-pattern_bits len lo hi))

encode_words :
    (e e' : Endian) (a b c : ℕ)
    → a < 2 ^ 32
    → b < 2 ^ 32
    → c < 2 ^ 32
    → encode_header e' (decode_header e (words a b c)) ≡ words a b c
encode_words e e' a b c ha hb hc =
    let sec : ℕ = a + b / 2 ^ 20 * 2 ^ 32 in
    let same_low : sec % 2 ^ 32 ≡ a = omega arith in
    let same_shared : b % 2 ^ 20 + sec / 2 ^ 32 % 2 ^ 12 * 2 ^ 20 ≡ b = omega arith in
    rw (decode_words e a b c ha hb hc) (
      encode_header_layout e' sec (b % 2 ^ 20) (signed32 c) (omega arith)
      ∙ rw (same_low, same_shared, pattern_bits-signed32 c hc))

-- Twelve bytes are the words that they are read as.
words-bytes_word :
    (bytes : List ℕ)
    → length bytes ≡ 12
    → AreBytes bytes
    → words
        (bytes_word little (take 4 bytes))
        (bytes_word little (take 4 (drop 4 bytes)))
        (bytes_word little (take 4 (drop 8 bytes)))
      ≡ bytes
words-bytes_word (b0 ∷ b1 ∷ b2 ∷ b3 ∷ b4 ∷ b5 ∷ b6 ∷ b7 ∷ b8 ∷ b9 ∷ b10 ∷ b11 ∷ []) n h = rw (
  word_bytes-bytes_word b0 b1 b2 b3 (omega arith),
  word_bytes-bytes_word b4 b5 b6 b7 (omega arith),
  word_bytes-bytes_word b8 b9 b10 b11 (omega arith),
)
words-bytes_word bytes n h = absurd (omega arith)

-- Twelve bytes of a file are read into a header that every host writes as the same twelve bytes.
pub encode-decode_header :
    (e e' : Endian) (bytes : List ℕ)
    → length bytes ≡ 12
    → AreBytes bytes
    → encode_header e' (decode_header e bytes) ≡ bytes
encode-decode_header e e' bytes n h =
    let h0 = AreBytes-take 4 bytes h in
    let h1 = AreBytes-take 4 (drop 4 bytes) (AreBytes-drop 4 bytes h) in
    let h2 = AreBytes-take 4 (drop 8 bytes) (AreBytes-drop 8 bytes h) in
    rw (← words-bytes_word bytes n h)
      (encode_words e e' _ _ _ (bytes_word-lt _ h0) (bytes_word-lt _ h1) (bytes_word-lt _ h2))
