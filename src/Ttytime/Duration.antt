-- ===== src/Ttytime/Duration.antt =====
-- `calc_time` of ttytime.c on any file, and on a recording.
use native.Mathlib.Decide.{dec_le}
use mathlib.Core.Option
use ovh_ttyrec.Base.{
  Bool-cases, List, [], ap, append_assoc, arith, if◌then◌else◌, inl, inr, length, length-append,
  length-drop, ltb_ℤ, none, pattern_bits, pos, signed32, some, suc, take, true, zero, ℕ, ℤ, ◌++◌,
  ◌-ℤ◌, ◌<◌, ◌∙◌, ◌∷◌, ◌≡◌, ◌≤◌,
}
use ovh_ttyrec.Stdio.{File, remaining, fread, fseek}
use ovh_ttyrec.Header.{Header}
use ovh_ttyrec.Io.{Endian, read_header, decode_header, encode_header}
use ovh_ttyrec.Io.RoundTrip.{length-encode_header}
use ovh_ttyrec.Io.Read.{advance, remaining-advance, read_header_short, read_header_full}
use ovh_ttyrec.Recording.{Record, header_of, Fits, AllFit, record_bytes, file_bytes}
use ovh_ttyrec.Recording.Position.{
  read_header-record, remaining_rest, fseek-advance, remaining-fseek_le, not_negative,
}
use ovh_ttyrec.Ttytime.{last_header, seconds_between, calc_time}

-- The record that ends a recording which begins with `r`.
abbrev pub last_of : Record → List Record → Record
last_of r [] = r
last_of r (s ∷ rs) = last_of s rs

-- One round of the loop, by what `read_header` returns.
last_header_end :
    (e : Endian) (rounds : ℕ) (end : Header) (fp : File) {fp' : File}
    → read_header e fread fp ≡ (none, fp')
    → last_header e (suc rounds) end fp ≡ some end
unfolding last_header
last_header_end e rounds end fp r = rw (r, last_header)

last_header_next :
    (e : Endian) (rounds : ℕ) (end : Header) (fp : File) {h : Header} {fp' : File}
    → read_header e fread fp ≡ (some h, fp')
    → last_header e (suc rounds) end fp
      ≡ (if ltb_ℤ h.len (pos 0) then some end else last_header e rounds h (fseek h.len fp'))
unfolding last_header
last_header_next e rounds end fp r = rw (r, last_header) (rw r)

-- A round that goes on leaves fewer bytes.
next_is_shorter :
    (n : ℤ) (fp : File)
    → 12 ≤ length (remaining fp)
    → length (remaining (fseek n (advance 12 fp))) < length (remaining fp)
next_is_shorter n fp h = omega (
  arith,
  remaining-fseek_le n (advance 12 fp),
  ap length (remaining-advance 12 fp),
  length-drop 12 (remaining fp),
)

last_header_total :
    (e : Endian) (rounds : ℕ) (end : Header) (fp : File)
    → length (remaining fp) < rounds
    → (h : Header) × (last_header e rounds end fp ≡ some h)
last_header_total e zero end fp p = absurd (omega arith)
last_header_total e (suc rounds) end fp p = elim (dec_le 12 (length (remaining fp))) [
  | no short ↦ (end, last_header_end e rounds end fp (read_header_short e fp (omega arith)))
  | yes long ↦
      let h : Header = decode_header e (take 12 (remaining fp)) in
      let next : File = fseek h.len (advance 12 fp) in
      let ih = last_header_total e rounds h next (omega (arith, next_is_shorter h.len fp long)) in
      let round = last_header_next e rounds end fp (read_header_full e fp long) in
      elim (Bool-cases (ltb_ℤ h.len (pos 0))) [
        | inl neg ↦ (end, round ∙ rw neg)
        | inr nonneg ↦ (ih.0, round ∙ rw nonneg ih.1)
      ]
]

-- The same of `calc_time`.
calc_time_empty :
    (e : Endian) (rounds : ℕ) (fp : File) {fp' : File}
    → read_header e fread fp ≡ (none, fp')
    → calc_time e rounds fp ≡ some (pos 0)
unfolding calc_time
calc_time_empty e rounds fp r = rw (r, calc_time)

calc_time_first :
    (e : Endian) (rounds : ℕ) (fp : File) {h : Header} {fp' : File}
    → read_header e fread fp ≡ (some h, fp')
    → calc_time e rounds fp ≡ (
        if ltb_ℤ h.len (pos 0)
        then some (pos 0)
        else Option.map (seconds_between h) (last_header e rounds h (fseek h.len fp')))
unfolding calc_time
calc_time_first e rounds fp r = rw (r, calc_time) (rw r)

-- On every file, whatever it holds and whether it can seek or not, `calc_time` returns; a round of
-- its loop for each byte is enough.
pub calc_time_total :
    (e : Endian) (rounds : ℕ) (fp : File)
    → length (remaining fp) < rounds
    → (t : ℤ) × (calc_time e rounds fp ≡ some t)
calc_time_total e rounds fp p = elim (dec_le 12 (length (remaining fp))) [
  | no short ↦ (pos 0, calc_time_empty e rounds fp (read_header_short e fp (omega arith)))
  | yes long ↦
      let h : Header = decode_header e (take 12 (remaining fp)) in
      let next : File = fseek h.len (advance 12 fp) in
      let all = last_header_total e rounds h next (omega (arith, next_is_shorter h.len fp long)) in
      let round = calc_time_first e rounds fp (read_header_full e fp long) in
      elim (Bool-cases (ltb_ℤ h.len (pos 0))) [
        | inl neg ↦ (pos 0, round ∙ rw neg)
        | inr nonneg ↦
            (seconds_between h all.0, round ∙ rw nonneg (ap (Option.map (seconds_between h)) all.1))
      ]
]

-- Behind the header of a whole record, the loop seeks to the next record.
module _ (e e' : Endian) (q : Record) (fp : File) (rest : List ℕ) (fits : Fits q)
    (seekable : fp.seekable ≡ true) (here : remaining fp ≡ record_bytes e q ++ rest) where
  abbrev behind : File
  behind = advance (length q.payload) (advance 12 fp)

  skip_record : fseek (pos (length q.payload)) (advance 12 fp) ≡ behind
  skip_record = fseek-advance (length q.payload) (advance 12 fp) seekable

  last_header_record :
      (rounds : ℕ) (end : Header)
      → last_header e' (suc rounds) end fp ≡ last_header e' rounds (header_of q) behind
  last_header_record rounds end =
      last_header_next e' rounds end fp (read_header-record e q fp rest here e' fits)
      ∙ rw (not_negative (length q.payload), skip_record)

  calc_time_record :
      (rounds : ℕ)
      → calc_time e' rounds fp
        ≡ Option.map (seconds_between (header_of q)) (last_header e' rounds (header_of q) behind)
  calc_time_record rounds =
      calc_time_first e' rounds fp (read_header-record e q fp rest here e' fits)
      ∙ rw (not_negative (length q.payload), skip_record)

  behind_is_shorter : length (remaining behind) < length (remaining fp)
  behind_is_shorter = omega (
    arith,
    ap length (remaining_rest e q fp rest here),
    ap length here,
    length-append (record_bytes e q) rest,
    length-append (encode_header e (header_of q)) q.payload,
    length-encode_header e (header_of q),
  )

last_header-file_bytes :
    (e e' : Endian) (rounds : ℕ) (r : Record) (rs : List Record) (tail : List ℕ) (fp : File)
    → AllFit rs
    → fp.seekable ≡ true
    → length tail < 12
    → remaining fp ≡ file_bytes e rs ++ tail
    → length (remaining fp) < rounds
    → last_header e' rounds (header_of r) fp ≡ some (header_of (last_of r rs))
last_header-file_bytes e e' zero r rs tail fp a s t h p = absurd (omega arith)
last_header-file_bytes e e' (suc rounds) r [] tail fp a s t h p =
    last_header_end e' rounds (header_of r) fp
      (read_header_short e' fp (omega (arith, ap length h)))
last_header-file_bytes e e' (suc rounds) r (q ∷ rs) tail fp a s t h p =
    let rest = file_bytes e rs ++ tail in
    let here : remaining fp ≡ record_bytes e q ++ rest =
      h ∙ append_assoc (record_bytes e q) (file_bytes e rs) tail in
    last_header_record e e' q fp rest a.0 s here rounds (header_of r)
    ∙ last_header-file_bytes e e' rounds q rs tail (behind e e' q fp rest a.0 s here) a.1 s t
        (remaining_rest e q fp rest here)
        (omega (arith, behind_is_shorter e e' q fp rest a.0 s here))

-- Of a recording with at least one record, also if its last bytes are a header that was cut short,
-- the result is the time from its first record to its last one, as an `int`.
pub calc_time-file_bytes :
    (e e' : Endian) (rounds : ℕ) (r : Record) (rs : List Record) (tail : List ℕ) (fp : File)
    → AllFit (r ∷ rs)
    → fp.seekable ≡ true
    → length tail < 12
    → remaining fp ≡ file_bytes e (r ∷ rs) ++ tail
    → length (remaining fp) < rounds
    → calc_time e' rounds fp
      ≡ some (signed32 (pattern_bits 32 (pos (last_of r rs).sec -ℤ pos r.sec)))
calc_time-file_bytes e e' rounds r rs tail fp a s t h p =
    let rest = file_bytes e rs ++ tail in
    let here : remaining fp ≡ record_bytes e r ++ rest =
      h ∙ append_assoc (record_bytes e r) (file_bytes e rs) tail in
    calc_time_record e e' r fp rest a.0 s here rounds
    ∙ ap (Option.map (seconds_between (header_of r))) (
        last_header-file_bytes e e' rounds r rs tail (behind e e' r fp rest a.0 s here) a.1 s t
          (remaining_rest e r fp rest here)
          (omega (arith, behind_is_shorter e e' r fp rest a.0 s here)))
