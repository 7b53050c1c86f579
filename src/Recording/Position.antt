-- ===== src/Recording/Position.antt =====
-- Where a reader stands after the parts of a record in a plain file.
use ovh_ttyrec.Base.{
  List, ap, append_assoc, arith, drop, drop-append, false, length, length-drop, ltb_ℤ, pos,
  pos_part, refl, some, sym, true, ℕ, ℤ, ◌++◌, ◌+◌, ◌∙◌, ◌≡◌, ◌≤◌,
}
use ovh_ttyrec.Stdio.{File, remaining, fread, fseek}
use ovh_ttyrec.Io.{Endian, encode_header, read_header}
use ovh_ttyrec.Io.RoundTrip.{length-encode_header}
use ovh_ttyrec.Io.Read.{advance, remaining-advance, read_header-encode_header}
use ovh_ttyrec.Recording.{Record, header_of, Fits, record_bytes}

module _ (e : Endian) (r : Record) (fp : File) (rest : List ℕ)
    (here : remaining fp ≡ record_bytes e r ++ rest) where
  -- The record in its two parts.
  split_record : remaining fp ≡ encode_header e (header_of r) ++ (r.payload ++ rest)
  split_record = here ∙ append_assoc (encode_header e (header_of r)) r.payload rest

  pub remaining_payload : remaining (advance 12 fp) ≡ r.payload ++ rest
  remaining_payload =
      remaining-advance 12 fp
      ∙ ap (drop 12) split_record
      ∙ drop-append (encode_header e (header_of r)) (r.payload ++ rest) 12
          (sym (length-encode_header e (header_of r)))

  pub remaining_rest : remaining (advance (length r.payload) (advance 12 fp)) ≡ rest
  remaining_rest =
      remaining-advance (length r.payload) (advance 12 fp)
      ∙ ap (drop (length r.payload)) remaining_payload
      ∙ drop-append r.payload rest (length r.payload) refl

  -- A host of any byte order reads the header of the record.
  pub read_header-record :
      (e' : Endian) → Fits r → read_header e' fread fp ≡ (some (header_of r), advance 12 fp)
  read_header-record e' fits =
      read_header-encode_header e e' r.sec r.usec (pos (length r.payload)) fp (r.payload ++ rest)
        fits.sec_fits fits.usec_fits (omega arith) (omega (arith, fits.len_fits)) split_record

pub fseek-advance : (n : ℕ) (f : File) → f.seekable ≡ true → fseek (pos n) f ≡ advance n f
unfolding fseek
fseek-advance n f s = ground arith

-- A seek adds nothing to what is left.
pub remaining-fseek_le : (n : ℤ) (f : File) → length (remaining (fseek n f)) ≤ length (remaining f)
unfolding fseek
remaining-fseek_le n f =
    ground (arith, length-drop (f.pos + pos_part n) f.content, length-drop f.pos f.content)

pub not_negative : (n : ℕ) → ltb_ℤ (pos n) (pos 0) ≡ false
not_negative n = ground arith
