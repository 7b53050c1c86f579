-- ===== src/Ttyplay/Read.antt =====
-- `ttyread` and `ttypread` of ttyplay.c.
pub mod Plain
pub mod Cut
pub mod Follow
pub mod Source
use ovh_ttyrec.Base.{
  Bool, List, Option, [], if◌then◌else◌, leb_ℤ, ltb_ℤ, none, pos, pos_part, some, ℕ, ◌*◌, ◌==◌,
  ◌||◌, ◌∷◌,
}
use ovh_ttyrec.Stdio.{File, Fread, fread, fsetpos, clearerr}
use ovh_ttyrec.Header.{Header}
use ovh_ttyrec.Io.{Endian, read_header}

-- What `fread_wrapper` is set to, over a state `S` that holds the stream.
pub record Input {ℓ} (S : Type ℓ) : Type ℓ where
  pub fread_wrapper : Fread S
  pub stream : S → File
  pub set_stream : File → S → S

-- `fread` itself: the state is the stream.
abbrev pub plain : Input File
plain = record { fread_wrapper = fread; stream = λ f. f; set_stream = λ f s. f }

-- MAX_RECORD_LEN
abbrev pub max_record_len : ℕ
max_record_len = 16 * 1024 * 1024

-- `malloc` is told the size and answers whether it gave the buffer.
module _ {ℓ} {S : Type ℓ} (io : Input S) (malloc : ℕ → Bool) (e : Endian) where
  open io use {fread_wrapper, stream, set_stream}

  -- The label `err`: back to before the header, unless the stream has an error or cannot seek.
  unfoldable pub read_failed : Bool → ℕ → S → S
  read_failed can_seek at s =
      if (stream s).error then s else if can_seek then set_stream (fsetpos at (stream s)) s else s

  -- A header and the buffer of its length; `none` is the 0 that is returned on an error.
  unfoldable pub ttyread : S → Option (Header × List ℕ) × S
  unfolding read_failed
  ttyread s =
      let at = (stream s).pos in
      let can_seek = (stream s).seekable in
      let (found, s1) = read_header e fread_wrapper (set_stream (clearerr (stream s)) s) in
      elim found [
        | none ↦ (none, read_failed can_seek at s1)
        | some h ↦
            if leb_ℤ h.len (pos 0) || ltb_ℤ (pos max_record_len) h.len
            then (none, s1)
            else if malloc (pos_part h.len)
            then (let (buf, count, s2) = fread_wrapper 1 (pos_part h.len) s1 in
                if count == pos_part h.len
                then (some (h, buf), s2)
                else (none, read_failed can_seek at s2))
            else (none, s1)
      ]

  -- The loop of `ttypread`. Each entry of the list is what becomes of the stream while the program
  -- sleeps once, and those that are left are returned; `none` means that the list ended first.
  unfoldable pub ttypread : List (S → S) → S → Option (Header × List ℕ) × List (S → S) × S
  ttypread [] s = let (result, s1) = ttyread s in (result, [], s1)
  ttypread (sleep ∷ later) s =
      let (result, s1) = ttyread s in
      let s2 = sleep s1 in
      let retry = ttypread later (set_stream (clearerr (stream s2)) s2) in
      elim result [ none ↦ retry | some found ↦ (some found, sleep ∷ later, s1) ]
