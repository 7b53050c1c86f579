-- ===== src/Recording.antt =====
-- The file format as a specification: a recording is a sequence of records, each a time and the
-- bytes that were output then.
pub mod Position
use ovh_ttyrec.Base.{List, [], length, pos, ℕ, ◌++◌, ◌<◌, ◌^◌, ◌∷◌}
use ovh_ttyrec.Header.{Timeval, Header}
use ovh_ttyrec.Io.{Endian, encode_header}
use ovh_ttyrec.Io.Layout.{stamp}

pub record Record : Type 0 where
  pub sec : ℕ
  pub usec : ℕ
  pub payload : List ℕ

abbrev pub header_of : Record → Header
header_of r = stamp r.sec r.usec (pos (length r.payload))

abbrev pub time_of : Record → Timeval
time_of r = record { tv_sec = pos r.sec; tv_usec = pos r.usec }

-- The numbers of the header fit the format.
pub record Fits (r : Record) : Type 0 where
  pub sec_fits : r.sec < 2 ^ 44
  pub usec_fits : r.usec < 2 ^ 20
  pub len_fits : length r.payload < 2 ^ 31

abbrev pub AllFit : List Record → Type 0
AllFit [] = Unit
AllFit (r ∷ rs) = Fits r × AllFit rs

-- The bytes of a record, and of a recording, as a host of byte order `e` writes them.
abbrev pub record_bytes : Endian → Record → List ℕ
record_bytes e r = encode_header e (header_of r) ++ r.payload

abbrev pub file_bytes : Endian → List Record → List ℕ
file_bytes e [] = []
file_bytes e (r ∷ rs) = record_bytes e r ++ file_bytes e rs

-- What was output, without the times.
abbrev pub payloads : List Record → List ℕ
payloads [] = []
payloads (r ∷ rs) = r.payload ++ payloads rs
