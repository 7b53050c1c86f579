-- ===== src/Stdio.antt =====
-- The C stream functions that the programs call, over files that are lists of bytes.
use ovh_ttyrec.Base.{
  Bool, List, drop, false, if◌then◌else◌, length, ltb, min, pos_part, take, ℕ, ℤ, ◌&&◌, ◌*◌, ◌++◌,
  ◌+◌, ◌-◌, ◌/◌, ◌||◌,
}

-- A stream that is read: what the device holds, the read position, whether the device can seek,
-- whether its end is an input error and no end of file, and the stream's error flag.
pub record File : Type 0 where
  pub content : List ℕ
  pub pos : ℕ
  pub seekable : Bool
  pub broken : Bool
  pub error : Bool

-- The bytes that stand between the position and the end.
abbrev pub remaining : File → List ℕ
remaining f = drop f.pos f.content

-- What `fread` stores, the number of whole items that it returns, and the stream afterwards.
abbrev pub Fread {ℓ} : Type ℓ → Type ℓ
Fread S = ℕ → ℕ → S → List ℕ × ℕ × S

-- The same for `fwrite`, which is given the bytes.
abbrev pub Fwrite {ℓ} : Type ℓ → Type ℓ
Fwrite S = List ℕ → ℕ → ℕ → S → ℕ × S

unfoldable pub fread : Fread File
fread size nmemb f =
    let want = size * nmemb in
    let got = take want (remaining f) in
    let n = length got in
    (got, n / size, record f { pos = f.pos + n; error = f.error || (f.broken && ltb n want) })

-- `fsetpos` to a position that `fgetpos` gave. It leaves the error flag alone.
unfoldable pub fsetpos : ℕ → File → File
fsetpos pos f = record f { pos = pos }

-- `fseek` with SEEK_CUR, where the caller gives no negative offset; a seek past the end is allowed.
-- On a device that cannot seek nothing moves.
unfoldable pub fseek : ℤ → File → File
fseek offset f = if f.seekable then record f { pos = f.pos + pos_part offset } else f

unfoldable pub clearerr : File → File
clearerr f = record f { error = false }

-- A stream that is written: what the file holds, and how many more bytes the device takes.
pub record Sink : Type 0 where
  pub written : List ℕ
  pub room : ℕ

unfoldable pub fwrite : Fwrite Sink
fwrite bytes size nmemb s =
    let n = min s.room (size * nmemb) in
    (n / size, record { written = s.written ++ take n bytes; room = s.room - n })
