-- ===== src/Ttytime.antt =====
-- ttytime.c, `calc_time`: the time between the first and the last record of a file.
pub mod Duration
pub mod Main
use mathlib.Core.Option
use ovh_ttyrec.Base.{
  Option, if◌then◌else◌, ltb_ℤ, map, none, pattern_bits, pos, signed32, some, suc, zero, ℕ, ℤ, ◌-ℤ◌,
}
use ovh_ttyrec.Stdio.{File, fread, fseek}
use ovh_ttyrec.Header.{Header}
use ovh_ttyrec.Io.{Endian, read_header}

-- The `while (1)` loop: the last header before the end of the file or a negative length. One round
-- takes twelve bytes at least; `none` means that the rounds ran out.
last_header : Endian → ℕ → Header → File → Option Header
last_header e zero end fp = none
last_header e (suc rounds) end fp =
    let (found, fp') = read_header e fread fp in
    elim found [
      | none ↦ some end
      | some h ↦
          let rest = last_header e rounds h (fseek h.len fp') in
          if ltb_ℤ h.len (pos 0) then some end else rest
    ]

-- `tv_sec` differences are `time_t`, and the function returns an `int`.
abbrev pub seconds_between : Header → Header → ℤ
seconds_between start end = signed32 (pattern_bits 32 (end.tv.tv_sec -ℤ start.tv.tv_sec))

unfoldable pub calc_time : Endian → ℕ → File → Option ℤ
unfolding last_header
calc_time e rounds fp =
    let (found, fp') = read_header e fread fp in
    elim found [
      | none ↦ some (pos 0)
      | some start ↦
          if ltb_ℤ start.len (pos 0)
          then some (pos 0)
          else Option.map (seconds_between start) (last_header e rounds start (fseek start.len fp'))
    ]
