-- ===== src/Ttyrec/Launch/Search.antt =====
-- The search of `getmaster` through the names "/dev/ptyXX", on systems with none of the other ways.
pub mod First
use ovh_ttyrec.Base.{Bool, List, Option, [], if◌then◌else◌, none, some, ℕ, ◌++◌, ◌+◌, ◌∷◌}

-- The bank and the unit, the last two characters of a name.
abbrev pub PtyName : Type 0
PtyName = ℕ × ℕ

abbrev pub all_banks : List ℕ
all_banks = b'p' ∷ b'q' ∷ b'r' ∷ b's' ∷ []

abbrev pub all_units : List ℕ
all_units =
    b'0' ∷ b'1' ∷ b'2' ∷ b'3' ∷ b'4' ∷ b'5' ∷ b'6' ∷ b'7' ∷ b'8' ∷ b'9' ∷ b'a' ∷ b'b' ∷ b'c' ∷ b'd'
    ∷ b'e' ∷ b'f' ∷ []

-- What the search comes to: a master that is open, or `fail` after so many tries.
pub data Search : Type 0 where
  found : PtyName → Search
  not_found : ℕ → Search

-- What is opened and closed on the way.
pub data PtyCall : Type 0 where
  opened closed : PtyName → PtyCall

module _ (exists : PtyName → Bool) (opens : PtyName → Bool) (usable : PtyName → Bool) where
  -- The inner loop.
  unfoldable pub search_units : ℕ → List ℕ → Option PtyName × List PtyCall
  search_units bank [] = (none, [])
  search_units bank (unit ∷ units) =
      let (rest, calls) = search_units bank units in
      if opens (bank, unit)
      then (if usable (bank, unit)
          then (some (bank, unit), opened (bank, unit) ∷ [])
          else (rest, opened (bank, unit) ∷ closed (bank, unit) ∷ calls))
      else (rest, calls)

  -- The outer loop, whose `stat` is for the unit '0'.
  unfoldable pub search_banks : List ℕ → ℕ → Search × List PtyCall
  unfolding search_units
  search_banks [] tries = (not_found tries, [])
  search_banks (bank ∷ banks) tries =
      let (rest, later) = search_banks banks (tries + 1) in
      let (unit, calls) = search_units bank all_units in
      if exists (bank, b'0')
      then elim unit as (λ _. Search × List PtyCall) [
        | none ↦ (rest, calls ++ later)
        | some name ↦ (found name, calls)
      ]
      else (not_found tries, [])
