-- ===== src/Ttyrec/Launch/Search/First.antt =====
-- The search finds the first name that will do, and keeps no other open.
use ovh_ttyrec.Base.{
  Bool, List, Option, [], if◌then◌else◌, map, none, some, suc, ℕ, ◌&&◌, ◌++◌, ◌∷◌,
}
use ovh_ttyrec.Ttyrec.Launch.Search.{
  PtyName, all_units, Search, found, not_found, PtyCall, opened, closed,
}

abbrev pub first_of {ℓ} : {A : Type ℓ} → (A → Bool) → List A → Option A
first_of p [] = none
first_of p (x ∷ xs) = if p x then some x else first_of p xs

abbrev pub or_else {ℓ} : {A : Type ℓ} → Option A → Option A → Option A
or_else none o = o
or_else (some a) o = some a

-- The names of a bank, and those of all banks.
abbrev pub names_in : ℕ → List ℕ → List PtyName
names_in bank units = map (λ unit. (bank, unit)) units

abbrev pub names_of : List ℕ → List PtyName
names_of [] = []
names_of (bank ∷ banks) = names_in bank all_units ++ names_of banks

-- The banks up to the first one that is not there.
abbrev pub take_while {ℓ} : {A : Type ℓ} → (A → Bool) → List A → List A
take_while p [] = []
take_while p (x ∷ xs) = if p x then x ∷ take_while p xs else []

abbrev pub outcome_of : ℕ → Option PtyName → Search
outcome_of tries none = not_found tries
outcome_of tries (some name) = found name

-- How many masters are opened, and how many closed again.
abbrev pub opened_in : List PtyCall → ℕ
opened_in [] = 0
opened_in (opened name ∷ calls) = suc (opened_in calls)
opened_in (closed name ∷ calls) = opened_in calls

abbrev pub closed_in : List PtyCall → ℕ
closed_in [] = 0
closed_in (opened name ∷ calls) = closed_in calls
closed_in (closed name ∷ calls) = suc (closed_in calls)

abbrev pub kept {ℓ} : {A : Type ℓ} → Option A → ℕ
kept none = 0
kept (some a) = 1

module _ (exists opens usable : PtyName → Bool) where
  abbrev pub will_do : PtyName → Bool
  will_do name = opens name && usable name

  abbrev pub bank_exists : ℕ → Bool
  bank_exists bank = exists (bank, b'0')
