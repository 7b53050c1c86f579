-- ===== src/Ttytime/Main.antt =====
-- `main` of ttytime.c: a line for each file that it is given.
use ovh_ttyrec.Base.{
  Bool, List, Option, [], false, if◌then◌else◌, length, none, some, true, ℕ, ℤ, ◌+◌, ◌∷◌, ◌≡◌,
}
use ovh_ttyrec.Stdio.{File, remaining}
use ovh_ttyrec.Io.{Endian}
use ovh_ttyrec.Io.Open.{returns, exits, efopen}
use ovh_ttyrec.Ttytime.{calc_time}

-- `calc_time` with a round for each byte of the file, and one more.
abbrev pub time_of : Endian → File → Option ℤ
time_of e fp = calc_time e (length (remaining fp) + 1) fp

-- The lines that are printed, and the exit code; `none` where a loop does not end.
unfoldable pub ttytime_main :
    (List ℕ → Option File) → Endian → List (List ℕ) → Option (List (ℤ × List ℕ) × ℕ)
ttytime_main fopen e [] = some ([], 0)
ttytime_main fopen e (filename ∷ more) = elim (efopen fopen filename) [
  | exits code ↦ some ([], code)
  | returns fp ↦ elim (time_of e fp) [
    | none ↦ none
    | some seconds ↦ elim (ttytime_main fopen e more) [
      | none ↦ none
      | some (lines, code) ↦ some ((seconds, filename) ∷ lines, code)
    ]
  ]
]

abbrev pub can_open : (List ℕ → Option File) → List ℕ → Bool
can_open fopen filename = elim (fopen filename) [ none ↦ false | some fp ↦ true ]

-- The files before the first that cannot be opened, and whether there is one.
abbrev pub readable : (List ℕ → Option File) → List (List ℕ) → List (List ℕ)
readable fopen [] = []
readable fopen (f ∷ fs) = if can_open fopen f then f ∷ readable fopen fs else []

abbrev pub all_readable : (List ℕ → Option File) → List (List ℕ) → Bool
all_readable fopen [] = true
all_readable fopen (f ∷ fs) = if can_open fopen f then all_readable fopen fs else false

-- Each line has the name of a file and what `calc_time` gives for it.
abbrev pub AreTimes : (List ℕ → Option File) → Endian → List (ℤ × List ℕ) → Type 0
AreTimes fopen e [] = Unit
AreTimes fopen e ((seconds, filename) ∷ lines) =
    ((fp : File) × (fopen filename ≡ some fp) × (time_of e fp ≡ some seconds))
    × AreTimes fopen e lines
