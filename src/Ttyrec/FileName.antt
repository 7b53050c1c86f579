-- ===== src/Ttyrec/FileName.antt =====
-- `set_ttyrec_file_name`: the name of a recording.
pub mod Laws
pub mod Script
pub mod Recognised
use ovh_ttyrec.Base.{
  Bool, Option, [], if◌then◌else◌, none, not, some, take, ℕ, ◌%◌, ◌++◌, ◌+◌, ◌-◌, ◌/◌, ◌∷◌,
}
use ovh_ttyrec.Ttyrec.CommandLine.{Text, starts_with}
use ovh_ttyrec.Ttyrec.Output.{bufsiz}

-- "#usec#" and ".zst".
abbrev pub marker : Text
marker = 35 ∷ 117 ∷ 115 ∷ 101 ∷ 99 ∷ 35 ∷ []

abbrev pub text_zst : Text
text_zst = 46 ∷ 122 ∷ 115 ∷ 116 ∷ []

-- "%06lu" of a number of microseconds, which is below a million.
unfoldable pub six_digits : ℕ → Text
six_digits u =
    (u / 100000 % 10 + 48)
    ∷ (u / 10000 % 10 + 48)
    ∷ (u / 1000 % 10 + 48)
    ∷ (u / 100 % 10 + 48)
    ∷ (u / 10 % 10 + 48)
    ∷ (u % 10 + 48)
    ∷ []

-- The loop of `strstr` and `memcpy`, which goes on behind what it has replaced: `pending` is the part of
-- the digits that is still to be copied over the text.
unfoldable pub replace_usec : Text → Text → Text → Text
replace_usec usec pending [] = []
replace_usec usec (d ∷ pending) (c ∷ cs) = d ∷ replace_usec usec pending cs
replace_usec usec [] (c ∷ cs) =
    if starts_with marker (c ∷ cs)
    then elim usec [
      | [] ↦ c ∷ replace_usec usec [] cs
      | d ∷ digits ↦ d ∷ replace_usec usec digits cs
    ]
    else c ∷ replace_usec usec [] cs

-- `formatted` is what `snprintf` would print without a limit, and `strftime` gives `none` for its 0.
unfoldable pub set_ttyrec_file_name : Bool → Text → Option Text → ℕ → Bool → Option Text
set_ttyrec_file_name has_namefmt formatted strftime tv_usec opt_zstd =
    let ending = (if opt_zstd then text_zst else []) in
    if not has_namefmt then some (take (bufsiz - 5) formatted ++ ending) else elim strftime [
      | none ↦ none
      | some name ↦ some (replace_usec (six_digits tv_usec) [] (take (bufsiz - 5) name) ++ ending)
    ]
