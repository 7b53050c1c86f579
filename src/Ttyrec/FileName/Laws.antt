-- ===== src/Ttyrec/FileName/Laws.antt =====
-- The length of a name of `set_ttyrec_file_name`, and its place holders.
use ovh_ttyrec.Base.{
  Bool, Bool-cases, [], ap, arith, false, if◌then◌else◌, inl, inr, length, length-append,
  length-take, refl, some, sym, take, true, ℕ, ◌++◌, ◌-◌, ◌<◌, ◌||◌, ◌∙◌, ◌∷◌, ◌≡◌, ◌≤◌, ◌⊎◌,
}
use ovh_ttyrec.Ttyrec.CommandLine.{Text, starts_with}
use ovh_ttyrec.Ttyrec.Output.{bufsiz}
use ovh_ttyrec.Ttyrec.FileName.{marker, text_zst, six_digits, replace_usec, set_ttyrec_file_name}

-- Whether `strstr` finds the place holder.
abbrev pub has_marker : Text → Bool
has_marker [] = false
has_marker (c ∷ cs) = starts_with marker (c ∷ cs) || has_marker cs

abbrev pub AllDigits : Text → Type 0
AllDigits [] = Unit
AllDigits (d ∷ ds) = (48 ≤ d) × (d ≤ 57) × AllDigits ds

abbrev NoDigits : Text → Type 0
NoDigits [] = Unit
NoDigits (c ∷ cs) = ((c < 48) ⊎ (57 < c)) × NoDigits cs

six_digits-AllDigits : (u : ℕ) → AllDigits (six_digits u)
unfolding six_digits
six_digits-AllDigits u = ground arith

-- The replacement is in place.
length-replace_usec : (usec pending t : Text) → length (replace_usec usec pending t) ≡ length t
unfolding replace_usec
length-replace_usec usec pending [] = refl
length-replace_usec usec (d ∷ pending) (c ∷ cs) = omega (arith, length-replace_usec usec pending cs)
length-replace_usec [] [] (c ∷ cs) = elim (Bool-cases (starts_with marker (c ∷ cs))) [
  | inl e ↦ rw (e, replace_usec) (omega (arith, length-replace_usec [] [] cs))
  | inr e ↦ rw (e, replace_usec) (omega (arith, length-replace_usec [] [] cs))
]
length-replace_usec (u ∷ us) [] (c ∷ cs) = elim (Bool-cases (starts_with marker (c ∷ cs))) [
  | inl e ↦ rw (e, replace_usec) (omega (arith, length-replace_usec (u ∷ us) us cs))
  | inr e ↦ rw (e, replace_usec) (omega (arith, length-replace_usec (u ∷ us) [] cs))
]

replace_hit :
    (u : ℕ) (us : Text) (c : ℕ) (cs : Text)
    → starts_with marker (c ∷ cs) ≡ true
    → replace_usec (u ∷ us) [] (c ∷ cs) ≡ u ∷ replace_usec (u ∷ us) us cs
unfolding replace_usec
replace_hit u us c cs e = rw (e, replace_usec) refl

replace_miss :
    (u : ℕ) (us : Text) (c : ℕ) (cs : Text)
    → starts_with marker (c ∷ cs) ≡ false
    → replace_usec (u ∷ us) [] (c ∷ cs) ≡ c ∷ replace_usec (u ∷ us) [] cs
unfolding replace_usec
replace_miss u us c cs e = rw (e, replace_usec) refl

-- The rest of the place holder.
abbrev usec_end : Text
usec_end = 117 ∷ 115 ∷ 101 ∷ 99 ∷ 35 ∷ []

-- What begins with a text without digits behind the replacement did so before it.
starts_with-replace_usec :
    (u : ℕ) (us p t : Text)
    → AllDigits (u ∷ us)
    → NoDigits p
    → starts_with p (replace_usec (u ∷ us) [] t) ≡ true
    → starts_with p t ≡ true
unfolding replace_usec
starts_with-replace_usec u us [] t d n h = refl
starts_with-replace_usec u us (x ∷ p) [] d n h = h
starts_with-replace_usec u us (x ∷ p) (c ∷ cs) d n h =
    elim (Bool-cases (starts_with marker (c ∷ cs))) [
      | inl e ↦
          let there : starts_with (x ∷ p) (u ∷ replace_usec (u ∷ us) us cs) ≡ true =
            ap (starts_with (x ∷ p)) (sym (replace_hit u us c cs e)) ∙ h in
          ground (arith, there, d.0, d.1, n.0)
      | inr e ↦
          let there : starts_with (x ∷ p) (c ∷ replace_usec (u ∷ us) [] cs) ≡ true =
            ap (starts_with (x ∷ p)) (sym (replace_miss u us c cs e)) ∙ h in
          let rest = starts_with-replace_usec u us p cs d n.1 in ground (arith, there, rest)
    ]

no_marker_left :
    (u : ℕ) (us pending t : Text)
    → AllDigits (u ∷ us)
    → AllDigits pending
    → has_marker (replace_usec (u ∷ us) pending t) ≡ false
unfolding replace_usec
no_marker_left u us pending [] d k = refl
no_marker_left u us (x ∷ pending) (c ∷ cs) d k =
    ground (arith, k, no_marker_left u us pending cs d k.2)
no_marker_left u us [] (c ∷ cs) d k = elim (Bool-cases (starts_with marker (c ∷ cs))) [
  | inl e ↦
      ap has_marker (replace_hit u us c cs e) ∙ ground (arith, d.0, no_marker_left u us us cs d d.2)
  | inr e ↦
      let rest = starts_with-replace_usec u us usec_end cs d (ground arith) in
      ap has_marker (replace_miss u us c cs e)
      ∙ ground (arith, e, rest, no_marker_left u us [] cs d k)
]

digits_leave_no_marker :
    (tv_usec : ℕ) (t : Text) → has_marker (replace_usec (six_digits tv_usec) [] t) ≡ false
unfolding six_digits
digits_leave_no_marker tv_usec t = no_marker_left _ _ [] t (six_digits-AllDigits tv_usec) tt

length-ending : (opt_zstd : Bool) → length (if opt_zstd then text_zst else []) ≤ 4
length-ending true = omega arith
length-ending false = omega arith

-- The name, with the ".zst" behind it and the 0 at its end, fits the buffer of BUFSIZ bytes; made by a
-- format, it is as long as what `strftime` gave, cut to the buffer, and no "#usec#" is left in it.
pub set_ttyrec_file_name_lem :
    (has_namefmt : Bool) (formatted text : Text) (tv_usec : ℕ) (opt_zstd : Bool)
    → (body : Text) × (set_ttyrec_file_name has_namefmt formatted (some text) tv_usec opt_zstd
        ≡ some (body ++ (if opt_zstd then text_zst else [])))
      × (length (body ++ (if opt_zstd then text_zst else [])) < bufsiz)
      × (has_namefmt ≡ true
          → (has_marker body ≡ false) × (length body ≡ length (take (bufsiz - 5) text)))
unfolding set_ttyrec_file_name
set_ttyrec_file_name_lem false formatted text tv_usec opt_zstd = (
  take (bufsiz - 5) formatted,
  refl,
  omega (
    arith,
    length-append (take (bufsiz - 5) formatted) (if opt_zstd then text_zst else []),
    length-take (bufsiz - 5) formatted,
    length-ending opt_zstd,
  ),
  λ h. ground (arith, h),
)
set_ttyrec_file_name_lem true formatted text tv_usec opt_zstd =
    let cut = take (bufsiz - 5) text in
    let body = replace_usec (six_digits tv_usec) [] cut in
    let same : length body ≡ length cut = length-replace_usec (six_digits tv_usec) [] cut in
    (
      body,
      refl,
      omega (
        arith,
        length-append body (if opt_zstd then text_zst else []),
        length-take (bufsiz - 5) text,
        length-ending opt_zstd,
        same,
      ),
      λ h. (digits_leave_no_marker tv_usec cut, same),
    )
