-- ===== src/Ttyrec/FileName/Recognised.antt =====
-- The name that a compressed recording gets makes ttyplay decompress it.
use ovh_ttyrec.Base.{
  Bool, List, Option, [], ap, arith, drop, drop_over, false, leb, length, length-append, none, refl,
  some, sym, take, true, ℕ, ◌++◌, ◌-◌, ◌∙◌, ◌∷◌, ◌≡◌,
}
use mathlib.Core.Option.{some_inj}
use ovh_ttyrec.Ttyrec.CommandLine.{Text}
use ovh_ttyrec.Ttyrec.FileName.{six_digits, replace_usec, text_zst, set_ttyrec_file_name}
use ovh_ttyrec.Ttyrec.FileName.Script.{script_name}
use ovh_ttyrec.Ttyplay.Main.{is_zst, Choice, choose_input}
use ovh_ttyrec.Ttyplay.Wait.{Double}
use ovh_ttyrec.Ttyrec.Output.{bufsiz}
use ovh_ttyrec.Compress.{compress_zstd, set_compress_mode}
use ovh_ttyrec.Io.Open.{Descriptors, returns, efopen}

is_zst-append : (t : Text) → is_zst (t ++ text_zst) ≡ true
unfolding is_zst
is_zst-append t =
    let long = length-append t text_zst in
    let last : drop (length (t ++ text_zst) - 4) (t ++ text_zst) ≡ text_zst =
      drop_over (length (t ++ text_zst) - 4) 0 t text_zst (omega (arith, long)) in
    let fits : leb 4 (length (t ++ text_zst)) ≡ true = ground (arith, long) in
    rw (is_zst, fits, last) refl

-- A name that is given or made ends in the suffix.
name_ends :
    (generated fname : Option Text) (name : Text)
    → ((g : Text) → generated ≡ some g → (t : Text) × (g ≡ t ++ text_zst))
    → script_name true generated fname ≡ some name
    → (t : Text) × (name ≡ t ++ text_zst)
unfolding script_name
name_ends generated none name made e = made name e
name_ends generated (some fname) name made e = (fname, sym (some_inj.0 e))

made_ends :
    (has_namefmt : Bool) (formatted : Text) (strftime : Option Text) (tv_usec : ℕ) (g : Text)
    → set_ttyrec_file_name has_namefmt formatted strftime tv_usec true ≡ some g
    → (t : Text) × (g ≡ t ++ text_zst)
unfolding set_ttyrec_file_name
made_ends false formatted strftime tv_usec g e = (take (bufsiz - 5) formatted, sym (some_inj.0 e))
made_ends true formatted none tv_usec g e = cc
made_ends true formatted (some name) tv_usec g e =
    (replace_usec (six_digits tv_usec) [] (take (bufsiz - 5) name), sym (some_inj.0 e))

-- Whatever a recording with compression is called, by its user or by the program: ttyplay, where it is
-- built with zstd and given this name, reads it with the functions of zstd, whatever its options were.
pub recording_is_recognised :
    {W F : Type 0} (double : Double W) (fopen : Text → Option F) (unused : Descriptors F → Option ℕ)
    (has_namefmt : Bool) (formatted : Text) (strftime fname : Option Text) (tv_usec : ℕ)
    (name : Text) (more : List Text) (table : Descriptors F) (c : Choice W) (input : F)
    → script_name true (set_ttyrec_file_name has_namefmt formatted strftime tv_usec true) fname
      ≡ some name
    → fopen name ≡ some input
    → choose_input double true fopen unused (name ∷ more) table c
      ≡ returns (record c { wrappers = compress_zstd }, input)
unfolding choose_input efopen set_compress_mode
recording_is_recognised double fopen unused has_namefmt formatted strftime fname tv_usec name more
      table c input named opens =
    let (t, ends) =
      name_ends (set_ttyrec_file_name has_namefmt formatted strftime tv_usec true) fname name
        (made_ends has_namefmt formatted strftime tv_usec) named in
    let zst : is_zst name ≡ true = ap is_zst ends ∙ is_zst-append t in
    rw (choose_input, efopen, opens, zst) refl
