-- ===== src/Compress/Zstd/Reader/Source.antt =====
-- `fread_wrapper_zstd` of compress_zstd.c as a source of bytes for the player.
use ovh_ttyrec.Base.{
  Bool, List, ap, ap₂, arith, drop-append, false, if◌then◌else◌, leb, length, length-append, refl,
  suc, sym, take-append, true, zero, ℕ, ◌*◌, ◌++◌, ◌<◌, ◌∙◌, ◌≡◌,
}
use ovh_ttyrec.Ttyplay.Read.Source.{Source}
use ovh_ttyrec.Compress.Zstd.Reader.{Decoder, Unzip, fread_wrapper_zstd, zstd_input}
use ovh_ttyrec.Compress.Zstd.Reader.Laws.{Inflates}
use ovh_ttyrec.Compress.Zstd.Reader.Refine.{Holds, fread_wrapper_zstd_lem, Holds-clearerr}

tuple_eq : {A B C : Type 0} (r : A × B × C) {a : A} {b : B} → r.0 ≡ a → r.1 ≡ b → r ≡ (a, b, r.2)
tuple_eq r p q = ap₂ (λ a b. (a, b, r.2)) p q

module _ {D : Type 0} (decoder : Decoder D) (inflates : Inflates decoder) where
  abbrev pub Has : Unzip D → List ℕ → Type 0
  Has s unread = Holds decoder inflates s unread

  pub zstd_gives :
      (size nmemb : ℕ) (s : Unzip D) (bytes rest : List ℕ)
      → 0 < size
      → 0 < nmemb
      → length bytes ≡ size * nmemb
      → Has s (bytes ++ rest)
      → (s' : Unzip D) × (fread_wrapper_zstd decoder size nmemb s ≡ (bytes, nmemb, s'))
        × Has s' rest
  zstd_gives size nmemb s bytes rest p q l h =
      let want = size * nmemb in
      let r =
        fread_wrapper_zstd_lem decoder inflates size nmemb s (bytes ++ rest) (grind arith) h in
      let enough : leb want (length (bytes ++ rest)) ≡ true =
        ground (arith, length-append bytes rest, l) in
      (
        (fread_wrapper_zstd decoder size nmemb s).2,
        tuple_eq (fread_wrapper_zstd decoder size nmemb s)
            (r.0 ∙ take-append bytes rest want (sym l)) (r.1 ∙ rw enough refl),
        rw (drop-append bytes rest want (sym l)) at r.2,
      )

  pub zstd_lacks :
      (size nmemb : ℕ) (s : Unzip D) (unread : List ℕ)
      → 0 < size
      → length unread < size * nmemb
      → Has s unread
      → (got : List ℕ) × (count : ℕ) × (s' : Unzip D) × (fread_wrapper_zstd decoder size nmemb s
          ≡ (got, count, s'))
        × (count < nmemb)
  zstd_lacks size zero s unread p short h = absurd (omega arith)
  zstd_lacks size (suc n) s unread p short h =
      let r = fread_wrapper_zstd_lem decoder inflates size (suc n) s unread (omega arith) h in
      let few : leb (size * suc n) (length unread) ≡ false = ground arith in
      let (got, count, s') = fread_wrapper_zstd decoder size (suc n) s in
      let none_whole = r.1 ∙ ap (λ (b : Bool). if b then suc n else 0) few in
      (got, count, s', refl, omega (arith, none_whole))

  abbrev pub zstd_source : Source (zstd_input decoder)
  zstd_source = record {
    Has = Has;
    gives = zstd_gives;
    lacks = zstd_lacks;
    clears = Holds-clearerr decoder inflates;
  }
