-- ===== src/Io/Open.antt =====
-- io.c: the functions that open a file or duplicate a descriptor, or end the program.
use ovh_ttyrec.Base.{List, Option, if◌then◌else◌, none, some, ℕ, ◌==◌}

-- What a function that may call `exit` comes to.
pub data Outcome {ℓ} (A : Type ℓ) : Type ℓ where
  returns : A → Outcome A
  exits : ℕ → Outcome A

abbrev pub exit_failure : ℕ
exit_failure = 1

infixl 5 ◌>>=◌
abbrev pub ◌>>=◌ {ℓ κ} : {A : Type ℓ} {B : Type κ} → Outcome A → (A → Outcome B) → Outcome B
returns a >>= f = f a
exits code >>= f = exits code

-- `none` is the NULL or the -1 of the call that each of them makes.
abbrev or_exit {ℓ} : {A : Type ℓ} → Option A → Outcome A
or_exit none = exits exit_failure
or_exit (some a) = returns a

-- A path is its bytes, and the mode is "r" wherever the programs call this.
unfoldable pub efopen {ℓ} : {F : Type ℓ} → (List ℕ → Option F) → List ℕ → Outcome F
efopen fopen path = or_exit (fopen path)

-- The descriptors that are open, and what each refers to.
abbrev pub Descriptors {ℓ} : Type ℓ → Type ℓ
Descriptors F = ℕ → Option F

abbrev pub set_descriptor {ℓ} : {F : Type ℓ} → ℕ → F → Descriptors F → Descriptors F
set_descriptor fd f table n = if n == fd then some f else table n

-- `dup` chooses the new descriptor, `none` where there is none; the old one has to be open.
unfoldable pub edup {ℓ} :
    {F : Type ℓ} → (Descriptors F → Option ℕ) → ℕ → Descriptors F → Outcome (ℕ × Descriptors F)
edup unused oldfd table = elim (table oldfd) [
  | none ↦ exits exit_failure
  | some f ↦ elim (unused table) [
    | none ↦ exits exit_failure
    | some fd ↦ returns (fd, set_descriptor fd f table)
  ]
]

unfoldable pub edup2 {ℓ} : {F : Type ℓ} → ℕ → ℕ → Descriptors F → Outcome (ℕ × Descriptors F)
edup2 oldfd newfd table = elim (table oldfd) [
  | none ↦ exits exit_failure
  | some f ↦ returns (newfd, set_descriptor newfd f table)
]

-- A stream on a descriptor reads what that refers to.
unfoldable pub efdopen {ℓ} : {F : Type ℓ} → ℕ → Descriptors F → Outcome F
efdopen fd table = or_exit (table fd)
