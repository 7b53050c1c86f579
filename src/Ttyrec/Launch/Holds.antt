-- ===== src/Ttyrec/Launch/Holds.antt =====
-- Which descriptors of a table of Ttyrec/Launch refer to a file.
use ovh_ttyrec.Base.{
  Bool, Option, arith, false, if◌then◌else◌, none, refl, some, true, ℕ, ◌∙◌, ◌≡◌, ◌≢◌,
}
use ovh_ttyrec.Io.Open.{Descriptors, set_descriptor}
use ovh_ttyrec.Ttyrec.Launch.{File, Kernel, close, dup2, open_as, open_pair, ◌>>=◌}

-- No descriptor refers to it.
abbrev pub Unheld : File → Descriptors File → Type 0
Unheld f table = (n : ℕ) → table n ≢ some f

-- No other one than the given refers to it.
abbrev pub HeldAt : File → ℕ → Descriptors File → Type 0
HeldAt f fd table = (n : ℕ) → table n ≡ some f → n ≡ fd

pub set_same :
    (fd : ℕ) (f : File) (table : Descriptors File) → set_descriptor fd f table fd ≡ some f
set_same fd f table = ground arith

pub set_other :
    {n fd : ℕ} (f : File) (table : Descriptors File)
    → n ≢ fd
    → set_descriptor fd f table n ≡ table n
set_other f table d = ground arith

pub close_other : {n fd : ℕ} (table : Descriptors File) → n ≢ fd → close fd table n ≡ table n
close_other table d = ground arith

pub set-HeldAt :
    {f : File} {fd : ℕ} {table : Descriptors File}
    → Unheld f table
    → HeldAt f fd (set_descriptor fd f table)
set-HeldAt free n e = ground (arith, free n)

pub set_other-HeldAt :
    {f g : File} {fd : ℕ} {table : Descriptors File} (k : ℕ)
    → g ≢ f
    → HeldAt f fd table
    → HeldAt f fd (set_descriptor k g table)
set_other-HeldAt k d h n e = ground (arith, h n)

pub set_other-Unheld :
    {f g : File} {table : Descriptors File} (k : ℕ)
    → g ≢ f
    → Unheld f table
    → Unheld f (set_descriptor k g table)
set_other-Unheld k d h n e = ground (arith, h n)

pub close-Unheld :
    {f : File} {fd : ℕ} {table : Descriptors File} → HeldAt f fd table → Unheld f (close fd table)
close-Unheld h n e = ground (arith, h n)

pub close_other-Unheld :
    {f : File} {table : Descriptors File} (k : ℕ) → Unheld f table → Unheld f (close k table)
close_other-Unheld k h n e = ground (arith, h n)

pub close_other-HeldAt :
    {f : File} {fd : ℕ} {table : Descriptors File} (k : ℕ)
    → HeldAt f fd table
    → HeldAt f fd (close k table)
close_other-HeldAt k h n e = ground (arith, h n)

pub dup2_open :
    (table : Descriptors File) {old : ℕ} (new : ℕ) {f : File}
    → table old ≡ some f
    → dup2 old new table ≡ set_descriptor new f table
dup2_open table new e = rw (dup2, e)

-- The kernel chooses what is not open.
abbrev pub Fresh : Kernel → Type 0
Fresh kernel = (table : Descriptors File) (fd : ℕ) → kernel table ≡ some fd → table fd ≡ none

-- What one more descriptor does to a table.
pub record Adds (f : File) (before : Descriptors File) (fd : ℕ) (after : Descriptors File)
    : Type 0 where
  pub held : after fd ≡ some f
  pub keeps : (n : ℕ) (g : File) → before n ≡ some g → after n ≡ some g
  pub only : Unheld f before → HeldAt f fd after
  pub unheld_still : (g : File) → f ≢ g → Unheld g before → Unheld g after
  pub held_still : (g : File) (k : ℕ) → f ≢ g → HeldAt g k before → HeldAt g k after

-- A descriptor that is open is another than one that is not.
other_fd :
    (table : Descriptors File) {n fd : ℕ} {g : File} → table fd ≡ none → table n ≡ some g → n ≢ fd
other_fd table free e same = cc

pub set-Adds :
    (f : File) (table : Descriptors File) (fd : ℕ)
    → table fd ≡ none
    → Adds f table fd (set_descriptor fd f table)
set-Adds f table fd free = record {
  held = set_same fd f table;
  keeps = λ n g e. set_other f table (λ same. other_fd table free e same) ∙ e;
  only = set-HeldAt;
  unheld_still = λ g d h. set_other-Unheld fd d h;
  held_still = λ g k d h. set_other-HeldAt fd d h;
}

-- Where a chain of calls does not fail, its result has the property.
abbrev pub Yields {ℓ} : {A : Type ℓ} → (A → Type 0) → Option A → Type 0
Yields P none = Unit
Yields P (some a) = P a

pub Yields-map {ℓ} :
    {A : Type ℓ} {P Q : A → Type 0}
    → ((a : A) → P a → Q a)
    → (m : Option A) → Yields P m
    → Yields Q m
Yields-map f none y = tt
Yields-map f (some a) y = f a y

pub Yields-if {ℓ} :
    {A : Type ℓ} (Q : A → Type 0) (b : Bool) (m m' : Option A)
    → (b ≡ true → Yields Q m)
    → (b ≡ false → Yields Q m')
    → Yields Q (if b then m else m')
Yields-if Q true m m' y y' = y refl
Yields-if Q false m m' y y' = y' refl

pub Yields-then {ℓ κ} :
    {A : Type ℓ} {B : Type κ} (Q : B → Type 0) (m : Option A) (g : A → Option B)
    → Yields (λ a. Yields Q (g a)) m
    → Yields Q (m >>= g)
Yields-then Q none g y = tt
Yields-then Q (some a) g y = y

module _ {ℓ} {B : Type ℓ} {kernel : Kernel} (fresh : Fresh kernel) (Q : B → Type 0) where
  pub open_as_then :
      (f : File) (table : Descriptors File) (g : ℕ × Descriptors File → Option B)
      → ((fd : ℕ) (after : Descriptors File) → Adds f table fd after → Yields Q (g (fd, after)))
      → Yields Q (open_as kernel f table >>= g)
  open_as_then f table g q = go (kernel table) refl
    where
      go :
          (k : Option ℕ)
          → kernel table ≡ k
          → Yields Q (elim k [ none ↦ none | some fd ↦ some (fd, set_descriptor fd f table) ] >>= g)
      go none e = tt
      go (some fd) e = q fd (set_descriptor fd f table) (set-Adds f table fd (fresh table fd e))

module _ {ℓ} {B : Type ℓ} {kernel : Kernel} (fresh : Fresh kernel) (Q : B → Type 0) where
  pub open_pair_then :
      (f f' : File) (table : Descriptors File) (g : (ℕ × ℕ) × Descriptors File → Option B)
      → ((a b : ℕ) (middle after : Descriptors File)
          → Adds f table a middle
          → Adds f' middle b after
          → Yields Q (g ((a, b), after)))
      → Yields Q (open_pair kernel f f' table >>= g)
  open_pair_then f f' table g q = Yields-then Q (open_pair kernel f f' table) g (
      open_as_then fresh (λ r. Yields Q (g r)) f table _
        (λ a middle x.
          open_as_then fresh (λ r. Yields Q (g r)) f' middle _
            (λ b after y. q a b middle after x y)))
