-- ===== src/Ttyrec/Launch/Pipes.antt =====
-- The descriptors of the three processes of Ttyrec/Launch where there is no terminal.
use ovh_ttyrec.Base.{
  Bool, Bool-cases, false, if◌then◌else◌, inl, inr, none, refl, some, sym, ℕ, ◌≡◌, ◌≢◌,
}
use mathlib.Core.Option.{some_inj}
use ovh_ttyrec.Io.Open.{Descriptors}
use ovh_ttyrec.Ttyrec.Launch.{
  inherited, none_open, script, stdout_reader, stdout_writer, stderr_reader, stderr_writer, File,
  Kernel, Variables, open_pipes, open_all,
}
use ovh_ttyrec.Ttyrec.Launch.Holds.{
  Yields-map, Unheld, HeldAt, Fresh, Adds, Yields, open_as_then, open_pair_then,
}

-- The table that the program is started with.
abbrev pub started : (ℕ → Bool) → Descriptors File
started is_open n = if is_open n then some (inherited n) else none

-- A file has this descriptor and no other.
abbrev pub OnlyAt : File → ℕ → Descriptors File → Type 0
OnlyAt f fd table = (table fd ≡ some f) × HeldAt f fd table

pub record Piped (v : Variables) (table : Descriptors File) : Type 0 where
  pub no_openpty : v.openpty_used ≡ false
  pub script_at : OnlyAt script v.fscript table
  pub out_reader : OnlyAt stdout_reader v.stdout_pipe.0 table
  pub out_writer : OnlyAt stdout_writer v.stdout_pipe.1 table
  pub err_reader : OnlyAt stderr_reader v.stderr_pipe.0 table
  pub err_writer : OnlyAt stderr_writer v.stderr_pipe.1 table

-- What is open stays what it is.
abbrev pub Keeps : Descriptors File → Descriptors File → Type 0
Keeps before after = (n : ℕ) (g : File) → before n ≡ some g → after n ≡ some g

pub opened :
    {f : File} {fd : ℕ} {before after : Descriptors File}
    → Adds f before fd after
    → Unheld f before
    → OnlyAt f fd after
opened a u = (a.held, a.only u)

pub only_still :
    {f g : File} {k fd : ℕ} {before after : Descriptors File}
    → Adds f before fd after
    → f ≢ g
    → OnlyAt g k before
    → OnlyAt g k after
only_still {g = g} {k = k} a d o = (a.keeps k g o.0, a.held_still g k d o.1)

not_open : {f : File} → none ≢ some f
not_open e = cc

pub started-Unheld :
    (f : File) (is_open : ℕ → Bool) → ((n : ℕ) → inherited n ≢ f) → Unheld f (started is_open)
started-Unheld f is_open d n e = elim (Bool-cases (is_open n)) [
  | inl o ↦ d n (some_inj.0 (rw o at e))
  | inr c ↦ not_open (rw c at e)
]

module _ {kernel : Kernel} (fresh : Fresh kernel) where
  open_pipes-Piped :
      (fd : ℕ) (table : Descriptors File)
      → OnlyAt script fd table
      → ((f : File) → f ≢ script → ((n : ℕ) → inherited n ≢ f) → Unheld f table)
      → Yields (λ r. Piped r.0 r.1 × Keeps table r.1) (open_pipes kernel (none_open fd) table)
  unfolding open_pipes
  open_pipes-Piped fd table s u =
      open_pair_then fresh _ stdout_reader stdout_writer table _ (λ a b table1 table2 x1 x2.
        open_pair_then fresh _ stderr_reader stderr_writer table2 _ (λ c d table3 table4 x3 x4. (
          record {
            no_openpty = refl;
            script_at =
                only_still x4 (λ e. cc)
                  (only_still x3 (λ e. cc) (only_still x2 (λ e. cc) (only_still x1 (λ e. cc) s)));
            out_reader =
                only_still x4 (λ e. cc)
                  (only_still x3 (λ e. cc)
                    (only_still x2 (λ e. cc) (opened x1 (u stdout_reader (λ e. cc) (λ n e. cc)))));
            out_writer =
                only_still x4 (λ e. cc)
                  (only_still x3 (λ e. cc)
                    (opened x2 (
                      x1.unheld_still stdout_writer (λ e. cc)
                        (u stdout_writer (λ e. cc) (λ n e. cc)))));
            err_reader =
                only_still x4 (λ e. cc)
                  (opened x3 (
                    x2.unheld_still stderr_reader (λ e. cc)
                      (x1.unheld_still stderr_reader (λ e. cc)
                        (u stderr_reader (λ e. cc) (λ n e. cc)))));
            err_writer = opened x4 (
                x3.unheld_still stderr_writer (λ e. cc)
                  (x2.unheld_still stderr_writer (λ e. cc)
                    (x1.unheld_still stderr_writer (λ e. cc)
                      (u stderr_writer (λ e. cc) (λ n e. cc)))));
          },
          λ n g e. x4.keeps n g (x3.keeps n g (x2.keeps n g (x1.keeps n g e))),
        )))

  pub open_all-Piped :
      (openpty : Bool) (is_open : ℕ → Bool)
      → Yields
          (λ r. Piped r.0 r.1 × Keeps (started is_open) r.1)
          (open_all kernel false openpty (started is_open))
  unfolding open_all
  open_all-Piped openpty is_open = open_as_then fresh _ script (started is_open) _ (λ fd table x.
      Yields-map (λ r p. (p.0, λ n g e. p.1 n g (x.keeps n g e)))
        (open_pipes kernel (none_open fd) table)
        (open_pipes-Piped fd table (opened x (started-Unheld script is_open (λ n e. cc)))
          (λ f d i. x.unheld_still f (λ e. d (sym e)) (started-Unheld f is_open i))))
