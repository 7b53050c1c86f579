-- ===== src/Ttyrec/Launch/Attached.antt =====
-- The descriptors that Ttyrec/Launch opens where there is a terminal.
use ovh_ttyrec.Base.{Bool, false, none, true, ℕ, ◌&&◌, ◌≢◌}
use mathlib.Core.Path.{subst}
use ovh_ttyrec.Io.Open.{Descriptors}
use ovh_ttyrec.Ttyrec.Launch.{
  File, inherited, script, pty_master, pty_slave, Kernel, Variables, SlaveCalls, none_open,
  getmaster, getslave, open_all,
}
use ovh_ttyrec.Ttyrec.Launch.Holds.{
  Yields-if, Unheld, Fresh, Yields, Yields-map, open_as_then, open_pair_then,
}
use ovh_ttyrec.Ttyrec.Launch.Pipes.{started, started-Unheld, OnlyAt, opened, only_still, Keeps}

-- The slave is there already where `openpty` was used.
abbrev pub SlaveOf : Bool → ℕ → Descriptors File → Type 0
SlaveOf true fd table = OnlyAt pty_slave fd table
SlaveOf false fd table = Unheld pty_slave table

pub record Mastered (v : Variables) (table : Descriptors File) : Type 0 where
  pub script_at : OnlyAt script v.fscript table
  pub master_at : OnlyAt pty_master v.master table
  pub slave_at : SlaveOf v.openpty_used v.slave table

module _ {kernel : Kernel} (fresh : Fresh kernel) where
  getmaster-Mastered :
      (openpty : Bool) (fd : ℕ) (table : Descriptors File)
      → OnlyAt script fd table
      → Unheld pty_master table
      → Unheld pty_slave table
      → Yields
          (λ r. Mastered r.0 r.1 × Keeps table r.1)
          (getmaster kernel openpty (none_open fd) table)
  unfolding getmaster
  getmaster-Mastered true fd table s um us =
      open_pair_then fresh _ pty_master pty_slave table _ (λ a b table1 table2 x1 x2. (
        record {
          script_at = only_still x2 (λ e. cc) (only_still x1 (λ e. cc) s);
          master_at = only_still x2 (λ e. cc) (opened x1 um);
          slave_at = opened x2 (x1.unheld_still pty_slave (λ e. cc) us);
        },
        λ n g e. x2.keeps n g (x1.keeps n g e),
      ))
  getmaster-Mastered false fd table s um us =
      open_as_then fresh _ pty_master table _ (λ a table1 x1. (
        record {
          script_at = only_still x1 (λ e. cc) s;
          master_at = opened x1 um;
          slave_at = x1.unheld_still pty_slave (λ e. cc) us;
        },
        λ n g e. x1.keeps n g e,
      ))

  pub open_all-Mastered :
      (openpty : Bool) (is_open : ℕ → Bool)
      → Yields
          (λ r. Mastered r.0 r.1 × Keeps (started is_open) r.1)
          (open_all kernel true openpty (started is_open))
  unfolding open_all
  open_all-Mastered openpty is_open = open_as_then fresh _ script (started is_open) _ (λ fd table x.
      let still = (λ (f : File) (d : script ≢ f) (i : (n : ℕ) → inherited n ≢ f).
        x.unheld_still f d (started-Unheld f is_open i)) in
      Yields-map (λ r p. (p.0, λ n g e. p.1 n g (x.keeps n g e)))
        (getmaster kernel openpty (none_open fd) table)
        (getmaster-Mastered openpty fd table (opened x (started-Unheld script is_open (λ n e. cc)))
          (still pty_master (λ e. cc) (λ n e. cc)) (still pty_slave (λ e. cc) (λ n e. cc))))

-- What `getslave` leaves: the slave, open once, and all else as it was.
pub record Slaved (v : Variables) (table : Descriptors File) : Type 0 where
  pub script_gone : Unheld script table
  pub master_at : OnlyAt pty_master v.master table
  pub slave_at : OnlyAt pty_slave v.slave table

module _ {kernel : Kernel} (fresh : Fresh kernel) where
  pub getslave-Slaved :
      (calls : SlaveCalls) (v : Variables) (table : Descriptors File)
      → Unheld script table
      → OnlyAt pty_master v.master table
      → SlaveOf v.openpty_used v.slave table
      → Yields (λ r. Slaved r.0 r.1 × Keeps table r.1) (getslave kernel calls v table)
  unfolding getslave
  getslave-Slaved calls v table u m s =
      Yields-if Q v.openpty_used _ _
        (λ e.
          Yields-if Q (calls.setsid && calls.controls) _ none
            (λ c. (
              record {
                script_gone = u;
                master_at = m;
                slave_at = subst (λ b. SlaveOf b v.slave table) e s;
              },
              λ n g h. h,
            ))
            (λ c. tt))
        (λ e.
          Yields-if Q (calls.setsid && calls.grantpt && calls.unlockpt) _ none
            (λ c. open_as_then fresh Q pty_slave table _ (λ fd after x.
              Yields-if Q calls.controls _ none
                (λ c'. (
                  record {
                    script_gone = x.unheld_still script (λ d. cc) u;
                    master_at = only_still x (λ d. cc) m;
                    slave_at = opened x (subst (λ b. SlaveOf b v.slave table) e s);
                  },
                  x.keeps,
                ))
                (λ c'. tt)))
            (λ c. tt))
    where
      Q : Variables × Descriptors File → Type 0
      Q r = Slaved r.0 r.1 × Keeps table r.1
