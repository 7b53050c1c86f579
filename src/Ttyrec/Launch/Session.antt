-- ===== src/Ttyrec/Launch/Session.antt =====
-- What the three processes of Ttyrec/Launch have open where there is a terminal.
use ovh_ttyrec.Base.{
  Bool, Bool-cases, ap, arith, false, inl, inr, some, sym, true, ℕ, ◌∙◌, ◌≡◌, ◌≤◌,
}
use mathlib.Core.Path.{subst}
use ovh_ttyrec.Io.Open.{Descriptors, set_descriptor}
use ovh_ttyrec.Ttyrec.Launch.{
  File, inherited, script, pty_master, pty_slave, Kernel, Variables, SlaveCalls, getslave, close,
  dup2, open_all, parent_closes, child_closes, shell_dups,
}
use ovh_ttyrec.Ttyrec.Launch.Holds.{Unheld, Fresh, dup2_open, Yields, Yields-map, Yields-then}
use ovh_ttyrec.Ttyrec.Launch.Pipes.{started, OnlyAt}
use ovh_ttyrec.Ttyrec.Launch.Attached.{
  SlaveOf, Mastered, Slaved, open_all-Mastered, getslave-Slaved,
}

-- What the processes have, and which descriptors the shell has the slave at.
pub record OnTerminal (v : Variables) (parent child shell : Descriptors File) : Type 0 where
  pub shell_in : shell 0 ≡ some pty_slave
  pub shell_out : shell 1 ≡ some pty_slave
  pub shell_err : shell 2 ≡ some pty_slave
  pub shell_slave : (n : ℕ) → shell n ≡ some pty_slave → n ≤ 2
  pub shell_others : Unheld pty_master shell × Unheld script shell
  pub child_master : OnlyAt pty_master v.master child
  pub child_script : OnlyAt script v.fscript child
  pub child_slave : Unheld pty_slave child
  pub parent_in : parent 0 ≡ some (inherited 0)
  pub parent_master : OnlyAt pty_master v.master parent
  pub parent_others : Unheld pty_slave parent × Unheld script parent

-- `doshell` after `getslave`.
abbrev on_slave : Variables → Descriptors File → Descriptors File
on_slave v table =
    close v.slave (dup2 v.slave 2 (dup2 v.slave 1 (dup2 v.slave 0 (close v.master table))))

module _ {v : Variables} {table : Descriptors File} (p : Mastered v table)
    (z : table 0 ≡ some (inherited 0)) where
  child_attached :
      OnlyAt pty_master v.master (child_closes true v table)
      × OnlyAt script v.fscript (child_closes true v table)
      × Unheld pty_slave (child_closes true v table)
  unfolding child_closes
  child_attached = elim (Bool-cases v.openpty_used) [
    | inl o ↦
        let s = subst (λ b. SlaveOf b v.slave table) o p.slave_at in
        (
          (ground (arith, p, s), λ n e. ground (arith, p.master_at.1 n)),
          (ground (arith, p, s), λ n e. ground (arith, p.script_at.1 n)),
          λ n e. ground (arith, s.1 n),
        )
    | inr o ↦
        let s = subst (λ b. SlaveOf b v.slave table) o p.slave_at in
        (
          (ground (arith, p), λ n e. ground (arith, p.master_at.1 n)),
          (ground (arith, p), λ n e. ground (arith, p.script_at.1 n)),
          λ n e. ground (arith, s n),
        )
  ]

  parent_attached :
      (parent_closes true v table 0 ≡ some (inherited 0))
      × OnlyAt pty_master v.master (parent_closes true v table)
      × Unheld pty_slave (parent_closes true v table)
      × Unheld script (parent_closes true v table)
  unfolding parent_closes
  parent_attached = elim (Bool-cases v.openpty_used) [
    | inl o ↦
        let s = subst (λ b. SlaveOf b v.slave table) o p.slave_at in
        (
          ground (arith, p, s),
          (ground (arith, p, s), λ n e. ground (arith, p.master_at.1 n)),
          (λ n e. ground (arith, s.1 n)),
          λ n e. ground (arith, p.script_at.1 n),
        )
    | inr o ↦
        let s = subst (λ b. SlaveOf b v.slave table) o p.slave_at in
        (
          ground (arith, p),
          (ground (arith, p), λ n e. ground (arith, p.master_at.1 n)),
          (λ n e. ground (arith, s n)),
          λ n e. ground (arith, p.script_at.1 n),
        )
  ]

module _ {v : Variables} {table : Descriptors File} (p : Slaved v table)
    (z : table 0 ≡ some (inherited 0)) (y : table 1 ≡ some (inherited 1))
    (x : table 2 ≡ some (inherited 2)) where
  abbrev no_master : Descriptors File
  no_master = close v.master table

  abbrev slave_in : Descriptors File
  slave_in = set_descriptor 0 pty_slave no_master

  abbrev slave_out : Descriptors File
  slave_out = set_descriptor 1 pty_slave slave_in

  abbrev slave_err : Descriptors File
  slave_err = set_descriptor 2 pty_slave slave_out

  on_slave_lem : on_slave v table ≡ close v.slave slave_err
  on_slave_lem = ap (close v.slave) (
      ap (dup2 v.slave 2) (
        ap (dup2 v.slave 1) (dup2_open no_master {old = v.slave} 0 (ground (arith, p)))
        ∙ dup2_open slave_in {old = v.slave} 1 (ground (arith, p)))
      ∙ dup2_open slave_out {old = v.slave} 2 (ground (arith, p)))

  shell_attached :
      (on_slave v table 0 ≡ some pty_slave)
      × (on_slave v table 1 ≡ some pty_slave)
      × (on_slave v table 2 ≡ some pty_slave)
      × ((n : ℕ) → on_slave v table n ≡ some pty_slave → n ≤ 2)
      × Unheld pty_master (on_slave v table)
      × Unheld script (on_slave v table)
  shell_attached =
      subst
        (λ (t : Descriptors File).
          (t 0 ≡ some pty_slave)
          × (t 1 ≡ some pty_slave)
          × (t 2 ≡ some pty_slave)
          × ((n : ℕ) → t n ≡ some pty_slave → n ≤ 2)
          × Unheld pty_master t
          × Unheld script t)
        (sym on_slave_lem)
        (
          ground (arith, p),
          ground (arith, p),
          ground (arith, p),
          (λ n e. ground (arith, p.slave_at.1 n)),
          (λ n e. ground (arith, p.master_at.1 n)),
          (λ n e. ground (arith, p.script_gone n)),
        )

module _ {kernel : Kernel} (fresh : Fresh kernel) (calls : SlaveCalls) {v : Variables}
    {table : Descriptors File} (p : Mastered v table) (z : table 0 ≡ some (inherited 0))
    (y : table 1 ≡ some (inherited 1)) (x : table 2 ≡ some (inherited 2)) where
  without_script :
      Unheld script (close v.fscript table)
      × OnlyAt pty_master v.master (close v.fscript table)
      × SlaveOf v.openpty_used v.slave (close v.fscript table)
  without_script = (
    λ n e. ground (arith, p.script_at.1 n),
    (ground (arith, p), λ n e. ground (arith, p.master_at.1 n)),
    still v.openpty_used p.slave_at,
  )
    where
      still : (b : Bool) → SlaveOf b v.slave table → SlaveOf b v.slave (close v.fscript table)
      still true s = (ground (arith, p), λ n e. ground (arith, s.1 n))
      still false s = λ n e. ground (arith, s n)

  attached :
      Yields
        (OnTerminal v (parent_closes true v table) (child_closes true v table))
        (shell_dups kernel calls true v table)
  unfolding shell_dups
  attached = Yields-then _ (getslave kernel calls v (close v.fscript table)) _ (
      Yields-map
        (λ (v', t) (q, keeps).
          let kept = (λ (n : ℕ) (e : table n ≡ some (inherited n)).
            keeps n (inherited n) (ground (arith, p))) in
          let (shell_0, shell_1, shell_2, only, no_master, no_script) =
            shell_attached q (kept 0 z) (kept 1 y) (kept 2 x) in
          let (c_master, c_script, c_slave) = child_attached p z in
          let (p_in, p_master, p_slave, p_script) = parent_attached p z in
          record {
            shell_in = shell_0;
            shell_out = shell_1;
            shell_err = shell_2;
            shell_slave = only;
            shell_others = (no_master, no_script);
            child_master = c_master;
            child_script = c_script;
            child_slave = c_slave;
            parent_in = p_in;
            parent_master = p_master;
            parent_others = (p_slave, p_script);
          })
        (getslave kernel calls v (close v.fscript table))
        (let (a, b, c) = without_script in
          getslave-Slaved fresh calls v (close v.fscript table) a b c))

-- With a terminal, where descriptors 0 to 2 are open at the start, all is opened and `getslave` does
-- not fail: the shell has the slave as its standard input, output and error output, nowhere else, and
-- neither the master nor the recording; the child has the master and the recording, and the parent
-- the master and the input that the program was started with. Neither has the slave. The kernel gives
-- descriptors that are not open.
pub terminal_attached :
    (kernel : Kernel) (openpty : Bool) (calls : SlaveCalls) (is_open : ℕ → Bool)
    → Fresh kernel
    → is_open 0 ≡ true
    → is_open 1 ≡ true
    → is_open 2 ≡ true
    → Yields
        (λ r.
          Yields
            (OnTerminal r.0 (parent_closes true r.0 r.1) (child_closes true r.0 r.1))
            (shell_dups kernel calls true r.0 r.1))
        (open_all kernel true openpty (started is_open))
terminal_attached kernel openpty calls is_open fresh z y x =
    Yields-map
      (λ (v, table) (p, keeps).
        let at = (λ (n : ℕ) (o : is_open n ≡ true). keeps n (inherited n) (rw o)) in
        attached fresh calls p (at 0 z) (at 1 y) (at 2 x))
      (open_all kernel true openpty (started is_open)) (open_all-Mastered fresh openpty is_open)
