-- ===== src/Ttyrec/Launch/Apart.antt =====
-- What the three processes of Ttyrec/Launch have open where there is no terminal.
use ovh_ttyrec.Base.{Bool, ap, arith, false, some, true, ℕ, ◌∙◌, ◌≡◌}
use ovh_ttyrec.Io.Open.{Descriptors, set_descriptor}
use ovh_ttyrec.Ttyrec.Launch.{
  File, inherited, script, stdout_reader, stdout_writer, stderr_reader, stderr_writer, Kernel,
  Variables, SlaveCalls, close, dup2, open_all, parent_closes, child_closes, shell_dups,
}
use ovh_ttyrec.Ttyrec.Launch.Holds.{Unheld, Fresh, dup2_open, Yields, Yields-map}
use ovh_ttyrec.Ttyrec.Launch.Pipes.{started, OnlyAt, Piped, open_all-Piped}

-- What the processes have where each reads and writes.
pub record HeldOnce (v : Variables) (parent child shell : Descriptors File) : Type 0 where
  pub shell_in : shell 0 ≡ some (inherited 0)
  pub shell_out : OnlyAt stdout_writer 1 shell
  pub shell_err : OnlyAt stderr_writer 2 shell
  pub child_out : OnlyAt stdout_reader v.stdout_pipe.0 child
  pub child_err : OnlyAt stderr_reader v.stderr_pipe.0 child
  pub child_script : OnlyAt script v.fscript child
  pub child_writes : Unheld stdout_writer child × Unheld stderr_writer child
  pub parent_writes : Unheld stdout_writer parent × Unheld stderr_writer parent
  pub others_script : Unheld script parent × Unheld script shell
  pub left_open :
      (shell v.stdout_pipe.0 ≡ some stdout_reader) × (shell v.stderr_pipe.0 ≡ some stderr_reader)

module _ {v : Variables} {table : Descriptors File} (p : Piped v table) where
  parent_writes_nothing :
      Unheld stdout_writer (parent_closes false v table)
      × Unheld stderr_writer (parent_closes false v table)
      × Unheld script (parent_closes false v table)
  unfolding parent_closes
  parent_writes_nothing = (
    λ n e. ground (arith, p.out_writer.1 n),
    λ n e. ground (arith, p.err_writer.1 n),
    λ n e. ground (arith, p.script_at.1 n),
  )

  child_writes_nothing :
      Unheld stdout_writer (child_closes false v table)
      × Unheld stderr_writer (child_closes false v table)
  unfolding child_closes
  child_writes_nothing =
      let o = p.no_openpty in
      (λ n e. ground (arith, p.out_writer.1 n), λ n e. ground (arith, p.err_writer.1 n))

  child_reads :
      table 0 ≡ some (inherited 0)
      → OnlyAt stdout_reader v.stdout_pipe.0 (child_closes false v table)
        × OnlyAt stderr_reader v.stderr_pipe.0 (child_closes false v table)
        × OnlyAt script v.fscript (child_closes false v table)
  unfolding child_closes
  child_reads z =
      let o = p.no_openpty in
      (
        (ground (arith, p), λ n e. ground (arith, p.out_reader.1 n)),
        (ground (arith, p), λ n e. ground (arith, p.err_reader.1 n)),
        (ground (arith, p), λ n e. ground (arith, p.script_at.1 n)),
      )

  module _ (z : table 0 ≡ some (inherited 0)) (y : table 1 ≡ some (inherited 1))
      (x : table 2 ≡ some (inherited 2)) where
    abbrev shell : Descriptors File
    shell = close v.stderr_pipe.1 (
        close v.stdout_pipe.1
          (set_descriptor 2 stderr_writer (set_descriptor 1 stdout_writer (close v.fscript table))))

    first :
        dup2 v.stdout_pipe.1 1 (close v.fscript table)
        ≡ set_descriptor 1 stdout_writer (close v.fscript table)
    first = dup2_open (close v.fscript table) 1 (ground (arith, p))

    second :
        set_descriptor 1 stdout_writer (close v.fscript table) v.stderr_pipe.1 ≡ some stderr_writer
    second = ground (arith, p)

    shell_found :
        (kernel : Kernel) (calls : SlaveCalls) → shell_dups kernel calls false v table ≡ some shell
    unfolding shell_dups
    shell_found kernel calls =
        ap (λ t. some (close v.stderr_pipe.1 (close v.stdout_pipe.1 t)))
          (ap (λ t. dup2 v.stderr_pipe.1 2 t) first
            ∙ dup2_open (set_descriptor 1 stdout_writer (close v.fscript table))
                {old = v.stderr_pipe.1} 2 second)

    shell-HeldOnce : HeldOnce v (parent_closes false v table) (child_closes false v table) shell
    shell-HeldOnce =
        let (reads_out, reads_err, writes_script) = child_reads z in
        let (writes_out, writes_err, no_script) = parent_writes_nothing in
        record {
          shell_in = ground (arith, p);
          shell_out = (ground (arith, p), λ n e. ground (arith, p.out_writer.1 n));
          shell_err = (ground (arith, p), λ n e. ground (arith, p.err_writer.1 n));
          child_out = reads_out;
          child_err = reads_err;
          child_script = writes_script;
          child_writes = child_writes_nothing;
          parent_writes = (writes_out, writes_err);
          others_script = (no_script, λ n e. ground (arith, p.script_at.1 n));
          left_open = (ground (arith, p), ground (arith, p));
        }

-- Without a terminal, where descriptors 0 to 2 are open at the start and all is opened: the shell
-- reads what the program read, its standard output and error output are the only descriptors of the
-- pipes' writing ends in all three processes, the child has their reading ends and alone the file of
-- the recording, and the shell is left the reading ends too. The kernel gives descriptors that are
-- not open.
pub pipes_apart :
    (kernel : Kernel) (openpty : Bool) (calls : SlaveCalls) (is_open : ℕ → Bool)
    → Fresh kernel
    → is_open 0 ≡ true
    → is_open 1 ≡ true
    → is_open 2 ≡ true
    → Yields
        (λ r.
          (shell : Descriptors File) × (shell_dups kernel calls false r.0 r.1 ≡ some shell)
          × HeldOnce r.0 (parent_closes false r.0 r.1) (child_closes false r.0 r.1) shell)
        (open_all kernel false openpty (started is_open))
pipes_apart kernel openpty calls is_open fresh z y x =
    Yields-map
      (λ r (p, keeps).
        let at = (λ (n : ℕ) (o : is_open n ≡ true). keeps n (inherited n) (rw o)) in
        (
          shell p (at 0 z) (at 1 y) (at 2 x),
          shell_found p (at 0 z) (at 1 y) (at 2 x) kernel calls,
          shell-HeldOnce p (at 0 z) (at 1 y) (at 2 x),
        ))
      (open_all kernel false openpty (started is_open)) (open_all-Piped fresh openpty is_open)
