-- ===== src/Ttyrec/Launch.antt =====
-- How the three processes of ttyrec.c are started: the descriptors that `main` opens, and those that
-- `doinput`, `dooutput` and `doshell` close or duplicate before anything is read.
pub mod Holds
pub mod Pipes
pub mod Apart
pub mod Attached
pub mod Session
pub mod Start
pub mod AtExit
pub mod Search
use ovh_ttyrec.Base.{Bool, Option, false, if◌then◌else◌, none, some, true, ℕ, ◌&&◌, ◌==◌}
use ovh_ttyrec.Io.Open.{Descriptors, set_descriptor}

-- What a descriptor refers to. What the program was started with is known by its number.
pub data File : Type 0 where
  inherited : ℕ → File
  script pty_master pty_slave : File
  stdout_reader stdout_writer stderr_reader stderr_writer : File

-- The variables of ttyrec.c that hold descriptors, `stdout_pipe[0]` the first of a pair. `fscript` is
-- a stream and stands for its descriptor.
pub record Variables : Type 0 where
  pub fscript : ℕ
  pub openpty_used : Bool
  pub master : ℕ
  pub slave : ℕ
  pub stdout_pipe : ℕ × ℕ
  pub stderr_pipe : ℕ × ℕ

-- The kernel's choice of a new descriptor, `none` where there is no more.
abbrev pub Kernel : Type 0
Kernel = Descriptors File → Option ℕ

abbrev pub close : ℕ → Descriptors File → Descriptors File
close fd table n = if n == fd then none else table n

-- The result is not looked at, so that a descriptor that is not open changes nothing.
abbrev pub dup2 : ℕ → ℕ → Descriptors File → Descriptors File
dup2 old new table = elim (table old) [ none ↦ table | some f ↦ set_descriptor new f table ]

-- A call that fails ends it.
infixl 5 ◌>>=◌
abbrev pub ◌>>=◌ {ℓ κ} : {A : Type ℓ} {B : Type κ} → Option A → (A → Option B) → Option B
none >>= g = none
some a >>= g = g a

-- One more descriptor.
abbrev pub open_as : Kernel → File → Descriptors File → Option (ℕ × Descriptors File)
open_as kernel f table = elim (kernel table) [
  | none ↦ none
  | some fd ↦ some (fd, set_descriptor fd f table)
]

-- Two more, the end that is read first.
abbrev pub open_pair : Kernel → File → File → Descriptors File → Option ((ℕ × ℕ) × Descriptors File)
open_pair kernel f g table = do
  (a, table1) ← open_as kernel f table
  (b, table2) ← open_as kernel g table1
  some ((a, b), table2)

-- `openpty` where it is compiled in and `-p` is not given, otherwise `getpt` or `posix_openpt`. What
-- the program does where there is none is `fail`, here `none`.
unfoldable pub getmaster :
    Kernel → Bool → Variables → Descriptors File → Option (Variables × Descriptors File)
getmaster kernel openpty v table =
    if openpty
    then (do
      (pair, table') ← open_pair kernel pty_master pty_slave table
      some (record v { master = pair.0; slave = pair.1; openpty_used = true }, table'))
    else (do
      (fd, table') ← open_as kernel pty_master table
      some (record v { master = fd }, table'))

-- Which of the calls of `getslave` succeed; `controls` is the one of TIOCSCTTY.
pub record SlaveCalls : Type 0 where
  pub setsid : Bool
  pub grantpt : Bool
  pub unlockpt : Bool
  pub controls : Bool

-- On a system with `grantpt` and without STREAMS.
unfoldable pub getslave :
    Kernel → SlaveCalls → Variables → Descriptors File → Option (Variables × Descriptors File)
getslave kernel calls v table =
    if v.openpty_used
    then (if calls.setsid && calls.controls then some (v, table) else none)
    else if calls.setsid && calls.grantpt && calls.unlockpt
    then (do
      (fd, table') ← open_as kernel pty_slave table
      if calls.controls then some (record v { slave = fd }, table') else none)
    else none

-- The variables as `main` finds them, but for the script.
abbrev pub none_open : ℕ → Variables
none_open fd = record {
  fscript = fd;
  openpty_used = false;
  master = 0;
  slave = 0;
  stdout_pipe = (0, 0);
  stderr_pipe = (0, 0);
}

unfoldable pub open_pipes :
    Kernel → Variables → Descriptors File → Option (Variables × Descriptors File)
open_pipes kernel v table = do
  (out, table1) ← open_pair kernel stdout_reader stdout_writer table
  (err, table2) ← open_pair kernel stderr_reader stderr_writer table1
  some (record v { stdout_pipe = out; stderr_pipe = err }, table2)

-- `main` from `fopen` to `fork`, of which each process has its own copy.
unfoldable pub open_all :
    Kernel → Bool → Bool → Descriptors File → Option (Variables × Descriptors File)
open_all kernel use_tty openpty table = do
  (fd, table1) ← open_as kernel script table
  elim use_tty [
    | true ↦ getmaster kernel openpty (none_open fd) table1
    | false ↦ open_pipes kernel (none_open fd) table1
  ]

abbrev close_slave : Variables → Descriptors File → Descriptors File
close_slave v table = if v.openpty_used then close v.slave table else table

-- `doinput`, called by the parent: before its loop, and after it where it has none.
unfoldable pub parent_closes : Bool → Variables → Descriptors File → Descriptors File
parent_closes use_tty v table =
    let table1 = close_slave v (close v.fscript table) in
    if use_tty
    then table1
    else close v.stderr_pipe.1
        (close v.stderr_pipe.0 (close v.stdout_pipe.1 (close v.stdout_pipe.0 (close 0 table1))))

-- `dooutput`, called by the child.
unfoldable pub child_closes : Bool → Variables → Descriptors File → Descriptors File
child_closes use_tty v table =
    let table1 = close_slave v (close 0 table) in
    if use_tty then table1 else close v.stderr_pipe.1 (close v.stdout_pipe.1 table1)

-- `doshell`, called by the subchild, up to `execvp`.
unfoldable pub shell_dups :
    Kernel → SlaveCalls → Bool → Variables → Descriptors File → Option (Descriptors File)
unfolding getslave
shell_dups kernel calls use_tty v table =
    let table1 = close v.fscript table in
    if use_tty
    then (do
      (v', table2) ← getslave kernel calls v table1
      some (
          close v'.slave
            (dup2 v'.slave 2 (dup2 v'.slave 1 (dup2 v'.slave 0 (close v'.master table2))))))
    else some (
        close v.stderr_pipe.1
          (close v.stdout_pipe.1 (dup2 v.stderr_pipe.1 2 (dup2 v.stdout_pipe.1 1 table1))))
