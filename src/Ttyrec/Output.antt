-- ===== src/Ttyrec/Output.antt =====
-- `dooutput`: the child copies what the shell's process outputs to its own stdout or stderr, and
-- records it. Signal handlers run between the rounds of the loop.
pub mod Recorded
use Prim.Native.String.{String}
use ovh_ttyrec.Base.{
  Bool, List, Option, [], false, if◌then◌else◌, length, ltb, none, not, pos, some, take, ℕ, ℤ, ◌%◌,
  ◌&&◌, ◌++◌, ◌+◌, ◌^◌, ◌∷◌,
}
use ovh_ttyrec.Stdio.{Fwrite}
use ovh_ttyrec.Header.{Timeval, Header}
use ovh_ttyrec.Io.{Endian, write_header}
use ovh_ttyrec.Ttyrec.Process.{sigurg, sigusr2, Effect, locked, touch, Process}
use ovh_ttyrec.Ttyrec.Session.{lock_session, unlock_session}
use ovh_ttyrec.Ttyrec.Session.Storm.{Circumstance}
use ovh_ttyrec.Ttyrec.Rotation.{Files, swing_output_file}

-- BUFSIZ
abbrev pub bufsiz : ℕ
bufsiz = 8192

-- What `read` gives: bytes, 0, or -1 with EINTR or another error.
pub data ReadResult : Type 0 where
  bytes : List ℕ → ReadResult
  eof read_eintr read_error : ReadResult

-- What `write` gives: a number of bytes, or -1.
pub data WriteResult : Type 0 where
  accepted : ℕ → WriteResult
  write_eintr write_error : WriteResult

-- The two targets, stdout and stderr.
pub data Fd : Type 0 where
  fd_stdout fd_stderr : Fd

-- What one round of the loop meets.
pub record Round : Type 0 where
  pub got : ReadResult
  pub put : WriteResult
  -- `gettimeofday` and `time`.
  pub clock : Timeval
  pub now : ℤ

-- `select`: -1, 0, or which of the two pipes can be read.
pub data SelectResult : Type 0 where
  select_error nothing_ready : SelectResult
  ready : Bool → Bool → SelectResult

pub data Event (S : Type 0) : Type 0 where
  tty_round : Round → Event S
  pipe_round : SelectResult → Round → Event S
  urg : Circumstance → Event S
  usr2 : Circumstance → Event S
  usr1 : Timeval → Option S → Event S

-- The variables of the loop, the process's own and its files; `shown` is what was written to the
-- targets, in order, and `calls` what the handlers did.
pub record Output (S : Type 0) : Type 0 where
  pub process : Process
  pub files : Files S
  pub shown : List (Fd × List ℕ)
  pub bytes_out : ℕ
  pub stdout_pipe_opened : Bool
  pub stderr_pipe_opened : Bool
  pub calls : List Effect

-- Whether the loop goes on.
pub data Loop (S : Type 0) : Type 0 where
  goes_on : Output S → Loop S
  ends : Output S → Loop S

pub record Options : Type 0 where
  pub opt_stealth_stdout : Bool
  pub opt_stealth_stderr : Bool

-- Whether bytes for the target are kept out of the recording, in a round on pipes.
abbrev pub stealth : Options → Fd → Bool
stealth o fd_stdout = o.opt_stealth_stdout
stealth o fd_stderr = o.opt_stealth_stderr

module _ {S : Type 0} (fwrite_wrapper : Fwrite S) (fclose_wrapper : S → S) (e : Endian)
    (o : Options) where
  -- `write_header` and `fwrite_wrapper`, whose results are dropped.
  unfoldable pub write_record : Timeval → List ℕ → S → S
  write_record clock obuf s =
      let h : Header = record { tv = clock; len = pos (length obuf) } in
      let (done, s1) = write_header e fwrite_wrapper h s in
      let (n, s2) = fwrite_wrapper obuf 1 (length obuf) s1 in s2

  -- The assignments behind the `write`; `written` is what the target got.
  unfoldable pub account : Bool → Round → List ℕ → List (Fd × List ℕ) → Output S → Output S
  account dont_write r obuf written s = record s {
    files = record s.files {
      fscript = if dont_write then s.files.fscript else write_record r.clock obuf s.files.fscript;
    };
    shown = s.shown ++ written;
    bytes_out = (s.bytes_out + length obuf) % 2 ^ 64;
    process = record s.process { activity = touch r.now s.process.activity };
  }

  -- The end of a round: `obuf` holds the `cc` bytes that were read, none where `cc` is not positive.
  unfoldable pub copy : Fd → Bool → Round → List ℕ → Output S → Loop S
  copy target dont_write r obuf s =
      if not (locked s.process.activity) && ltb 0 (length obuf)
      then elim r.put [
        | accepted n ↦ goes_on (account dont_write r obuf ((target, take n obuf) ∷ []) s)
        | write_eintr ↦ goes_on (account dont_write r obuf [] s)
        | write_error ↦ ends s
      ]
      else goes_on s

  unfoldable pub round_on_tty : Round → Output S → Loop S
  unfolding copy
  round_on_tty r s = elim r.got [
    | bytes obuf ↦ copy fd_stdout false r obuf s
    | eof ↦ ends s
    | read_eintr ↦ goes_on s
    | read_error ↦ ends s
  ]

  -- A pipe that is at its end or broken is closed; with both closed the loop ends.
  unfoldable pub close_pipe : Fd → Output S → Loop S
  close_pipe fd_stderr s =
      let s' = record s { stderr_pipe_opened = false } in
      if not s'.stdout_pipe_opened then ends s' else goes_on s'
  close_pipe fd_stdout s =
      let s' = record s { stdout_pipe_opened = false } in
      if not s'.stderr_pipe_opened then ends s' else goes_on s'

  unfoldable pub read_pipe : Fd → Round → Output S → Loop S
  unfolding close_pipe copy
  read_pipe target r s = elim r.got [
    | bytes obuf ↦ copy target (stealth o target) r obuf s
    | eof ↦ close_pipe target s
    | read_eintr ↦ goes_on s
    | read_error ↦ close_pipe target s
  ]

  -- A pipe that was closed is in no set that `select` fills.
  unfoldable pub round_on_pipes : SelectResult → Round → Output S → Loop S
  unfolding read_pipe
  round_on_pipes select_error r s = goes_on s
  round_on_pipes nothing_ready r s = goes_on s
  round_on_pipes (ready err out) r s =
      if err && s.stderr_pipe_opened
      then read_pipe fd_stderr r s
      else if out && s.stdout_pipe_opened
      then read_pipe fd_stdout r s
      else goes_on s

  -- A handler's change of the process, and its calls.
  abbrev pub handled : Output S → Process × List Effect → Output S
  handled s (p, calls) = record s { process = p; calls = s.calls ++ calls }

  unfoldable pub handle_event : Event S → Output S → Loop S
  unfolding round_on_tty round_on_pipes
  handle_event (tty_round r) s = round_on_tty r s
  handle_event (pipe_round ready_set r) s = round_on_pipes ready_set r s
  handle_event (urg c) s =
      goes_on (handled s (lock_session c.now c.rand c.hostname c.message sigurg s.process))
  handle_event (usr2 c) s = goes_on (handled s (unlock_session c.now c.winsize sigusr2 s.process))
  handle_event (usr1 now opened) s =
      elim (swing_output_file fclose_wrapper now opened s.process s.files) [
        | none ↦ ends s
        | some (files, calls) ↦ goes_on (record s { files = files; calls = s.calls ++ calls })
      ]

  -- The loop, over what happens in turn.
  unfoldable pub dooutput : List (Event S) → Output S → Output S
  dooutput [] s = s
  dooutput (event ∷ events) s = elim (handle_event event s) [
    | goes_on s' ↦ dooutput events s'
    | ends s' ↦ s'
  ]
