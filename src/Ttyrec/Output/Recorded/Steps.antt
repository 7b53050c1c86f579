-- ===== src/Ttyrec/Output/Recorded/Steps.antt =====
-- The rounds of `dooutput`, the pipes and a rotation, and the recordings.
use ovh_ttyrec.Base.{
  Bool, [], append-nil, false, if◌then◌else◌, not, refl, true, ◌&&◌, ◌++◌, ◌∙◌, ◌∷◌, ◌≡◌,
}
use ovh_ttyrec.Stdio.{Fwrite}
use ovh_ttyrec.Header.{Timeval}
use ovh_ttyrec.Io.{Endian}
use ovh_ttyrec.Ttyrec.Output.{
  ReadResult, bytes, eof, read_eintr, read_error, Fd, fd_stdout, fd_stderr, Round, SelectResult,
  Output, Loop, goes_on, ends, Options, stealth, close_pipe, read_pipe, round_on_tty,
  round_on_pipes, select_error, nothing_ready, ready,
}
use ovh_ttyrec.Ttyrec.Output.Recorded.{Reliable, all_payloads, Faithful, GoodRead, HoldsAfter}
use ovh_ttyrec.Ttyrec.Output.Recorded.Snoc.{all_payloads_snoc, AreRecordings-snoc}
use ovh_ttyrec.Ttyrec.Output.Recorded.Copy.{copy-Faithful}

module _ {S : Type 0} (fw : Fwrite S) (fc : S → S) (good : Reliable S fw fc) (e : Endian)
    (o : Options) (hide : Fd → Bool) where
  open good use {view, appends, closes}

  -- Only the fields that the recordings do not depend on differ.
  pub same_files :
      (s s' : Output S)
      → s'.files ≡ s.files
      → s'.shown ≡ s.shown
      → Faithful view e hide s
      → Faithful view e hide s'
  same_files s s' p q f = record {
    closed = f.closed;
    current = f.current;
    closed_hold = rw p f.closed_hold;
    current_holds = rw p f.current_holds;
    current_plays = f.current_plays;
    all_kept = rw q f.all_kept;
  }

  last_or_not :
      (b : Bool) (s : Output S)
      → Faithful view e hide s
      → HoldsAfter (Faithful view e hide) (if b then ends s else goes_on s)
  last_or_not true s f = f
  last_or_not false s f = f

  close_pipe-Faithful :
      (target : Fd) (s : Output S)
      → Faithful view e hide s
      → HoldsAfter (Faithful view e hide) (close_pipe fw fc e o target s)
  unfolding close_pipe
  close_pipe-Faithful fd_stdout s f =
      let s' = record s { stdout_pipe_opened = false } in
      last_or_not (not s.stderr_pipe_opened) s' (same_files s s' refl refl f)
  close_pipe-Faithful fd_stderr s f =
      let s' = record s { stderr_pipe_opened = false } in
      last_or_not (not s.stdout_pipe_opened) s' (same_files s s' refl refl f)

  -- By what `read` gave.
  read_pipe-Faithful :
      (target : Fd) (got : ReadResult) (r : Round) (s : Output S)
      → r.got ≡ got
      → hide target ≡ stealth o target
      → GoodRead r got
      → Faithful view e hide s
      → HoldsAfter (Faithful view e hide) (read_pipe fw fc e o target r s)
  unfolding read_pipe
  read_pipe-Faithful target (bytes obuf) r s g h d f =
      rw (g, read_pipe) (copy-Faithful fw fc good e o hide target (stealth o target) r obuf s h d f)
  read_pipe-Faithful target eof r s g h d f = rw (g, read_pipe) (close_pipe-Faithful target s f)
  read_pipe-Faithful target read_eintr r s g h d f = rw (g, read_pipe) f
  read_pipe-Faithful target read_error r s g h d f =
      rw (g, read_pipe) (close_pipe-Faithful target s f)

  pub tty-Faithful :
      (got : ReadResult) (r : Round) (s : Output S)
      → r.got ≡ got
      → hide fd_stdout ≡ false
      → GoodRead r got
      → Faithful view e hide s
      → HoldsAfter (Faithful view e hide) (round_on_tty fw fc e o r s)
  unfolding round_on_tty
  tty-Faithful (bytes obuf) r s g h d f =
      rw (g, round_on_tty) (copy-Faithful fw fc good e o hide fd_stdout false r obuf s h d f)
  tty-Faithful eof r s g h d f = rw (g, round_on_tty) f
  tty-Faithful read_eintr r s g h d f = rw (g, round_on_tty) f
  tty-Faithful read_error r s g h d f = rw (g, round_on_tty) f

  either {ℓ} : (b : Bool) (P : Loop S → Type ℓ) (x y : Loop S) → P x → P y → P (if b then x else y)
  either true P x y h k = h
  either false P x y h k = k

  pub pipes-Faithful :
      (ready_set : SelectResult) (r : Round) (s : Output S)
      → hide fd_stdout ≡ stealth o fd_stdout
      → hide fd_stderr ≡ stealth o fd_stderr
      → GoodRead r r.got
      → Faithful view e hide s
      → HoldsAfter (Faithful view e hide) (round_on_pipes fw fc e o ready_set r s)
  unfolding round_on_pipes
  pipes-Faithful select_error r s ho he d f = f
  pipes-Faithful nothing_ready r s ho he d f = f
  pipes-Faithful (ready err out) r s ho he d f =
      let P = HoldsAfter (Faithful view e hide) in
      let on_err = read_pipe fw fc e o fd_stderr r s in
      let on_out = read_pipe fw fc e o fd_stdout r s in
      let second = out && s.stdout_pipe_opened in
      either (err && s.stderr_pipe_opened) P on_err (if second then on_out else goes_on s)
        (read_pipe-Faithful fd_stderr r.got r s refl he d f)
        (either second P on_out (goes_on s) (read_pipe-Faithful fd_stdout r.got r s refl ho d f) f)

  -- A rotation closes the recording that was current, and begins an empty one.
  pub rotate-Faithful :
      (now : Timeval) (new : S) (s : Output S)
      → view new ≡ []
      → Faithful view e hide s
      → Faithful view e hide (record s {
        files = record {
          fscript = new;
          finished = s.files.finished ++ fc s.files.fscript ∷ [];
          last_rotate = now;
        };
      })
  rotate-Faithful now new s h f = record {
    closed = f.closed ++ f.current ∷ [];
    current = [];
    closed_hold =
        AreRecordings-snoc view e s.files.finished f.closed (fc s.files.fscript) f.current
          f.closed_hold (closes s.files.fscript ∙ f.current_holds) f.current_plays;
    current_holds = h;
    current_plays = tt;
    all_kept =
        append-nil (all_payloads (f.closed ++ f.current ∷ []))
        ∙ all_payloads_snoc f.closed f.current
        ∙ f.all_kept;
  }
