-- ===== src/Ttyrec/Output/Recorded.antt =====
-- The specification of what `dooutput` records: recordings, and what was shown.
pub mod Snoc
pub mod Copy
pub mod Steps
pub mod Events
pub mod EndToEnd
pub mod Rotated
pub mod Closed
use ovh_ttyrec.Base.{
  Bool, List, [], false, if◌then◌else◌, length, none, pos, some, ℕ, ◌*◌, ◌++◌, ◌<◌, ◌^◌, ◌∷◌, ◌≡◌,
  ◌≤◌, ◌⊎◌,
}
use ovh_ttyrec.Stdio.{Fwrite}
use ovh_ttyrec.Io.{Endian}
use ovh_ttyrec.Recording.{Record, file_bytes, payloads}
use ovh_ttyrec.Ttyplay.Play.Replay.{AllPlayable}
use ovh_ttyrec.Ttyrec.Output.{
  ReadResult, bytes, eof, read_eintr, read_error, WriteResult, accepted, write_error, Fd, fd_stdout,
  fd_stderr, Round, SelectResult, Event, tty_round, pipe_round, urg, usr2, usr1, Output, Loop,
  goes_on, ends, Options, stealth, bufsiz,
}

-- A writer that always takes everything it is given: the bytes that a file holds, and the laws of
-- the two functions.
pub record Reliable (S : Type 0) (fwrite_wrapper : Fwrite S) (fclose_wrapper : S → S) : Type 0 where
  pub view : S → List ℕ
  pub appends :
      (bs : List ℕ) (size nmemb : ℕ) (s : S)
      → length bs ≡ size * nmemb
      → view (fwrite_wrapper bs size nmemb s).1 ≡ view s ++ bs
  pub closes : (s : S) → view (fclose_wrapper s) ≡ view s

-- The bytes that were shown on the targets that are not hidden, in order.
abbrev pub kept : (Fd → Bool) → List (Fd × List ℕ) → List ℕ
kept hide [] = []
kept hide ((fd, bs) ∷ shown) = (if hide fd then [] else bs) ++ kept hide shown

abbrev pub all_payloads : List (List Record) → List ℕ
all_payloads [] = []
all_payloads (rs ∷ more) = payloads rs ++ all_payloads more

module _ {S : Type 0} (view : S → List ℕ) (e : Endian) where
  -- The files are these recordings, one by one.
  abbrev pub AreRecordings : List S → List (List Record) → Type 0
  AreRecordings [] [] = Unit
  AreRecordings (f ∷ fs) (rs ∷ more) =
      (view f ≡ file_bytes e rs) × AllPlayable rs × AreRecordings fs more
  AreRecordings _ _ = ⊥

  -- The state of the recorder: what its files hold.
  pub record Faithful (hide : Fd → Bool) (s : Output S) : Type 0 where
    pub closed : List (List Record)
    pub current : List Record
    pub closed_hold : AreRecordings s.files.finished closed
    pub current_holds : view s.files.fscript ≡ file_bytes e current
    pub current_plays : AllPlayable current
    pub all_kept : all_payloads closed ++ payloads current ≡ kept hide s.shown

-- A round whose bytes, if it has any, fit the buffer, are dated in range and are shown as a whole or
-- cannot be written at all.
pub record Dated (r : Round) (obuf : List ℕ) : Type 0 where
  pub sec : ℕ
  pub usec : ℕ
  pub clock_is : r.clock ≡ record { tv_sec = pos sec; tv_usec = pos usec }
  pub sec_fits : sec < 2 ^ 44
  pub usec_fits : usec < 2 ^ 20
  pub fits_buffer : length obuf ≤ bufsiz
  pub delivered : (r.put ≡ accepted (length obuf)) ⊎ (r.put ≡ write_error)

abbrev pub GoodRead : Round → ReadResult → Type 0
GoodRead r (bytes obuf) = Dated r obuf
GoodRead r _ = Unit

-- What is assumed of an event: the hidden targets are those that the kind of round hides, and a new
-- file is empty.
abbrev pub Sane : {S : Type 0} → (S → List ℕ) → Options → (Fd → Bool) → Event S → Type 0
Sane view o hide (tty_round r) = (hide fd_stdout ≡ false) × GoodRead r r.got
Sane view o hide (pipe_round ready_set r) =
    (hide fd_stdout ≡ stealth o fd_stdout)
    × (hide fd_stderr ≡ stealth o fd_stderr)
    × GoodRead r r.got
Sane view o hide (urg c) = Unit
Sane view o hide (usr2 c) = Unit
Sane view o hide (usr1 now none) = Unit
Sane view o hide (usr1 now (some new)) = view new ≡ []

abbrev pub AllSane : {S : Type 0} → (S → List ℕ) → Options → (Fd → Bool) → List (Event S) → Type 0
AllSane view o hide [] = Unit
AllSane view o hide (event ∷ events) = Sane view o hide event × AllSane view o hide events

-- A property of the state, whether the loop goes on or not.
abbrev pub HoldsAfter : {S : Type 0} → (Output S → Type 0) → Loop S → Type 0
HoldsAfter P (goes_on s) = P s
HoldsAfter P (ends s) = P s
