-- ===== src/Ttyrec/Input.antt =====
-- `doinput` and `handle_cheatcodes`: what the parent does with the characters that are typed.
pub mod Codes
pub mod Blocked
use ovh_ttyrec.Base.{
  Bool, List, Option, [], false, if◌then◌else◌, leb, none, not, some, take, true, ℕ, ℤ, ◌&&◌, ◌++◌,
  ◌+◌, ◌==◌, ◌||◌, ◌∷◌,
}
use ovh_ttyrec.Ttyrec.Process.{sigterm, sigurg, sigusr2, Effect, kill, locked, touch, Process}
use ovh_ttyrec.Ttyrec.Session.{do_lock, lock_session, unlock_session}
use ovh_ttyrec.Ttyrec.Session.Storm.{Circumstance}
use ovh_ttyrec.Ttyrec.Watcher.{Limits, timeout_watcher}

-- ^L, ^K and ^I.
abbrev pub ctrl_l : ℕ
ctrl_l = 0x0c

abbrev pub ctrl_k : ℕ
ctrl_k = 0x0b

abbrev pub ctrl_i : ℕ
ctrl_i = 0x09

-- The static variables of `handle_cheatcodes`.
pub record Keys : Type 0 where
  pub lockseq : ℕ
  pub killseq : ℕ

-- The test of the key that `killseq` waits for.
unfoldable pub next_of_kill : ℕ → ℕ → Bool
next_of_kill c killseq =
    (c == ctrl_k && (killseq == 0 || killseq == 4))
    || (c == ctrl_i && (killseq == 1 || killseq == 5))
    || (c == ctrl_l && (killseq == 2 || killseq == 3 || killseq == 6 || killseq == 7))

-- The lock: `lockseq`, and whether `do_lock` is called.
unfoldable pub lock_key : ℕ → ℕ → ℕ × Bool
lock_key c lockseq =
    if c == ctrl_l
    then (if leb 8 (lockseq + 1) then (0, true) else (lockseq + 1, false))
    else (0, false)

-- The kill: `killseq`, and whether the child is killed.
unfoldable pub kill_key : ℕ → ℕ → ℕ × Bool
kill_key c killseq =
    let next = (if next_of_kill c killseq then killseq + 1 else 0) in (next, leb 8 next)

unfoldable pub handle_cheatcodes : Bool → ℤ → ℕ → Keys → Process → Keys × Process × List Effect
handle_cheatcodes opt_cheatcodes now c keys p =
    if not opt_cheatcodes
    then (keys, p, [])
    else (let (lockseq, locks) = lock_key c keys.lockseq in
        let (killseq, kills) = kill_key c keys.killseq in
        let (p', locking) = (if locks then do_lock now p else (p, [])) in
        (
          record { lockseq = lockseq; killseq = killseq },
          p',
          locking ++ (if kills then kill p.child sigterm ∷ [] else []),
        ))

-- The parent: what was passed on to the terminal of the shell is `master`.
pub record Parent : Type 0 where
  pub process : Process
  pub keys : Keys
  pub master : List ℕ
  pub calls : List Effect

-- What happens in turn: a `read` with the clock that is read behind it and what `write` gives (`none`
-- is -1), a signal, or a round of the watcher.
pub data Event : Type 0 where
  typed : List ℕ → ℤ → Option ℕ → Event
  urg : Circumstance → Event
  usr2 : Circumstance → Event
  watch : ℤ → ℤ → Event

module _ (opt_cheatcodes : Bool) (l : Limits) where
  -- The end of a round: one character alone may be a part of a code.
  unfoldable pub after_write : List ℕ → ℤ → Parent → Parent
  after_write (c ∷ []) now s =
      let (keys, p, calls) = handle_cheatcodes opt_cheatcodes now c s.keys s.process in
      record s { keys = keys; process = p; calls = s.calls ++ calls }
  after_write _ now s = s

  -- The body of the loop, and whether the loop goes on: `false` is `fail`.
  unfoldable pub pass_on : List ℕ → ℤ → Option ℕ → Parent → Bool × Parent
  pass_on ibuf now put s = if locked s.process.activity then (true, s) else elim put [
    | none ↦ (false, s)
    | some n ↦ (
      true,
      after_write ibuf now (record s {
        master = s.master ++ take n ibuf;
        process = record s.process { activity = touch now s.process.activity };
      }),
    )
  ]

  abbrev pub handled : Parent → Process × List Effect → Parent
  handled s (p, calls) = record s { process = p; calls = s.calls ++ calls }

  unfoldable pub handle_event : Event → Parent → Bool × Parent
  unfolding pass_on
  handle_event (typed [] now put) s = (false, s)
  handle_event (typed (c ∷ cs) now put) s = pass_on (c ∷ cs) now put s
  handle_event (urg c) s =
      (true, handled s (lock_session c.now c.rand c.hostname c.message sigurg s.process))
  handle_event (usr2 c) s = (true, handled s (unlock_session c.now c.winsize sigusr2 s.process))
  handle_event (watch now again) s = (true, handled s (timeout_watcher l now again s.process))

  -- The loop, over what happens in turn.
  unfoldable pub doinput : List Event → Parent → Parent
  doinput [] s = s
  doinput (event ∷ events) s =
      let (on, s') = handle_event event s in let rest = doinput events s' in if on then rest else s'
