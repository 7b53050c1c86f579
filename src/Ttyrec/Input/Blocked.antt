-- ===== src/Ttyrec/Input/Blocked.antt =====
-- What `doinput` passes on, locked and unlocked.
use ovh_ttyrec.Base.{
  Bool, Bool-cases, List, [], ap, append-nil, append_assoc, arith, false, inl, inr, length, refl,
  some, sym, take_all, true, ℕ, ℤ, ◌++◌, ◌<◌, ◌∙◌, ◌∷◌, ◌≡◌,
}
use ovh_ttyrec.Ttyrec.Process.{locked, Process}
use ovh_ttyrec.Ttyrec.Session.{lock_session}
use ovh_ttyrec.Ttyrec.Watcher.{Limits, watch_lock, watch_kill, warn_or_kill, timeout_watcher}
use ovh_ttyrec.Ttyrec.Input.{
  Event, typed, urg, usr2, watch, Parent, after_write, pass_on, handle_event, doinput,
  handle_cheatcodes,
}

-- Everything but an unlock.
abbrev pub NoUnlock : List Event → Type 0
NoUnlock [] = Unit
NoUnlock (usr2 c ∷ events) = ⊥
NoUnlock (_ ∷ events) = NoUnlock events

-- Only input, each time written as a whole, with its bytes.
abbrev pub all_typed : List Event → List ℕ
all_typed [] = []
all_typed (typed ibuf now put ∷ events) = ibuf ++ all_typed events
all_typed (_ ∷ events) = all_typed events

abbrev pub AllWritten : List Event → Type 0
AllWritten [] = Unit
AllWritten (typed ibuf now put ∷ events) =
    (0 < length ibuf) × (put ≡ some (length ibuf)) × AllWritten events
AllWritten (_ ∷ events) = ⊥

watcher_keeps_lock :
    (l : Limits) (now again : ℤ) (p : Process)
    → locked p.activity ≡ true
    → locked (timeout_watcher l now again p).0.activity ≡ true
unfolding timeout_watcher watch_lock watch_kill warn_or_kill
watcher_keeps_lock l now again p h = ground (arith, h)

module _ (codes : Bool) (l : Limits) where
  event_blocked :
      (event : Event) (s : Parent)
      → NoUnlock (event ∷ [])
      → locked s.process.activity ≡ true
      → let t = (handle_event codes l event s).1 in
        (t.master ≡ s.master) × (locked t.process.activity ≡ true)
  unfolding handle_event pass_on lock_session
  event_blocked (typed [] now put) s n h = (refl, h)
  event_blocked (typed (c ∷ cs) now put) s n h = rw h (refl, h)
  event_blocked (urg c) s n h = rw h (refl, h)
  event_blocked (usr2 c) s n h = absurd n
  event_blocked (watch now again) s n h = (refl, watcher_keeps_lock l now again s.process h)

  first_only :
      (event : Event) (events : List Event)
      → NoUnlock (event ∷ events)
      → NoUnlock (event ∷ []) × NoUnlock events
  first_only (typed ibuf now put) events n = (tt, n)
  first_only (urg c) events n = (tt, n)
  first_only (usr2 c) events n = absurd n
  first_only (watch now again) events n = (tt, n)

  -- Until an unlock comes, a locked session stays locked and gets nothing of what is typed, whatever the
  -- watcher and other locks do in between.
  pub locked_blocks :
      (events : List Event) (s : Parent)
      → NoUnlock events
      → locked s.process.activity ≡ true
      → let t = doinput codes l events s in
        (t.master ≡ s.master) × (locked t.process.activity ≡ true)
  unfolding doinput
  locked_blocks [] s n h = (refl, h)
  locked_blocks (event ∷ events) s n h =
      let here = event_blocked event s (first_only event events n).0 h in
      let t = (handle_event codes l event s).1 in
      let later = locked_blocks events t (first_only event events n).1 here.1 in
      elim (Bool-cases (handle_event codes l event s).0) [
        | inl on ↦ rw on (later.0 ∙ here.0, later.1)
        | inr off ↦ rw off here
      ]

-- Without the codes, a session that is not locked gets all that is typed.
typed_round :
    (l : Limits) (ibuf : List ℕ) (now : ℤ) (s : Parent)
    → 0 < length ibuf
    → locked s.process.activity ≡ false
    → let (on, t) = handle_event false l (typed ibuf now (some (length ibuf))) s in
      (on ≡ true) × (t.master ≡ s.master ++ ibuf) × (locked t.process.activity ≡ false)
unfolding handle_event pass_on after_write handle_cheatcodes
typed_round l [] now s h f = absurd (omega arith)
typed_round l (c ∷ []) now s h f = rw f (refl, refl, f)
typed_round l (c ∷ d ∷ cs) now s h f = rw f (
  refl,
  ap (λ (v : List ℕ). s.master ++ v) (take_all (length (c ∷ d ∷ cs)) (c ∷ d ∷ cs) (omega arith)),
  f,
)

-- With the codes disabled, everything that is typed into a session that is not locked is passed on,
-- in order.
pub typed_passes :
    (l : Limits) (events : List Event) (s : Parent)
    → AllWritten events
    → locked s.process.activity ≡ false
    → let t = doinput false l events s in
      (t.master ≡ s.master ++ all_typed events) × (locked t.process.activity ≡ false)
unfolding doinput
typed_passes l [] s w f = (sym (append-nil s.master), f)
typed_passes l (typed ibuf now put ∷ events) s w f =
    let here = typed_round l ibuf now s w.0 f in
    let t = (handle_event false l (typed ibuf now (some (length ibuf))) s).1 in
    let later = typed_passes l events t w.2 here.2 in
    rw (w.1, here.0)
      (
        later.0
            ∙ ap (λ (v : List ℕ). v ++ all_typed events) here.1
            ∙ append_assoc s.master ibuf (all_typed events),
        later.1,
      )
typed_passes l (urg c ∷ events) s w f = absurd w
typed_passes l (usr2 c ∷ events) s w f = absurd w
typed_passes l (watch now again ∷ events) s w f = absurd w
