-- ===== src/Ttyrec/Shutdown/Once.antt =====
-- How often a process closes its file and exits.
use ovh_ttyrec.Base.{
  Bool, Bool-cases, List, [], arith, false, if◌then◌else◌, inl, inr, ltb, map, refl, true, ℕ, ◌&&◌,
  ◌++◌, ◌+◌, ◌==◌, ◌∷◌, ◌≡◌, ◌≤◌,
}
use ovh_ttyrec.Ttyrec.Process.{sigterm, sigusr2, Effect, kill, puts}
use ovh_ttyrec.Ttyrec.Session.{unlock_session}
use ovh_ttyrec.Ttyrec.Shutdown.{
  Last, calls, fclose_script, close_master, tcsetattr, exits, Ending, Moment, wexitstatus, unlock,
  leave, done, end_session, fail, sigterm_handler, sighup_handler, reap, finish,
}

-- How often the file is closed, and how often `exit` is called.
abbrev pub closes : List Last → ℕ
closes [] = 0
closes (fclose_script ∷ more) = closes more + 1
closes (calls e ∷ more) = closes more
closes (close_master ∷ more) = closes more
closes (tcsetattr ∷ more) = closes more
closes (exits n ∷ more) = closes more

abbrev pub exit_calls : List Last → ℕ
exit_calls [] = 0
exit_calls (exits n ∷ more) = exit_calls more + 1
exit_calls (calls e ∷ more) = exit_calls more
exit_calls (fclose_script ∷ more) = exit_calls more
exit_calls (close_master ∷ more) = exit_calls more
exit_calls (tcsetattr ∷ more) = exit_calls more

pub closes-append : (xs ys : List Last) → closes (xs ++ ys) ≡ closes xs + closes ys
closes-append [] ys = omega arith
closes-append (fclose_script ∷ xs) ys = omega (arith, closes-append xs ys)
closes-append (calls e ∷ xs) ys = closes-append xs ys
closes-append (close_master ∷ xs) ys = closes-append xs ys
closes-append (tcsetattr ∷ xs) ys = closes-append xs ys
closes-append (exits n ∷ xs) ys = closes-append xs ys

pub exit_calls-append : (xs ys : List Last) → exit_calls (xs ++ ys) ≡ exit_calls xs + exit_calls ys
exit_calls-append [] ys = omega arith
exit_calls-append (exits n ∷ xs) ys = omega (arith, exit_calls-append xs ys)
exit_calls-append (calls e ∷ xs) ys = exit_calls-append xs ys
exit_calls-append (fclose_script ∷ xs) ys = exit_calls-append xs ys
exit_calls-append (close_master ∷ xs) ys = exit_calls-append xs ys
exit_calls-append (tcsetattr ∷ xs) ys = exit_calls-append xs ys

only_calls : (es : List Effect) → (closes (map calls es) ≡ 0) × (exit_calls (map calls es) ≡ 0)
only_calls [] = (refl, refl)
only_calls (e ∷ es) = only_calls es

-- What can end the process.
pub data Cause : Type 0 where
  failing : Moment → Cause
  term : Moment → Moment → Cause
  hup : Moment → Cause
  chld : Moment → List (ℕ × ℕ) → Cause

unfoldable pub handle : Cause → Ending → Ending × List Last
handle (failing m) s = fail m s
handle (term m m') s = sigterm_handler m m' s
handle (hup m) s = sighup_handler m s
handle (chld m ended) s = finish m ended s

unfoldable pub handle_all : List Cause → Ending → Ending × List Last
handle_all [] s = (s, [])
handle_all (c ∷ causes) s =
    let (s1, first) = handle c s in let (s2, rest) = handle_all causes s1 in (s2, first ++ rest)

-- How often more it can be done.
abbrev pub left : Ending → ℕ
left s = if s.entered then 0 else 1

abbrev OnceAt : Ending → Ending × List Last → Type 0
OnceAt s (t, out) = (closes out + left t ≤ left s) × (exit_calls out + left t ≡ left s)

pub unlock_view :
    (m : Moment) (s : Ending)
    → ((unlock m s).0.entered ≡ s.entered)
      × (closes (unlock m s).1 ≡ 0)
      × (exit_calls (unlock m s).1 ≡ 0)
unfolding unlock
unlock_view m s =
    let none_of = only_calls (unlock_session m.now m.winsize sigusr2 s.process).1 in
    (refl, none_of.0, none_of.1)

leave_once :
    (m : Moment) (status : ℕ) (s : Ending)
    → let (t, out) = leave m status s in
      (t.entered ≡ s.entered) × (closes out ≤ 1) × (exit_calls out ≡ 1)
unfolding leave
leave_once m status s = elim (Bool-cases (s.process.subchild == 0)) [
  | inl e ↦ rw e (elim (Bool-cases (s.use_tty && s.parent_stdin_isatty)) [
    | inl tty ↦ rw tty (refl, omega arith, refl)
    | inr other ↦ rw other (refl, omega arith, refl)
  ])
  | inr e ↦
      let ended = fclose_script ∷ close_master ∷ exits (wexitstatus status) ∷ [] in
      let no = unlock_view m s in
      rw e (
        no.0,
        omega (arith, no.1, closes-append (unlock m s).1 ended),
        omega (arith, no.2, exit_calls-append (unlock m s).1 ended),
      )
]

done_once : (m : Moment) (status : ℕ) (s : Ending) → OnceAt s (done m status s)
unfolding done
done_once m status s = elim (Bool-cases s.entered) [
  | inl e ↦ rw e (ground (arith, e))
  | inr e ↦
      let body = leave_once m status (record s { entered = true }) in
      simp e (ground (arith, e, body))
]

pub end_session_view :
    (m : Moment) (s : Ending)
    → let (t, out) = end_session m s in
      (t.entered ≡ s.entered) × (closes out ≡ 0) × (exit_calls out ≡ 0)
unfolding end_session
end_session_view m s = elim (Bool-cases (ltb 0 s.process.subchild)) [
  | inl e ↦
      let more =
        calls (kill s.process.subchild sigterm) ∷ calls (puts "ttyrec: ending your session") ∷ [] in
      let no = unlock_view m s in
      rw e (
        no.0,
        omega (arith, no.1, closes-append (unlock m s).1 more),
        omega (arith, no.2, exit_calls-append (unlock m s).1 more),
      )
  | inr e ↦ rw e (refl, refl, refl)
]

reap_view :
    (ended : List (ℕ × ℕ)) (die : Bool) (s : Ending) → (reap ended die s).1.entered ≡ s.entered
unfolding reap
reap_view [] die s = refl
reap_view ((pid, status) ∷ ended) die s =
    let s1 = record s { childexit = status } in
    let a = reap_view ended die (record s1 { can_exit = true }) in
    let b = reap_view ended true s1 in let c = reap_view ended die s1 in ground (arith, a, b, c)

finish_once :
    (m : Moment) (ended : List (ℕ × ℕ)) (s : Ending)
    → let (t, out) = finish m ended s in
      (closes out + left t ≤ left s) × (exit_calls out + left t ≤ left s)
unfolding finish
finish_once m ended s =
    let view = reap_view ended false s in
    let s1 = (reap ended false s).1 in
    let all = done_once m s1.childexit s1 in
    elim (Bool-cases (reap ended false s).0) [
      | inl e ↦ rw (e, finish) (ground (arith, view, all))
      | inr e ↦ rw (e, finish) (ground (arith, view))
    ]

once :
    (c : Cause) (s : Ending)
    → (closes (handle c s).1 + left (handle c s).0 ≤ left s)
      × (exit_calls (handle c s).1 + left (handle c s).0 ≤ left s)
unfolding handle fail sigterm_handler sighup_handler finish
once (failing m) s = ground (arith, done_once m 1 s)
once (term m m') s =
    let before = end_session_view m s in
    let t = (end_session m s).0 in
    let out = (end_session m s).1 in
    let ended = done_once m' 0 t in
    ground (
      arith,
      before,
      ended,
      closes-append out (done m' 0 t).1,
      exit_calls-append out (done m' 0 t).1,
    )
once (hup m) s = ground (arith, done_once m 0 s)
once (chld m ended) s = finish_once m ended s

all_once :
    (causes : List Cause) (s : Ending)
    → let (t, out) = handle_all causes s in
      (closes out + left t ≤ left s) × (exit_calls out + left t ≤ left s)
unfolding handle_all
all_once [] s = (omega arith, omega arith)
all_once (c ∷ causes) s =
    let first = handle c s in
    let rest = handle_all causes first.0 in
    let here = once c s in
    let later = all_once causes first.0 in
    (
      omega (arith, here.0, later.0, closes-append first.1 rest.1),
      omega (arith, here.1, later.1, exit_calls-append first.1 rest.1),
    )

-- Whatever comes in turn, also while `exit` is under way (failures, SIGTERM, SIGHUP, children that end):
-- the file of the recording is closed at most once, and `exit` is called at most once.
pub closed_once :
    (causes : List Cause) (s : Ending)
    → let out = (handle_all causes s).1 in (closes out ≤ 1) × (exit_calls out ≤ 1)
closed_once causes s =
    let all = all_once causes s in
    let most : left s ≤ 1 = ground arith in (omega (arith, all.0, most), omega (arith, all.1, most))
