-- ===== src/Examples/Parent.antt =====
-- Runs of the parent of ttyrec.c: the options, the watcher and the input.
use ovh_ttyrec.Base.{
  List, Option, [], arith, false, inr, int_laws, length, none, pos, refl, some, take, true, ℕ, ℤ,
  ◌%◌, ◌++◌, ◌<ℤ◌, ◌<◌, ◌↔◌, ◌∷◌, ◌≡◌,
}
use ovh_ttyrec.Ttyrec.Process.{sigterm, sigurg, locked, Process}
use ovh_ttyrec.Base.Int.{◌-ℤ◌}
use ovh_ttyrec.Ttyrec.Session.Storm.{sends}
use ovh_ttyrec.Ttyrec.Watcher.{Limits, timeout_watcher}
use ovh_ttyrec.Ttyrec.Watcher.Late.{watcher_locks}
use ovh_ttyrec.Ttyrec.Watcher.Rounds.{watcher_kills}
use ovh_ttyrec.Ttyrec.Input.{
  ctrl_l, ctrl_k, ctrl_i, handle_cheatcodes, lock_key, kill_key, next_of_kill, Event, typed, watch,
  Parent, doinput,
}
use ovh_ttyrec.Ttyrec.Input.Codes.{
  keys_of, trailing, kill_code, lock_code_iff, kill_code_needed, kill_code_works,
}
use ovh_ttyrec.Ttyrec.Input.Blocked.{locked_blocks}
use ovh_ttyrec.Ttyrec.CommandLine.{Text, opt_t, opt_k, opt_e, Opt, defaults}
use ovh_ttyrec.Ttyrec.Output.{bufsiz}
use ovh_ttyrec.Ttyrec.FileName.{marker, text_zst, set_ttyrec_file_name, replace_usec, six_digits}
use ovh_ttyrec.Ttyrec.FileName.Laws.{has_marker, set_ttyrec_file_name_lem}
use ovh_ttyrec.Ttyrec.CommandLine.Check.{settings_of}
use ovh_ttyrec.Ttyrec.CommandLine.Accepted.{HoldsOf}
use ovh_ttyrec.Ttyrec.CommandLine.Complete.{AreComplete, settings_of-AreComplete}

abbrev limits : Limits
limits = record {
  timeout_lock = pos 60;
  timeout_kill = pos 100;
  warn_before_lock_seconds = pos 10;
  warn_before_kill_seconds = pos 10;
  use_tty = true;
}

abbrev kill_only : Limits
kill_only = record limits { timeout_lock = pos 0; warn_before_lock_seconds = pos 0 }

abbrev parent_at : ℤ → Process
parent_at since = record {
  child = 20;
  subchild = 0;
  ppid = 1;
  activity = record {
    last_activity = pos 1000;
    locked_since = since;
    lock_warned = false;
    kill_warned = false;
  };
}

watcher_locks_example :
    ((sends 20 sigurg (timeout_watcher limits (pos 1061) (pos 1062) (parent_at (pos 0))).1 ≡ true)
      ↔ ((limits.use_tty ≡ true)
          × (locked (parent_at (pos 0)).activity ≡ false)
          × (pos 0 <ℤ limits.timeout_lock)
          × (limits.timeout_lock <ℤ pos 1061 -ℤ pos 1000)))
    × (sends 20 sigurg (timeout_watcher limits (pos 1061) (pos 1062) (parent_at (pos 0))).1 ≡ true
        → let a = (timeout_watcher limits (pos 1061) (pos 1062) (parent_at (pos 0))).0.activity in
          (a.locked_since ≡ pos 1062)
          × (pos 0 <ℤ limits.warn_before_lock_seconds → a.lock_warned ≡ true))
watcher_locks_example = watcher_locks limits (pos 1061) (pos 1062) (parent_at (pos 0))

-- A lock at 1061, a warning at 1092, the kill at 1102.
abbrev rounds : List (ℤ × ℤ)
rounds = (pos 1061, pos 1061) ∷ (pos 1092, pos 1092) ∷ []

watcher_kills_example :
    let q = (timeout_watcher kill_only (pos 1101) (pos 1101) (parent_at (pos 0))).0 in
    sends q.child sigterm (timeout_watcher kill_only (pos 1102) (pos 1102) q).1 ≡ true
watcher_kills_example =
    watcher_kills kill_only (pos 1101) (pos 1101) (pos 1102) (pos 1102) (parent_at (pos 0)) refl
      (inr (ground arith)) (ground arith) (omega int_laws) (omega int_laws)

abbrev seven : List ℕ
seven = ctrl_l ∷ ctrl_l ∷ ctrl_l ∷ ctrl_l ∷ ctrl_l ∷ ctrl_l ∷ ctrl_l ∷ []

lock_code_iff_example :
    (sends 20 sigurg (handle_cheatcodes true (pos 5) ctrl_l (keys_of seven) (parent_at (pos 0))).2
      ≡ true)
    ↔ ((ctrl_l ≡ ctrl_l) × (trailing (ctrl_l ∷ seven) % 8 ≡ 0))
lock_code_iff_example = lock_code_iff seven (pos 5) ctrl_l (parent_at (pos 0))

kill_code_needed_example : take 8 kill_code ≡ kill_code
unfolding handle_cheatcodes keys_of kill_key lock_key next_of_kill
kill_code_needed_example =
    kill_code_needed (ctrl_l ∷ ctrl_i ∷ ctrl_k ∷ ctrl_l ∷ ctrl_l ∷ ctrl_i ∷ ctrl_k ∷ []) (pos 5)
      ctrl_l (parent_at (pos 0)) refl

kill_code_works_example :
    sends 20 sigterm
      (handle_cheatcodes true
        (pos 5)
        ctrl_l
        (keys_of (ctrl_l ∷ ctrl_i ∷ ctrl_k ∷ ctrl_l ∷ ctrl_l ∷ ctrl_i ∷ ctrl_k ∷ 65 ∷ ctrl_k ∷ []))
        (parent_at (pos 0))).2
    ≡ true
kill_code_works_example =
    kill_code_works (ctrl_k ∷ []) (pos 5) 65 (parent_at (pos 0)) (ground arith) (ground arith)
      (ground arith)

-- One ^K too many in front, and the code is not seen.
kill_code_spoiled_test :
    sends 20 sigterm
      (handle_cheatcodes true
        (pos 5)
        ctrl_l
        (keys_of (ctrl_l ∷ ctrl_i ∷ ctrl_k ∷ ctrl_l ∷ ctrl_l ∷ ctrl_i ∷ ctrl_k ∷ ctrl_k ∷ []))
        (parent_at (pos 0))).2
    ≡ false
unfolding handle_cheatcodes keys_of kill_key lock_key next_of_kill
kill_code_spoiled_test = refl

abbrev parent : ℤ → Parent
parent since = record { process = parent_at since; keys = keys_of []; master = 36 ∷ []; calls = [] }

abbrev typing : List Event
typing = typed (108 ∷ 115 ∷ []) (pos 1001) (some 2) ∷ typed (10 ∷ []) (pos 1002) (some 1) ∷ []

locked_blocks_example :
    let t = doinput true limits (watch (pos 1090) (pos 1090) ∷ typing) (parent (pos 1061)) in
    (t.master ≡ 36 ∷ []) × (locked t.process.activity ≡ true)
locked_blocks_example =
    locked_blocks true limits (watch (pos 1090) (pos 1090) ∷ typing) (parent (pos 1061))
      (ground arith) refl

-- A `strtol` that knows two numbers, and the options of the limits above.
abbrev some_strtol : Text → Option ℤ
some_strtol [] = none
some_strtol (c ∷ []) = some (pos c)
some_strtol (c ∷ d ∷ ds) = none

abbrev bin_sh : Text
bin_sh = 47 ∷ 98 ∷ 105 ∷ 110 ∷ 47 ∷ 115 ∷ 104 ∷ []

abbrev two_options : List Opt
two_options = opt_t (60 ∷ []) ∷ opt_k (100 ∷ []) ∷ opt_e (108 ∷ 115 ∷ []) ∷ []

settings_of-AreComplete_example :
    HoldsOf AreComplete (settings_of some_strtol true true bin_sh (49 ∷ []) two_options [] defaults)
settings_of-AreComplete_example =
    settings_of-AreComplete some_strtol true true bin_sh (49 ∷ []) two_options []

-- The place holder alone, as a format.
name_test :
    set_ttyrec_file_name true [] (some (97 ∷ marker)) 1234 true
    ≡ some (97 ∷ 48 ∷ 48 ∷ 49 ∷ 50 ∷ 51 ∷ 52 ∷ text_zst)
unfolding set_ttyrec_file_name replace_usec six_digits
name_test = refl

set_ttyrec_file_name_lem_example :
    (body : Text) × (set_ttyrec_file_name true [] (some (97 ∷ marker)) 1234 true
      ≡ some (body ++ text_zst))
    × (length (body ++ text_zst) < bufsiz)
    × (true ≡ true → (has_marker body ≡ false) × (length body ≡ 7))
set_ttyrec_file_name_lem_example = set_ttyrec_file_name_lem true [] (97 ∷ marker) 1234 true
