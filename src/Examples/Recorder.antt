-- ===== src/Examples/Recorder.antt =====
-- A run of the recorder of ttyrec.c, and of the player on what it recorded.
use ovh_ttyrec.Base.{
  Bool, List, [], arith, false, inl, length, map, none, pos, refl, some, true, ℕ, ◌++◌, ◌∷◌, ◌≡◌,
}
use ovh_ttyrec.Stdio.{Fwrite}
use ovh_ttyrec.Io.{little, big, encode_header, write_header, word_bytes}
use ovh_ttyrec.Ttyplay.Play.{ttynowait}
use ovh_ttyrec.Ttyrec.Session.{lock_session, unlock_session}
use ovh_ttyrec.Ttyrec.Session.Storm.{Circumstance}
use ovh_ttyrec.Ttyrec.Output.{
  usr1, bytes, eof, accepted, Fd, fd_stdout, Round, Event, tty_round, urg, usr2, Output, Options,
  write_record, account, copy, round_on_tty, handle_event, dooutput,
}
use ovh_ttyrec.Ttyrec.Output.Recorded.{Reliable, kept, Faithful, AllSane, Dated}
use ovh_ttyrec.Ttyrec.Output.Recorded.Events.{dooutput-Faithful}
use ovh_ttyrec.Ttyrec.Rotation.{coalesced, swing_output_file, swing_in_child}
use ovh_ttyrec.Ttyrec.Output.Recorded.Rotated.{all_files, player, play_each, all_files_replay}

-- A file that takes everything.
abbrev append_all : Fwrite (List ℕ)
append_all bs size nmemb s = (nmemb, s ++ bs)

abbrev close_it : List ℕ → List ℕ
close_it s = s

abbrev append_all-Reliable : Reliable (List ℕ) append_all close_it
append_all-Reliable = record {
  view = λ s. s;
  appends = λ bs size nmemb s h. refl;
  closes = λ s. refl;
}

abbrev nothing_stealth : Options
nothing_stealth = record { opt_stealth_stdout = false; opt_stealth_stderr = false }

abbrev hide_none : Fd → Bool
hide_none fd = false

abbrev at_begin : Output (List ℕ)
at_begin = record {
  process = record {
    child = 30;
    subchild = 30;
    ppid = 10;
    activity = record {
      last_activity = pos 900;
      locked_since = pos 0;
      lock_warned = false;
      kill_warned = false;
    };
  };
  files = record {
    fscript = [];
    finished = [];
    last_rotate = record { tv_sec = pos 0; tv_usec = pos 0 };
  };
  shown = [];
  bytes_out = 0;
  stdout_pipe_opened = false;
  stderr_pipe_opened = false;
  calls = [];
}

abbrev round_of : List ℕ → ℕ → Round
round_of obuf sec = record {
  got = bytes obuf;
  put = accepted (length obuf);
  clock = record { tv_sec = pos sec; tv_usec = pos 5 };
  now = pos sec;
}

abbrev moment : Circumstance
moment = record {
  now = pos 1001;
  rand = 3;
  hostname = "host";
  message = none;
  winsize = record { ws_row = 24; ws_ypixel = 0 };
}

-- Two bytes, a lock, a byte that is lost, an unlock, a byte, and the end.
abbrev events : List (Event (List ℕ))
events =
    tty_round (round_of (104 ∷ 105 ∷ []) 1000)
    ∷ urg moment
    ∷ tty_round (round_of (33 ∷ []) 1002)
    ∷ usr2 moment
    ∷ tty_round (round_of (98 ∷ []) 1004)
    ∷ tty_round (record (round_of [] 1005) { got = eof })
    ∷ []

events-AllSane : AllSane append_all-Reliable.view nothing_stealth hide_none events
events-AllSane =
    let a : Dated (round_of (104 ∷ 105 ∷ []) 1000) (104 ∷ 105 ∷ []) = record {
      sec = 1000;
      usec = 5;
      clock_is = refl;
      sec_fits = omega arith;
      usec_fits = omega arith;
      fits_buffer = omega arith;
      delivered = inl refl;
    } in
    let b : Dated (round_of (33 ∷ []) 1002) (33 ∷ []) = record {
      sec = 1002;
      usec = 5;
      clock_is = refl;
      sec_fits = omega arith;
      usec_fits = omega arith;
      fits_buffer = omega arith;
      delivered = inl refl;
    } in
    let c : Dated (round_of (98 ∷ []) 1004) (98 ∷ []) = record {
      sec = 1004;
      usec = 5;
      clock_is = refl;
      sec_fits = omega arith;
      usec_fits = omega arith;
      fits_buffer = omega arith;
      delivered = inl refl;
    } in
    ((refl, a), (_, ((refl, b), (_, ((refl, c), ((refl, _), _))))))

at_begin-Faithful : Faithful append_all-Reliable.view little hide_none at_begin
at_begin-Faithful = record {
  closed = [];
  current = [];
  closed_hold = _;
  current_holds = refl;
  current_plays = _;
  all_kept = refl;
}

dooutput-Faithful_example :
    Faithful append_all-Reliable.view little hide_none
      (dooutput append_all close_it little nothing_stealth events at_begin)
dooutput-Faithful_example =
    dooutput-Faithful append_all close_it append_all-Reliable little nothing_stealth hide_none
      events at_begin events-AllSane at_begin-Faithful

-- What is lost while the session is locked is not shown, and not recorded.
shown_test :
    (dooutput append_all close_it little nothing_stealth events at_begin).shown
    ≡ (fd_stdout, 104 ∷ 105 ∷ []) ∷ (fd_stdout, 98 ∷ []) ∷ []
unfolding dooutput handle_event round_on_tty copy account write_record lock_session unlock_session
shown_test = refl

-- A rotation before the second byte that is shown.
abbrev rotating : List (Event (List ℕ))
rotating =
    tty_round (round_of (104 ∷ 105 ∷ []) 1000)
    ∷ usr1 (record { tv_sec = pos 1001; tv_usec = pos 0 }) (some [])
    ∷ tty_round (round_of (98 ∷ []) 1004)
    ∷ []

rotating-AllSane : AllSane append_all-Reliable.view nothing_stealth hide_none rotating
rotating-AllSane = (events-AllSane.0, (refl, (events-AllSane.1.1.1.1.0, _)))

abbrev rotated_session : Output (List ℕ)
rotated_session = dooutput append_all close_it little nothing_stealth rotating at_begin

two_files_test : map (λ f. length f) (all_files rotated_session) ≡ 14 ∷ 13 ∷ []
unfolding dooutput handle_event round_on_tty copy account write_record write_header encode_header
    word_bytes swing_output_file swing_in_child coalesced
two_files_test = refl

all_files_replay_example :
    play_each
      (player {E = ℕ} {D = ℕ} (λ n. true) (λ n p. refl) little big (ttynowait 0) 20 1 0)
      (map (λ f. f) (all_files rotated_session))
    ≡ some (kept hide_none rotated_session.shown)
unfolding dooutput handle_event round_on_tty copy account write_record write_header encode_header
    word_bytes swing_output_file swing_in_child coalesced
all_files_replay_example =
    all_files_replay {E = ℕ} {D = ℕ} (λ n. true) (λ n p. refl) little big (ttynowait 0) 20 1 0
      append_all close_it append_all-Reliable nothing_stealth hide_none rotating at_begin
      rotating-AllSane at_begin-Faithful (omega arith, (omega arith, _))
