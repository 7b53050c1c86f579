-- ===== src/Examples/Compressed.antt =====
-- Runs of ttyrec.c and ttyplay.c with compression on, with a rotation.
use ovh_ttyrec.Base.{
  List, [], false, inl, length, negsuc, none, pos, refl, some, ℕ, ◌*◌, ◌++◌, ◌+◌, ◌∷◌, ◌≡◌,
}
use ovh_ttyrec.Stdio.{Fwrite}
use ovh_ttyrec.Base.Int.{◌+ℤ◌}
use ovh_ttyrec.Io.{
  little, write_header, encode_header, word_bytes, convert_to_little_endian, is_little_endian,
}
use ovh_ttyrec.Compress.Zstd.{
  Stream, fwrite_wrapper_zstd, fclose_wrapper_zstd, open_stream, feed, sync, synced,
}
use ovh_ttyrec.Compress.Zstd.Session.{after_close, stored}
use ovh_ttyrec.Compress.Zstd.Replay.{KnownFile, recorded, known_bytes, closed_file}
use ovh_ttyrec.Ttyrec.Output.{
  usr1, bytes, accepted, Event, tty_round, Output, Options, dooutput, handle_event, round_on_tty,
  copy, account, write_record,
}
use ovh_ttyrec.Ttyrec.Output.Recorded.{Reliable}
use ovh_ttyrec.Examples.Pairs.{unpair, Keeper, pairing, pairing-Lossless}

-- A recording of one round with compression on.
abbrev append_all : Fwrite (List ℕ)
append_all bs size nmemb s = (nmemb, s ++ bs)

abbrev append_all-Reliable : Reliable (List ℕ) append_all (λ s. s)
append_all-Reliable = record {
  view = λ s. s;
  appends = λ bs size nmemb s h. refl;
  closes = λ s. refl;
}

abbrev PairedFile : Type 0
PairedFile =
    KnownFile pairing pairing-Lossless append_all (λ s. s) append_all-Reliable
      (λ bs size nmemb f h. refl) (negsuc 0) (pos 15)

abbrev paired_bytes : PairedFile → List ℕ
paired_bytes =
    known_bytes pairing pairing-Lossless append_all (λ s. s) append_all-Reliable
      (λ bs size nmemb f h. refl) (negsuc 0) (pos 15)

abbrev new_file : Stream Keeper (List ℕ)
new_file = record {
  cstream = none;
  last_sync = pos 0;
  file = [];
  clock = λ n. pos (1000 + 10 * n);
  readings = 0;
  exit_code = none;
}

abbrev new_known_file : PairedFile
new_known_file = (
  new_file,
  record { base = []; whole = []; is_frames = ([], refl); state = inl (refl, refl, refl) },
)

abbrev no_options : Options
no_options = record { opt_stealth_stdout = false; opt_stealth_stderr = false }

abbrev at_begin : Output PairedFile
at_begin = record {
  process = record {
    child = 30;
    subchild = 30;
    ppid = 10;
    activity = record {
      last_activity = pos 900;
      locked_since = pos 0;
      lock_warned = false;
      kill_warned = false;
    };
  };
  files = record {
    fscript = new_known_file;
    finished = [];
    last_rotate = record { tv_sec = pos 0; tv_usec = pos 0 };
  };
  shown = [];
  bytes_out = 0;
  stdout_pipe_opened = false;
  stderr_pipe_opened = false;
  calls = [];
}

abbrev one_round : List (Event PairedFile)
one_round =
    tty_round (record {
      got = bytes (104 ∷ 105 ∷ []);
      put = accepted 2;
      clock = record { tv_sec = pos 1000; tv_usec = pos 5 };
      now = pos 1000;
    })
    ∷ []

abbrev done_recording : Output PairedFile
done_recording =
    recorded pairing pairing-Lossless append_all (λ s. s) append_all-Reliable
      (λ bs size nmemb f h. refl) (negsuc 0) (pos 15) little no_options one_round at_begin

abbrev closed_bytes : List ℕ
closed_bytes =
    closed_file pairing pairing-Lossless append_all (λ s. s) append_all-Reliable
      (λ bs size nmemb f h. refl) (negsuc 0) (pos 15) done_recording

recorded_one : done_recording.files.finished ≡ []
unfolding dooutput handle_event round_on_tty copy account
recorded_one = refl

closed_length : length (unpair closed_bytes) ≡ 14
unfolding dooutput handle_event round_on_tty copy account write_record write_header encode_header
    word_bytes convert_to_little_endian is_little_endian fwrite_wrapper_zstd open_stream feed sync
    synced fclose_wrapper_zstd ◌+ℤ◌
closed_length = refl

-- A rotation between two rounds, with compression on.
abbrev rotating : List (Event PairedFile)
rotating =
    one_round
    ++ usr1 (record { tv_sec = pos 1001; tv_usec = pos 0 }) (some new_known_file)
      ∷ tty_round (record {
        got = bytes (106 ∷ []);
        put = accepted 1;
        clock = record { tv_sec = pos 1002; tv_usec = pos 5 };
        now = pos 1002;
      })
      ∷ []

abbrev rotated_session : Output PairedFile
rotated_session =
    after_close pairing pairing-Lossless append_all (λ s. s) append_all-Reliable
      (λ bs size nmemb f h. refl) (negsuc 0) (pos 15)
      (recorded pairing pairing-Lossless append_all (λ s. s) append_all-Reliable
        (λ bs size nmemb f h. refl) (negsuc 0) (pos 15) little no_options rotating at_begin)

abbrev stored_bytes : PairedFile → List ℕ
stored_bytes =
    stored pairing pairing-Lossless append_all (λ s. s) append_all-Reliable
      (λ bs size nmemb f h. refl) (negsuc 0) (pos 15)
