-- ===== src/Examples/Zstd.antt =====
-- Runs of the writer of compress_zstd.c, over a library that keeps bytes back and does not compress.
use ovh_ttyrec.Base.{
  List, [], append-nil, append_assoc, arith, false, inl, inr, negsuc, none, pos, refl, some, sym, ℕ,
  ◌*◌, ◌++◌, ◌+◌, ◌∷◌, ◌≡◌,
}
use ovh_ttyrec.Base.Int.{◌+ℤ◌}
use ovh_ttyrec.Stdio.{Fwrite}
use ovh_ttyrec.Io.{little}
use ovh_ttyrec.Compress.Zstd.{
  Codec, Stream, fwrite_wrapper_zstd, fclose_wrapper_zstd, open_stream, feed, sync, synced,
}
use ovh_ttyrec.Compress.Zstd.Laws.{Lossless}
use ovh_ttyrec.Compress.Zstd.Frames.{Sound, sound_write, sound_close, zstd_reliable}
use ovh_ttyrec.Compress.Zstd.Recording.{write_all}
use ovh_ttyrec.Ttyrec.Output.{bytes, accepted, Event, tty_round, Output, Options}
use ovh_ttyrec.Ttyrec.Output.Recorded.{Reliable, Faithful, AllSane}

-- What was put out, and what is kept back.
record Keeper : Type 0 where
  pub out : List ℕ
  pub held : List ℕ

abbrev keeper : Codec Keeper
keeper = record {
  create = λ level. inr (record { out = []; held = [] });
  compress_stream = λ c input. elim input [
    | [] ↦ none
    | b ∷ rest ↦ some ([], 1, record c { held = c.held ++ b ∷ [] })
  ];
  flush_stream = λ c. some (c.held, record { out = c.out ++ c.held; held = [] });
  end_stream = λ c. c.held;
}

abbrev keeper-Lossless : Lossless keeper
keeper-Lossless = record {
  decode = λ xs. xs;
  IsFrames = λ xs. Unit;
  fed = λ c. c.out ++ c.held;
  emitted = λ c. c.out;
  creates = λ level. (record { out = []; held = [] }, refl, refl, refl);
  compresses = λ c b input. (
    [],
    1,
    record c { held = c.held ++ b ∷ [] },
    refl,
    omega arith,
    sym (append_assoc c.out c.held (b ∷ [])),
    sym (append-nil c.out),
  );
  flushes = λ c. (
    c.held,
    record { out = c.out ++ c.held; held = [] },
    refl,
    append-nil (c.out ++ c.held),
    refl,
  );
  no_frames = (_, refl);
  ends = λ xs c h. (_, refl);
}

abbrev append_all : Fwrite (List ℕ)
append_all bs size nmemb s = (nmemb, s ++ bs)

abbrev append_all-Reliable : Reliable (List ℕ) append_all (λ s. s)
append_all-Reliable = record {
  view = λ s. s;
  appends = λ bs size nmemb s h. refl;
  closes = λ s. refl;
}

-- A new file, and a clock that goes on by ten seconds at each reading.
abbrev new_file : Stream Keeper (List ℕ)
new_file = record {
  cstream = none;
  last_sync = pos 0;
  file = [];
  clock = λ n. pos (1000 + 10 * n);
  readings = 0;
  exit_code = none;
}

abbrev closing : Stream Keeper (List ℕ) → Stream Keeper (List ℕ)
closing = fclose_wrapper_zstd keeper append_all (λ s. s) (negsuc 0) (pos 15)

abbrev writing : List (List ℕ) → Stream Keeper (List ℕ) → Stream Keeper (List ℕ)
writing =
    write_all keeper keeper-Lossless append_all (λ s. s) append_all-Reliable
      (λ bs size nmemb f h. refl) (negsuc 0) (pos 15)

abbrev pieces : List (List ℕ)
pieces = (1 ∷ 2 ∷ []) ∷ (3 ∷ []) ∷ (4 ∷ []) ∷ []

-- After two pieces the library has been told to flush.
flushed_test : (writing ((1 ∷ 2 ∷ []) ∷ (3 ∷ []) ∷ []) new_file).file ≡ 1 ∷ 2 ∷ 3 ∷ []
unfolding fwrite_wrapper_zstd open_stream feed sync synced ◌+ℤ◌
flushed_test = refl

abbrev KnownFile : Type 0
KnownFile =
    Sound keeper keeper-Lossless append_all (λ s. s) append_all-Reliable (λ bs size nmemb f h. refl)
      (negsuc 0) (pos 15)

abbrev known_write : Fwrite KnownFile
known_write =
    sound_write keeper keeper-Lossless append_all (λ s. s) append_all-Reliable
      (λ bs size nmemb f h. refl) (negsuc 0) (pos 15)

abbrev known_close : KnownFile → KnownFile
known_close =
    sound_close keeper keeper-Lossless append_all (λ s. s) append_all-Reliable
      (λ bs size nmemb f h. refl) (negsuc 0) (pos 15)

abbrev known_view : KnownFile → List ℕ
known_view =
    (zstd_reliable keeper keeper-Lossless append_all (λ s. s) append_all-Reliable
      (λ bs size nmemb f h. refl) (negsuc 0) (pos 15)).view

abbrev new_known_file : KnownFile
new_known_file =
    (new_file, record { base = []; whole = []; is_frames = _; state = inl (refl, refl, refl) })

abbrev no_options : Options
no_options = record { opt_stealth_stdout = false; opt_stealth_stderr = false }

abbrev at_begin : Output KnownFile
at_begin = record {
  process = record {
    child = 30;
    subchild = 30;
    ppid = 10;
    activity = record {
      last_activity = pos 900;
      locked_since = pos 0;
      lock_warned = false;
      kill_warned = false;
    };
  };
  files = record {
    fscript = new_known_file;
    finished = [];
    last_rotate = record { tv_sec = pos 0; tv_usec = pos 0 };
  };
  shown = [];
  bytes_out = 0;
  stdout_pipe_opened = false;
  stderr_pipe_opened = false;
  calls = [];
}

abbrev one_round : List (Event KnownFile)
one_round =
    tty_round (record {
      got = bytes (104 ∷ 105 ∷ []);
      put = accepted 2;
      clock = record { tv_sec = pos 1000; tv_usec = pos 5 };
      now = pos 1000;
    })
    ∷ []

one_round-AllSane : AllSane known_view no_options (λ fd. false) one_round
one_round-AllSane = (
  (
    refl,
    record {
      sec = 1000;
      usec = 5;
      clock_is = refl;
      sec_fits = omega arith;
      usec_fits = omega arith;
      fits_buffer = omega arith;
      delivered = inl refl;
    },
  ),
  _,
)

at_begin-Faithful : Faithful known_view little (λ fd. false) at_begin
at_begin-Faithful = record {
  closed = [];
  current = [];
  closed_hold = _;
  current_holds = refl;
  current_plays = _;
  all_kept = refl;
}
