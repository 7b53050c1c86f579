-- ===== src/Lib.antt =====
-- Verification of ovh-ttyrec: a terminal recorder (ttyrec.c), a player (ttyplay.c) and a program that
-- tells how long a recording is (ttytime.c), which share the file format (io.c, ttyrec.h).
--
-- The parts. A recording is a sequence of records: a header of twelve bytes, and a payload.
--   * Header, Io: the header in memory and in the file, for a host of either byte order
--     (`read_header` and `write_header` of io.c). Io/Swap, Io/Layout and Io/RoundTrip are its
--     arithmetic, Io/Read what it does on a stream.
--   * Recording: the format as a specification, a list of records and the bytes that they are.
--   * Stdio: the stream functions of C, over a file that is a list of bytes (a device can be one that
--     cannot seek, ends in an input error or fills up).
--   * Ttytime: `calc_time` of ttytime.c, and in Ttytime/Main its `main`.
--   * Timeval: `timeval_diff` of ttyplay.c.
--   * Ttyplay: ttyplay.c. Read is `ttyread` and `ttypread`, Play the loop `ttyplay` and its uses, Wait
--     `ttywait`, Main the options and the input. Read/Source says what the player needs of any
--     `fread_wrapper` (`Source`), and Play/Any plays from one.
--   * Io/Open: the functions of io.c that open or duplicate, or end the program.
--   * Ttyrec: ttyrec.c. Process is the state that the handlers of signals change, and the calls
--     that leave the process; Session is `lock_session`, `unlock_session` and `do_lock`, and
--     Session/Storm the two processes that tell each other of locks; Rotation is `swing_output_file`;
--     Output is the loop of `dooutput`, in which the handlers run between the rounds. Watcher is a
--     round of `timeout_watcher`, Input the loop of `doinput` with `handle_cheatcodes`, in which the
--     handlers and the watcher run between the rounds, and CommandLine the options of `main`, their
--     checks and what they mean.
--     FileName is `set_ttyrec_file_name` and, in FileName/Script, what `main` does with a name, and
--     Shutdown the end of a process: `done`, `fail`, `finish` and the handlers of SIGTERM and SIGHUP;
--     Shutdown/Await is how `dooutput` and `doinput` wait for the process below them. Launch is `main`
--     from `fopen` on: the table of descriptors that each of the three processes has after `main`,
--     `getmaster`, `getslave` and `doshell`, and in Launch/Start what becomes of the terminal, with
--     `fixtty` and the handlers of SIGWINCH. Launch/Search is the search of `getmaster` through names.
--   * Compress: `set_compress_mode` of compress.c. Compress/Zstd is the writer of compress_zstd.c, over
--     the zstd library as a parameter (`Codec`); what the library documents is the record `Lossless`.
--     The recorder works over any writer that is `Reliable`; Compress/Zstd/Frames is the writer under
--     this interface. Compress/Zstd/Reader is `fread_wrapper_zstd`, over the other half of the library
--     (`Decoder`, `Inflates`); Compress/Zstd/Reader/Source makes it a `Source` for the player, and
--     Compress/Zstd/Replay plays what was recorded, and Compress/Zstd/Session all files of a session
--     with rotations, as Ttyrec/Output/Recorded/Rotated does without compression.
--   * Examples: runs at concrete inputs.
-- Base has what the modules share: lists with a length in the native numbers, integers that `omega`
-- reads, bit operations as arithmetic.
--
-- How C is modelled. A state is a record that is passed on, a handler gives its calls as a list of
-- effects, and what the environment decides (the clock, `read`, `write`, `select`, `fopen`, `malloc`,
-- the moment of a signal) is an argument or an event. A signal comes between two rounds of a loop
-- and not inside one. `int` is 32 bits wide, `long` and `time_t` 64, and wrap-around is written out
-- where the code can wrap; a byte is a number.
--
-- Bounds. `ttyplay_loop` and `last_header` take a number of rounds, and `none` is its end: a round of
-- the first takes a record from the file, and one of the second twelve bytes at least, so that one
-- round more than there are records, or bytes, is enough.
-- The loop of `fwrite_wrapper_zstd` takes one round for each byte of its input and one more, which is
-- enough where the library takes some input in each call.
-- `ttypread` takes the list of what happens to the file in each of its sleeps.
--
-- `fread_wrapper_zstd` takes one round for each byte that is wanted or stands in its input buffer, two
-- for each that is left in the file, and one more: a call of the library takes or gives a byte at
-- least, and a read brings one at least.
--
-- Not modelled: printing (debug output, help, messages); `sigaction`; the repairs that `getmaster` makes on
-- a terminal without modes; what only other systems have (`/dev/ptmx`, STREAMS). The arithmetic of
-- `double` is a parameter.
pub mod Base
pub mod Stdio
pub mod Header
pub mod Io
pub mod Timeval
pub mod Recording
pub mod Compress
pub mod Ttytime
pub mod Ttyplay
pub mod Ttyrec
pub mod Examples
