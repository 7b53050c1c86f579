-- ===== src/Compress/Zstd/Replay.antt =====
-- From end to end with compression: what `dooutput` of ttyrec.c records by compress_zstd.c, and what
-- `ttyplayback` of ttyplay.c plays from it.
use ovh_ttyrec.Base.{
  Bool, List, Option-cases, [], ap, append-nil, arith, inl, inr, length, none, refl, some, sym,
  true, ℕ, ℤ, ◌*◌, ◌++◌, ◌<◌, ◌∙◌, ◌≡◌, ◌≤◌,
}
use ovh_ttyrec.Stdio.{File, Fwrite}
use ovh_ttyrec.Io.{Endian}
use ovh_ttyrec.Recording.{Record, file_bytes, payloads}
use ovh_ttyrec.Ttyplay.Read.{max_record_len}
use ovh_ttyrec.Ttyplay.Play.{Player, WaitFunc, ttyplayback}
use ovh_ttyrec.Ttyplay.Play.Replay.{AllPlayable, all_waits}
use ovh_ttyrec.Ttyplay.Play.Any.{source_replays}
use ovh_ttyrec.Compress.Zstd.{Codec, Stream}
use ovh_ttyrec.Compress.Zstd.Laws.{Lossless}
use ovh_ttyrec.Compress.Zstd.Frames.{
  IsSound, close, close_closed, close_open, close_lem, Sound, sound_write, sound_close,
  zstd_reliable,
}
use ovh_ttyrec.Compress.Zstd.Recording.{file_of, closing, zstd_recording}
use ovh_ttyrec.Compress.Zstd.Reader.{Decoder, Unzip, zstd_input}
use ovh_ttyrec.Compress.Zstd.Reader.Laws.{Inflates, AreFrames, frames_bytes, contents}
use ovh_ttyrec.Compress.Zstd.Reader.Refine.{unopened}
use ovh_ttyrec.Compress.Zstd.Reader.Source.{zstd_source}
use ovh_ttyrec.Ttyrec.Output.{Fd, Event, Output, Options, dooutput}
use ovh_ttyrec.Ttyrec.Output.Recorded.{Reliable, kept, Faithful, AllSane}
use ovh_ttyrec.Ttyrec.Output.Recorded.EndToEnd.{opened_at_start, length-le-file_bytes}

-- The static variables of the reader before the first call, and a file.
abbrev pub fresh_unzip : {D : Type 0} → File → Unzip D
fresh_unzip f = record {
  dstream = none;
  to_read = 0;
  input = [];
  pending = [];
  file = f;
  exit_code = none;
}

-- A player that has not begun, on a file that is read from its beginning.
abbrev pub fresh_zstd_player : {D E : Type 0} → List ℕ → E → Player (Unzip D) E
fresh_zstd_player bytes env = record {
  input = fresh_unzip (opened_at_start bytes);
  out = [];
  env = env;
}

-- The two halves of the library fit each other: what the one calls frames is a sequence of frames to
-- the other, with the same content.
abbrev pub Agree :
    {C D : Type 0} (codec : Codec C) (decoder : Decoder D)
    → Lossless codec
    → Inflates decoder
    → Type 0
Agree codec decoder lossless inflates =
    (xs : List ℕ)
    → lossless.IsFrames xs
    → (fs : List (List ℕ × List ℕ)) × AreFrames decoder inflates fs
      × (xs ≡ frames_bytes fs)
      × (lossless.decode xs ≡ contents fs)

module _ {D E V : Type 0} (decoder : Decoder D) (inflates : Inflates decoder) (malloc : ℕ → Bool)
    (enough : (n : ℕ) → n ≤ max_record_len → malloc n ≡ true) (e e' : Endian)
    (wait : WaitFunc V E) where
  -- Playing a compressed recording, in however many frames it stands, from its beginning: the loop ends by
  -- itself, what is written to stdout is exactly what was recorded, in order, and the wait function
  -- was called once between any two records, with their times. So too where the last bytes are a
  -- header that was cut short.
  pub zstd_playback :
      (rs : List Record) (tail : List ℕ) (fs : List (List ℕ × List ℕ)) (rounds : ℕ) (speed : V)
      (env : E)
      → AllPlayable rs
      → length tail < 12
      → AreFrames decoder inflates fs
      → contents fs ≡ file_bytes e rs ++ tail
      → length rs < rounds
      → (s : Unzip D) × (ttyplayback
            (zstd_input decoder)
            malloc
            e'
            rounds
            speed
            wait
            (fresh_zstd_player (frames_bytes fs) env)
          ≡ some (record { input = s; out = payloads rs; env = all_waits wait speed env rs }))
  zstd_playback rs tail fs rounds speed env ok t frames same p =
      source_replays (zstd_input decoder) (zstd_source decoder inflates) malloc enough e e' wait rs
        tail rounds speed (fresh_zstd_player (frames_bytes fs) env) ok t
        (unopened fs refl refl refl refl frames refl (sym same)) p

module _ {C F : Type 0} (codec : Codec C) (lossless : Lossless codec) (fwrite : Fwrite F)
    (fclose : F → F) (good : Reliable F fwrite fclose)
    (counts : (bs : List ℕ) (size nmemb : ℕ) (f : F)
      → length bs ≡ size * nmemb
      → (fwrite bs size nmemb f).0 ≡ nmemb)
    (level flush_seconds : ℤ) where
  pub close-none :
      (s : Stream C F)
      → (close codec lossless fwrite fclose good counts level flush_seconds s).cstream ≡ none
  close-none s = elim (Option-cases s.cstream) [
    | inl shut ↦
        ap (λ (t : Stream C F). t.cstream)
          (close_closed codec lossless fwrite fclose good counts level flush_seconds s shut)
        ∙ shut
    | inr (c, is_open) ↦
        ap (λ (t : Stream C F). t.cstream)
          (close_open codec lossless fwrite fclose good counts level flush_seconds s c is_open)
  ]

  -- What a closed file holds is whole frames.
  pub close-IsFrames :
      (s : Stream C F)
      → IsSound codec lossless fwrite fclose good counts level flush_seconds s
      → lossless.IsFrames
          (good.view (close codec lossless fwrite fclose good counts level flush_seconds s).file)
  close-IsFrames s h =
      let closed = close_lem codec lossless fwrite fclose good counts level flush_seconds s h in
      elim closed.0.state [
        | inl (shut, stands, nothing) ↦ rw stands closed.0.is_frames
        | inr o ↦ cc (close-none s)
      ]

  abbrev pub KnownFile : Type 0
  KnownFile = Sound codec lossless fwrite fclose good counts level flush_seconds

  -- `dooutput` with compression on.
  abbrev pub recorded :
      Endian → Options → List (Event KnownFile) → Output KnownFile → Output KnownFile
  recorded =
      dooutput (sound_write codec lossless fwrite fclose good counts level flush_seconds)
        (sound_close codec lossless fwrite fclose good counts level flush_seconds)

  abbrev pub known_bytes : KnownFile → List ℕ
  known_bytes = (zstd_reliable codec lossless fwrite fclose good counts level flush_seconds).view

  -- What the file of the recording holds when it has been closed.
  abbrev pub closed_file : Output KnownFile → List ℕ
  closed_file t =
      file_of codec lossless fwrite fclose good counts level flush_seconds
        (closing codec lossless fwrite fclose good counts level flush_seconds t.files.fscript.0)

  -- With compression on and without a rotation: a player on a host of any byte order, with any speed and
  -- any wait function, that opens the closed file of the recording ends by itself and writes exactly
  -- the bytes that were shown on the targets that are not hidden. The library decompresses what it
  -- compressed, `malloc` gives every buffer up to MAX_RECORD_LEN, and there is one round more than
  -- the recording has bytes.
  pub zstd_replay :
      {D E V : Type 0} (decoder : Decoder D) (inflates : Inflates decoder) (malloc : ℕ → Bool)
      (e e' : Endian) (wait : WaitFunc V E) (o : Options) (hide : Fd → Bool)
      (events : List (Event KnownFile)) (s : Output KnownFile) (rounds : ℕ) (speed : V) (env : E)
      → Agree codec decoder lossless inflates
      → ((n : ℕ) → n ≤ max_record_len → malloc n ≡ true)
      → AllSane known_bytes o hide events
      → Faithful known_bytes e hide s
      → (recorded e o events s).files.finished ≡ []
      → length (lossless.decode (closed_file (recorded e o events s))) < rounds
      → (w : Player (Unzip D) E) × (ttyplayback
            (zstd_input decoder)
            malloc
            e'
            rounds
            speed
            wait
            (fresh_zstd_player (closed_file (recorded e o events s)) env)
          ≡ some w)
        × (w.out ≡ kept hide (recorded e o events s).shown)
  zstd_replay decoder inflates malloc e e' wait o hide events s rounds speed env agree enough sane
        known one p =
      let t = recorded e o events s in
      let (rs, bytes, playable, all) =
        zstd_recording codec lossless fwrite fclose good counts level flush_seconds e o hide events
          s (sane, known) one in
      let (fs, frames, whole, decoded) =
        agree (closed_file t) (close-IsFrames t.files.fscript.0 t.files.fscript.1) in
      let (end, played) =
        zstd_playback decoder inflates malloc enough e e' wait rs [] fs rounds speed env playable
          (omega arith) frames (sym decoded ∙ bytes ∙ sym (append-nil (file_bytes e rs)))
          (omega (arith, length-le-file_bytes e rs, ap length bytes)) in
      (
        record { input = end; out = payloads rs; env = all_waits wait speed env rs },
        ap
              (λ (xs : List ℕ).
                ttyplayback (zstd_input decoder) malloc e' rounds speed wait
                  (fresh_zstd_player xs env))
              whole
            ∙ played,
        all,
      )
