-- ===== src/Compress/Zstd/Recording.antt =====
-- Compressed recordings: what can be decompressed from a file that was closed.
use ovh_ttyrec.Base.{
  Bool, List, [], ap, append-nil, append_assoc, arith, inl, length, none, refl, sym, take, take_all,
  ℕ, ℤ, ◌*◌, ◌++◌, ◌∙◌, ◌∷◌, ◌≡◌,
}
use ovh_ttyrec.Stdio.{Fwrite}
use ovh_ttyrec.Io.{Endian}
use ovh_ttyrec.Recording.{Record, file_bytes, payloads}
use ovh_ttyrec.Ttyplay.Play.Replay.{AllPlayable}
use ovh_ttyrec.Compress.Zstd.{Codec, Stream}
use ovh_ttyrec.Compress.Zstd.Laws.{Lossless}
use ovh_ttyrec.Compress.Zstd.Frames.{
  IsSound, content, write, close, write_lem, close_lem, Sound, sound_write, sound_close,
  zstd_reliable,
}
use ovh_ttyrec.Ttyrec.Output.{Fd, Event, Output, Options, dooutput}
use ovh_ttyrec.Ttyrec.Output.Recorded.{Reliable, kept, Faithful, AllSane}
use ovh_ttyrec.Ttyrec.Output.Recorded.Events.{dooutput-Faithful}
use ovh_ttyrec.Ttyrec.Output.Recorded.EndToEnd.{none_closed}

module _ {C F : Type 0} (codec : Codec C) (lossless : Lossless codec) (fwrite : Fwrite F)
    (fclose : F → F) (good : Reliable F fwrite fclose)
    (counts : (bs : List ℕ) (size nmemb : ℕ) (f : F)
      → length bs ≡ size * nmemb
      → (fwrite bs size nmemb f).0 ≡ nmemb)
    (level flush_seconds : ℤ) where
  abbrev pub file_of : Stream C F → List ℕ
  file_of s = good.view s.file

  abbrev writing : Fwrite (Stream C F)
  writing = write codec lossless fwrite fclose good counts level flush_seconds

  abbrev pub closing : Stream C F → Stream C F
  closing = close codec lossless fwrite fclose good counts level flush_seconds

  -- A call for each piece.
  abbrev pub write_all : List (List ℕ) → Stream C F → Stream C F
  write_all [] s = s
  write_all (bs ∷ pieces) s = write_all pieces (writing bs 1 (length bs) s).1

  abbrev pub joined : List (List ℕ) → List ℕ
  joined [] = []
  joined (bs ∷ pieces) = bs ++ joined pieces

  content_write_all :
      (pieces : List (List ℕ)) (s : Stream C F)
      (h : IsSound codec lossless fwrite fclose good counts level flush_seconds s)
      → (k : IsSound codec lossless fwrite fclose good counts level flush_seconds
          (write_all pieces s))
        × (content codec lossless fwrite fclose good counts level flush_seconds
              (write_all pieces s)
              k
            ≡ content codec lossless fwrite fclose good counts level flush_seconds s h
              ++ joined pieces)
  content_write_all [] s h = (
    h,
    sym (append-nil (content codec lossless fwrite fclose good counts level flush_seconds s h)),
  )
  content_write_all (bs ∷ pieces) s h =
      let here =
        write_lem codec lossless fwrite fclose good counts level flush_seconds bs 1 (length bs) s
          h in
      let later = content_write_all pieces (writing bs 1 (length bs) s).1 here.0 in
      (
        later.0,
        later.1
            ∙ ap (λ (v : List ℕ). v ++ joined pieces) here.1
            ∙ append_assoc
                (content codec lossless fwrite fclose good counts level flush_seconds s h)
                (take (1 * length bs) bs) (joined pieces)
            ∙ ap
                (λ (v : List ℕ).
                  content codec lossless fwrite fclose good counts level flush_seconds s h
                  ++ (v ++ joined pieces))
                (take_all (1 * length bs) bs (omega arith)),
      )

  -- Pieces that are written to a new file, in whatever sizes, and however long they are kept back by the
  -- library: once the file is closed, what it decompresses to is the pieces, one after the other.
  pub zstd_file :
      (pieces : List (List ℕ)) (s : Stream C F)
      → s.cstream ≡ none
      → file_of s ≡ []
      → lossless.decode (file_of (closing (write_all pieces s))) ≡ joined pieces
  zstd_file pieces s new empty =
      let start : IsSound codec lossless fwrite fclose good counts level flush_seconds s = record {
        base = [];
        whole = [];
        is_frames = lossless.no_frames.0;
        state = inl (new, empty, refl);
      } in
      let all = content_write_all pieces s start in
      let closed =
        close_lem codec lossless fwrite fclose good counts level flush_seconds (write_all pieces s)
          all.0 in
      closed.2 ∙ all.1 ∙ ap (λ (v : List ℕ). (v ++ []) ++ joined pieces) lossless.no_frames.1

  -- What `dooutput` has recorded with compression on, and without a rotation: once the file is closed,
  -- it decompresses to a recording of exactly the bytes that were shown on the targets that are not
  -- hidden.
  pub zstd_recording :
      (e : Endian) (o : Options) (hide : Fd → Bool)
      (events : List (Event (Sound codec lossless fwrite fclose good counts level flush_seconds)))
      (s : Output (Sound codec lossless fwrite fclose good counts level flush_seconds))
      → (let reliable =
            zstd_reliable codec lossless fwrite fclose good counts level flush_seconds in
          AllSane reliable.view o hide events × Faithful reliable.view e hide s)
      → (dooutput
          (sound_write codec lossless fwrite fclose good counts level flush_seconds)
          (sound_close codec lossless fwrite fclose good counts level flush_seconds)
          e
          o
          events
          s).files.finished
        ≡ []
      → let t =
          dooutput
            (sound_write codec lossless fwrite fclose good counts level flush_seconds)
            (sound_close codec lossless fwrite fclose good counts level flush_seconds)
            e
            o
            events
            s in
        (rs : List Record) × (lossless.decode (file_of (closing t.files.fscript.0))
          ≡ file_bytes e rs)
        × AllPlayable rs
        × (payloads rs ≡ kept hide t.shown)
  zstd_recording e o hide events s h one =
      let writer = sound_write codec lossless fwrite fclose good counts level flush_seconds in
      let closer = sound_close codec lossless fwrite fclose good counts level flush_seconds in
      let reliable = zstd_reliable codec lossless fwrite fclose good counts level flush_seconds in
      let t = dooutput writer closer e o events s in
      let f = dooutput-Faithful writer closer reliable e o hide events s h.0 h.1 in
      let (at_end, known) = t.files.fscript in
      let closed =
        close_lem codec lossless fwrite fclose good counts level flush_seconds at_end known in
      let whole = none_closed reliable.view e t.files.finished f.closed f.closed_hold one in
      (
        f.current,
        closed.2 ∙ f.current_holds,
        f.current_plays,
        sym (ap (λ (v : List ℕ). v ++ payloads f.current) whole) ∙ f.all_kept,
      )
