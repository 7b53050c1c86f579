-- ===== src/Compress/Zstd/Session.antt =====
-- From end to end with compression, over all the files of a session with rotations.
use ovh_ttyrec.Base.{Bool, List, Option, length, none, true, ℕ, ℤ, ◌*◌, ◌<◌, ◌≡◌, ◌≤◌}
use ovh_ttyrec.Stdio.{Fwrite}
use ovh_ttyrec.Io.{Endian}
use ovh_ttyrec.Ttyplay.Read.{max_record_len}
use ovh_ttyrec.Ttyplay.Play.{WaitFunc, ttyplayback}
use ovh_ttyrec.Compress.Zstd.{Codec}
use ovh_ttyrec.Compress.Zstd.Laws.{Lossless}
use ovh_ttyrec.Compress.Zstd.Frames.{Sound, sound_write, sound_close, zstd_reliable}
use ovh_ttyrec.Compress.Zstd.Reader.{Decoder, zstd_input}
use ovh_ttyrec.Compress.Zstd.Reader.Laws.{Inflates}
use ovh_ttyrec.Compress.Zstd.Replay.{fresh_zstd_player, Agree}
use ovh_ttyrec.Ttyrec.Output.{Output}
use ovh_ttyrec.Ttyrec.Output.Recorded.{Reliable}
use ovh_ttyrec.Ttyrec.Output.Recorded.Rotated.{written}

module _ {C F : Type 0} (codec : Codec C) (lossless : Lossless codec) (fwrite : Fwrite F)
    (fclose : F → F) (good : Reliable F fwrite fclose)
    (counts : (bs : List ℕ) (size nmemb : ℕ) (f : F)
      → length bs ≡ size * nmemb
      → (fwrite bs size nmemb f).0 ≡ nmemb)
    (level flush_seconds : ℤ) where
  abbrev pub ZstdFile : Type 0
  ZstdFile = Sound codec lossless fwrite fclose good counts level flush_seconds

  abbrev pub zwrite : Fwrite ZstdFile
  zwrite = sound_write codec lossless fwrite fclose good counts level flush_seconds

  abbrev pub zclose : ZstdFile → ZstdFile
  zclose = sound_close codec lossless fwrite fclose good counts level flush_seconds

  abbrev pub reliable : Reliable ZstdFile zwrite zclose
  reliable = zstd_reliable codec lossless fwrite fclose good counts level flush_seconds

  -- The bytes of a file, as they are stored.
  abbrev pub stored : ZstdFile → List ℕ
  stored f = good.view f.0.file

  abbrev pub IsShut : ZstdFile → Type 0
  IsShut f = f.0.cstream ≡ none

  -- The recorder when its file has been closed at the end.
  abbrev pub after_close : Output ZstdFile → Output ZstdFile
  after_close t = record t { files = record t.files { fscript = zclose t.files.fscript } }

  module _ {D E V : Type 0} (decoder : Decoder D) (inflates : Inflates decoder)
      (agree : Agree codec decoder lossless inflates) (malloc : ℕ → Bool)
      (enough : (n : ℕ) → n ≤ max_record_len → malloc n ≡ true) (e e' : Endian)
      (wait : WaitFunc V E) (rounds : ℕ) (speed : V) (env : E) where
    -- A run of ttyplay with zstd on the bytes of a file.
    abbrev pub zstd_player : List ℕ → Option (List ℕ)
    zstd_player f =
        written
          (ttyplayback (zstd_input decoder) malloc e' rounds speed wait (fresh_zstd_player f env))

    abbrev pub Decodable : ZstdFile → Type 0
    Decodable f = length (lossless.decode (stored f)) < rounds
