-- ===== src/Examples/Player.antt =====
-- Runs of the player of ttyplay.c.
use ovh_ttyrec.Base.{
  Bool, List, [], arith, drop, false, inl, length, map, negsuc, none, refl, some, take, true, ℕ,
  ◌++◌, ◌∷◌, ◌≡◌,
}
use ovh_ttyrec.Stdio.{File, clearerr}
use ovh_ttyrec.Header.{Timeval}
use ovh_ttyrec.Io.{little, big, encode_header, word_bytes}
use ovh_ttyrec.Io.Layout.{stamp}
use ovh_ttyrec.Io.Read.{advance}
use ovh_ttyrec.Recording.{Record, time_of, record_bytes, file_bytes}
use ovh_ttyrec.Ttyplay.Read.{plain, ttyread, ttypread}
use ovh_ttyrec.Ttyplay.Read.Plain.{Playable}
use ovh_ttyrec.Ttyplay.Read.Cut.{ttyread_cut, ttyread_invalid}
use ovh_ttyrec.Ttyplay.Read.Follow.{grow, Found, ttypread_grows}
use ovh_ttyrec.Ttyplay.Play.{Player, WaitFunc, ttyplayback}
use ovh_ttyrec.Ttyplay.Play.Replay.{AllPlayable, behind, ttyplayback_replays}

abbrev malloc : ℕ → Bool
malloc n = true

abbrev hello : Record
hello = record { sec = 1000; usec = 900000; payload = 104 ∷ 105 ∷ [] }

abbrev bye : Record
bye = record { sec = 1007; usec = 100000; payload = 98 ∷ [] }

hello-Playable : Playable hello
hello-Playable = record {
  fits = record { sec_fits = omega arith; usec_fits = omega arith; len_fits = omega arith };
  not_empty = omega arith;
  not_long = omega arith;
}

bye-Playable : Playable bye
bye-Playable = record {
  fits = record { sec_fits = omega arith; usec_fits = omega arith; len_fits = omega arith };
  not_empty = omega arith;
  not_long = omega arith;
}

abbrev file_of : List ℕ → File
file_of bytes = record { content = bytes; pos = 0; seekable = true; broken = false; error = false }

abbrev two : List Record
two = hello ∷ bye ∷ []

two-AllPlayable : AllPlayable two
two-AllPlayable = (hello-Playable, (bye-Playable, _))

-- A wait function that notes the times it is given.
abbrev noting : WaitFunc ℕ (List (Timeval × Timeval))
noting prev cur speed env = (speed, env ++ (prev, cur) ∷ [])

abbrev at_start : Player File (List (Timeval × Timeval))
at_start = record { input = file_of (file_bytes big two ++ 7 ∷ 7 ∷ []); out = []; env = [] }

ttyplayback_replays_example :
    ttyplayback plain malloc little 3 1 noting at_start
    ≡ some (record {
      input = behind (length (file_bytes big two)) at_start.input;
      out = 104 ∷ 105 ∷ 98 ∷ [];
      env = (time_of hello, time_of bye) ∷ [];
    })
ttyplayback_replays_example =
    ttyplayback_replays malloc (λ n p. refl) big little noting two (7 ∷ 7 ∷ []) 3 1 at_start
      two-AllPlayable refl refl (omega arith) refl (omega arith)

-- A file that has the first five bytes of the record.
abbrev started : File
started = file_of (take 5 (record_bytes big hello))

ttypread_grows_example : Found hello (33 ∷ []) 0 (
    ttypread plain malloc little
      (map grow (take 8 (drop 5 (record_bytes big hello)) ∷ (105 ∷ 33 ∷ []) ∷ []))
      started)
unfolding encode_header word_bytes
ttypread_grows_example =
    ttypread_grows malloc big little hello (33 ∷ [])
      (take 8 (drop 5 (record_bytes big hello)) ∷ (105 ∷ 33 ∷ []) ∷ []) started hello-Playable refl
      refl refl (omega arith) refl

ttyread_cut_example : ttyread plain malloc little started ≡ (none, clearerr started)
unfolding encode_header word_bytes
ttyread_cut_example =
    ttyread_cut malloc big little hello (drop 5 (record_bytes big hello)) started hello-Playable
      refl refl refl refl (omega arith)

abbrev negative : File
negative = file_of (encode_header big (stamp 9 7 (negsuc 4)) ++ 65 ∷ [])

ttyread_invalid_example :
    ttyread plain malloc little negative ≡ (none, advance 12 (clearerr negative))
ttyread_invalid_example =
    ttyread_invalid malloc big little 9 7 (negsuc 4) (65 ∷ []) negative (omega arith) (omega arith)
      (ground arith) (ground arith) (inl (ground arith)) refl
