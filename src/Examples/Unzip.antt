-- ===== src/Examples/Unzip.antt =====
-- Runs of the reader of compress_zstd.c, on what its writer wrote.
use ovh_ttyrec.Base.{
  Bool, List, [], ap, append-nil, arith, drop, refl, sym, take, take-append-drop, ℕ, ◌++◌, ◌∙◌, ◌∷◌,
  ◌≡◌,
}
use ovh_ttyrec.Stdio.{fread}
use ovh_ttyrec.Io.{little}
use ovh_ttyrec.Recording.{Record, file_bytes}
use ovh_ttyrec.Ttyplay.Play.{WaitFunc, ttynowait}
use ovh_ttyrec.Ttyplay.Play.Replay.{AllPlayable}
use ovh_ttyrec.Compress.Zstd.Reader.{
  Unzip, got_data, refill, renew, open_dstream, decompress, fread_wrapper_zstd,
}
use ovh_ttyrec.Compress.Zstd.Reader.Refine.{Holds, unopened, fread_wrapper_zstd_lem}
use ovh_ttyrec.Compress.Zstd.Reader.Laws.{frames_bytes, contents}
use ovh_ttyrec.Compress.Zstd.Replay.{fresh_unzip}
use ovh_ttyrec.Ttyrec.Output.Recorded.EndToEnd.{opened_at_start}
use ovh_ttyrec.Examples.Pairs.{frame, unpairing, unpairing-Inflates}

-- Two frames, one behind the other.
abbrev two_frames : List (List ℕ × List ℕ)
two_frames = (frame (7 ∷ 8 ∷ []), 7 ∷ 8 ∷ []) ∷ (frame (9 ∷ []), 9 ∷ []) ∷ []

abbrev at_start : Unzip Bool
at_start = fresh_unzip (opened_at_start (frames_bytes two_frames))

-- Over the end of a frame, and over the end of the file.
abbrev three_bytes : List ℕ × ℕ × Unzip Bool
three_bytes = fread_wrapper_zstd unpairing 1 3 at_start

across_test : three_bytes.0 ≡ 7 ∷ 8 ∷ 9 ∷ []
unfolding fread_wrapper_zstd got_data refill renew open_dstream decompress fread
across_test = refl

short_test : (fread_wrapper_zstd unpairing 2 2 at_start).1 ≡ 0
unfolding fread_wrapper_zstd got_data refill renew open_dstream decompress fread
short_test = refl

at_start-Holds : Holds unpairing unpairing-Inflates at_start (7 ∷ 8 ∷ 9 ∷ [])
at_start-Holds = unopened two_frames refl refl refl refl (refl, (refl, _)) refl refl

fread_wrapper_zstd_lem_example :
    let (got, count, s') = fread_wrapper_zstd unpairing 1 2 at_start in
    (got ≡ 7 ∷ 8 ∷ []) × (count ≡ 2) × Holds unpairing unpairing-Inflates s' (9 ∷ [])
fread_wrapper_zstd_lem_example =
    fread_wrapper_zstd_lem unpairing unpairing-Inflates 1 2 at_start (7 ∷ 8 ∷ 9 ∷ []) (omega arith)
      at_start-Holds

-- A recording of one record, of which a part stands in each of two frames.
abbrev one_record : List Record
one_record = record { sec = 1000; usec = 5; payload = 104 ∷ 105 ∷ [] } ∷ []

one_record-AllPlayable : AllPlayable one_record
one_record-AllPlayable = (
  record {
    fits = record { sec_fits = omega arith; usec_fits = omega arith; len_fits = omega arith };
    not_empty = omega arith;
    not_long = omega arith;
  },
  _,
)

abbrev first_part : List ℕ
first_part = take 5 (file_bytes little one_record)

abbrev second_part : List ℕ
second_part = drop 5 (file_bytes little one_record)

abbrev split_frames : List (List ℕ × List ℕ)
split_frames = (frame first_part, first_part) ∷ (frame second_part, second_part) ∷ []

abbrev pub no_wait : WaitFunc ℕ ℕ
no_wait = ttynowait 0

split_contents : contents split_frames ≡ file_bytes little one_record ++ []
split_contents =
    ap (◌++◌ first_part) (append-nil second_part)
    ∙ take-append-drop 5 (file_bytes little one_record)
    ∙ sym (append-nil (file_bytes little one_record))
