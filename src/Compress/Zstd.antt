-- ===== src/Compress/Zstd.antt =====
-- compress_zstd.c: the writer of a compressed recording, over the zstd library.
pub mod Laws
pub mod Frames
pub mod Recording
pub mod Reader
pub mod Replay
pub mod Session
use ovh_ttyrec.Base.{
  List, Option, [], drop, if◌then◌else◌, inl, inr, length, ltb, ltb_ℤ, none, pos, some, suc, take,
  zero, ℕ, ℤ, ◌*◌, ◌+ℤ◌, ◌+◌, ◌==◌, ◌∷◌, ◌⊎◌,
}
use ovh_ttyrec.Stdio.{Fwrite}

-- What the code uses of the library, with the output buffer that it passes left empty each time:
-- `ZSTD_createCStream` with `ZSTD_initCStream` (or the exit code of the one that fails), then
-- `ZSTD_compressStream`, `ZSTD_flushStream` and `ZSTD_endStream`. Each gives what it put into the
-- output buffer; `none` is an error, and the number is how much of the input was taken.
pub record Codec (C : Type 0) : Type 0 where
  pub create : ℤ → ℕ ⊎ C
  pub compress_stream : C → List ℕ → Option (List ℕ × ℕ × C)
  pub flush_stream : C → Option (List ℕ × C)
  pub end_stream : C → List ℕ

-- The static variables, and the file. The clock gives its readings one by one, and `exit_code` is
-- set where the program has ended.
pub record Stream (C F : Type 0) : Type 0 where
  pub cstream : Option C
  pub last_sync : ℤ
  pub file : F
  pub clock : ℕ → ℤ
  pub readings : ℕ
  pub exit_code : Option ℕ

-- How the loop over the input ends: all was taken, with the number of bytes that were written; a
-- short write; an error of the library; or the rounds ran out.
pub data Fed (S : Type 0) : Type 0 where
  fed_all fed_short : ℕ → S → Fed S
  fed_exits fed_stalls : S → Fed S

module _ {C F : Type 0} (codec : Codec C) (fwrite : Fwrite F) (fclose : F → F)
    (compress_level zstd_max_flush_seconds : ℤ) where
  open codec use {create, compress_stream, flush_stream, end_stream}

  unfoldable pub stops_with : ℕ → Stream C F → Stream C F
  stops_with code s = record s { exit_code = some code }

  -- `last_sync = time(NULL)`
  unfoldable pub synced : Stream C F → Stream C F
  synced s = record s { last_sync = s.clock s.readings; readings = s.readings + 1 }

  -- The block that makes the stream at the first call.
  unfoldable pub open_stream : Stream C F → Option C × Stream C F
  open_stream s = elim s.cstream [
    | some c ↦ (some c, s)
    | none ↦ elim (create (if ltb_ℤ compress_level (pos 0) then pos 3 else compress_level)) [
      | inl code ↦ (none, stops_with code s)
      | inr c ↦ (some c, synced (record s { cstream = some c }))
    ]
  ]

  -- The loop over the input.
  unfoldable pub feed : ℕ → C → List ℕ → ℕ → Stream C F → Fed (Stream C F)
  feed zero c input written s = fed_stalls s
  feed (suc rounds) c [] written s = fed_all written s
  feed (suc rounds) c (b ∷ input) written s = elim (compress_stream c (b ∷ input)) [
    | none ↦ fed_exits (stops_with 13 s)
    | some (out, taken, c') ↦
        let (n, file) = fwrite out 1 (length out) s.file in
        let s' = record s { cstream = some c'; file = file } in
        let rest = feed rounds c' (drop taken (b ∷ input)) (written + n) s' in
        if n == length out then rest else fed_short n s'
  ]

  -- What follows the loop: without any output for too long the library is told to flush.
  unfoldable pub sync : ℕ → Stream C F → ℕ × Stream C F
  sync written s =
      if ltb 0 written
      then (written, synced s)
      else (let s1 = record s { readings = s.readings + 1 } in
          if ltb_ℤ (s.last_sync +ℤ zstd_max_flush_seconds) (s.clock s.readings)
          then elim s1.cstream [
            | none ↦ (written, s1)
            | some c ↦ elim (flush_stream c) [
              | none ↦ (written, stops_with 14 s1)
              | some (out, c') ↦
                  let (n, file) = fwrite out 1 (length out) s1.file in
                  (n, synced (record s1 { cstream = some c'; file = file }))
            ]
          ]
          else (written, s1))

  unfoldable pub fwrite_wrapper_zstd : Fwrite (Stream C F)
  fwrite_wrapper_zstd bytes size nmemb s =
      let input = take (size * nmemb) bytes in
      let (opened, s1) = open_stream s in
      elim opened [
        | none ↦ (0, s1)
        | some c ↦ elim (feed (length input + 1) c input 0 s1) [
          | fed_all written s2 ↦ sync written s2
          | fed_short n s2 ↦ (n, s2)
          | fed_exits s2 ↦ (0, s2)
          | fed_stalls s2 ↦ (0, s2)
        ]
      ]

  -- The end of the frame, and the file.
  unfoldable pub fclose_wrapper_zstd : Stream C F → Stream C F
  fclose_wrapper_zstd s = elim s.cstream [
    | none ↦ record s { file = fclose s.file }
    | some c ↦
        let out = end_stream c in
        let (n, file) = fwrite out 1 (length out) s.file in
        record s { cstream = none; file = fclose file }
  ]
