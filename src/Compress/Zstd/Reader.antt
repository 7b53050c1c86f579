-- ===== src/Compress/Zstd/Reader.antt =====
-- compress_zstd.c: `fread_wrapper_zstd`, the reader of a compressed recording, over the zstd library.
use ovh_ttyrec.Base.{
  List, Option, [], drop, if◌then◌else◌, leb, length, ltb, none, some, suc, take, zero, ℕ, ◌*◌,
  ◌++◌, ◌+◌, ◌-◌, ◌==◌, ◌∷◌,
}
pub mod Laws
pub mod Chunks
pub mod Loop
pub mod Refine
pub mod Source
use ovh_ttyrec.Stdio.{File, Fread, fread, remaining}
use ovh_ttyrec.Ttyplay.Read.{Input}

-- What the code uses of the library: `ZSTD_createDStream` with `ZSTD_initDStream`, which gives the size
-- of the first read, and `ZSTD_decompressStream` with an empty output buffer of the size that the
-- library recommends. That one gives what it put into the output buffer, how much of the input it
-- took and the size of the next read; `none` is an error.
pub record Decoder (D : Type 0) : Type 0 where
  pub create : D × ℕ
  pub decompress_stream : D → List ℕ → Option (List ℕ × ℕ × ℕ × D)

-- The static variables, and the file: the part of the input buffer that is not taken yet, and the
-- part of the output buffer that is not returned yet. `exit_code` is set where the program has ended.
pub record Unzip (D : Type 0) : Type 0 where
  pub dstream : Option D
  pub to_read : ℕ
  pub input : List ℕ
  pub pending : List ℕ
  pub file : File
  pub exit_code : Option ℕ

-- What the label GOTDATA leads to: the caller has all the bytes, or so many more are wanted.
pub data Served (S : Type 0) : Type 0 where
  served : List ℕ → S → Served S
  wants : ℕ → List ℕ → S → Served S

module _ {D : Type 0} (decoder : Decoder D) where
  open decoder use {create, decompress_stream}

  -- The label GOTDATA, with the bytes that the caller has already.
  unfoldable pub got_data : ℕ → List ℕ → Unzip D → Served (Unzip D)
  got_data want given s =
      let n = length s.pending in
      if ltb 0 n
      then (if leb want n
          then served (given ++ take want s.pending) (record s { pending = drop want s.pending })
          else wants (want - n) (given ++ s.pending) (record s { pending = [] }))
      else wants want given s

  -- A new stream at the first call, and where the last one is over.
  unfoldable pub renew : Unzip D → Unzip D
  renew s = record s { dstream = some create.0; to_read = create.1 }

  unfoldable pub open_dstream : Unzip D → Unzip D
  unfolding renew
  open_dstream s = elim s.dstream [ none ↦ renew s | some d ↦ s ]

  -- The next compressed bytes from the file, for which a stream that is over is replaced.
  unfoldable pub refill : Unzip D → List ℕ × ℕ × Unzip D
  unfolding renew
  refill s =
      let s1 = (if s.to_read == 0 then renew s else s) in
      let (chunk, n, file) = fread 1 s1.to_read s1.file in (chunk, n, record s1 { file = file })

  -- The label DECOMPRESS, with at most so many rounds. The result is that of the call.
  unfoldable pub decompress : ℕ → ℕ → ℕ → List ℕ → Unzip D → List ℕ × ℕ × Unzip D
  unfolding got_data refill
  decompress zero nmemb want given s = (given, 0, s)
  decompress (suc rounds) nmemb want given s = elim s.dstream [
    | none ↦ (given, 0, s)
    | some d ↦ elim s.input [
      | [] ↦
          let (chunk, n, s1) = refill s in
          let rest = decompress rounds nmemb want given (record s1 { input = chunk }) in
          if n == 0 then (given, 0, s1) else rest
      | b ∷ input ↦ elim (decompress_stream d (b ∷ input)) [
        | none ↦ (given, 0, record s { exit_code = some 16 })
        | some (out, taken, hint, d') ↦
            let s1 = record s {
              dstream = some d';
              to_read = hint;
              input = drop taken (b ∷ input);
              pending = out;
            } in
            let again = decompress rounds nmemb want given s1 in
            if length out == 0 then again else elim (got_data want given s1) [
              | served all s2 ↦ (all, nmemb, s2)
              | wants more some_bytes s2 ↦ decompress rounds nmemb more some_bytes s2
            ]
      ]
    ]
  ]

  -- Rounds that are enough: each takes a byte at least from the file, from the input buffer or off
  -- what is wanted.
  abbrev pub rounds_for : ℕ → Unzip D → ℕ
  rounds_for want s = want + length s.input + 2 * length (remaining s.file)

  unfoldable pub fread_wrapper_zstd : Fread (Unzip D)
  unfolding got_data open_dstream decompress
  fread_wrapper_zstd size nmemb s = elim (got_data (size * nmemb) [] (open_dstream s)) [
    | served all s1 ↦ (all, nmemb, s1)
    | wants more given s1 ↦ decompress (rounds_for more s1 + 1) nmemb more given s1
  ]

  -- The input of the player, with `fread_wrapper` set to it.
  abbrev pub zstd_input : Input (Unzip D)
  zstd_input = record {
    fread_wrapper = fread_wrapper_zstd;
    stream = λ s. s.file;
    set_stream = λ f s. record s { file = f };
  }
