-- ===== src/Compress/Zstd/Reader/Refine.antt =====
-- `fread_wrapper_zstd` of compress_zstd.c gives what the file decompresses to, in any pieces.
use native.Mathlib.Decide.{dec_le}
use ovh_ttyrec.Base.{
  List, [], ap, arith, drop, if◌then◌else◌, leb, length, length_zero, none, refl, some, sym, take,
  ℕ, ◌*◌, ◌++◌, ◌+◌, ◌-◌, ◌<◌, ◌∙◌, ◌≡◌,
}
use ovh_ttyrec.Stdio.{remaining, clearerr}
use ovh_ttyrec.Compress.Zstd.Reader.{
  Decoder, Unzip, served, wants, got_data, renew, open_dstream, decompress, rounds_for,
  fread_wrapper_zstd,
}
use ovh_ttyrec.Compress.Zstd.Reader.Laws.{
  Inflates, between, Opened, AreFrames, frames_bytes, contents,
}
use ovh_ttyrec.Compress.Zstd.Reader.Loop.{
  Reading, got_enough, got_some, got_none, reads_later, decompress_lem,
}

module _ {D : Type 0} (decoder : Decoder D) (inflates : Inflates decoder) where
  -- The reader before its first call, and between two calls: `unread` is what the file decompresses to
  -- behind what has been read.
  pub data Holds (s : Unzip D) (unread : List ℕ) : Type 0 where
    unopened :
        (fs : List (List ℕ × List ℕ))
        → s.dstream ≡ none
        → s.input ≡ []
        → s.pending ≡ []
        → s.exit_code ≡ none
        → AreFrames decoder inflates fs
        → remaining s.file ≡ frames_bytes fs
        → unread ≡ contents fs
        → Holds s unread
    opened : Opened decoder inflates s unread → Holds s unread

  opens_old : (s : Unzip D) (d : D) → s.dstream ≡ some d → open_dstream decoder s ≡ s
  unfolding open_dstream
  opens_old s d h = simp (h, open_dstream) refl

  open_lem :
      (s : Unzip D) (unread : List ℕ)
      → Holds s unread
      → Opened decoder inflates (open_dstream decoder s) unread
  unfolding open_dstream renew
  open_lem s unread (unopened fs shut i p runs ok e u) = rw shut (record {
    d = decoder.create.0;
    is_open = refl;
    runs = runs;
    plain = contents fs;
    stands =
        between fs ok inflates.creates.0 (ap (λ (v : List ℕ). v ++ remaining s.file) i ∙ e) refl;
    unread_is = u ∙ ap (λ (v : List ℕ). v ++ contents fs) (sym p);
  })
  open_lem s unread (opened o) = rw (opens_old s o.d o.is_open) o

  -- What the label GOTDATA leads to at the beginning of a call.
  serve :
      (nmemb want : ℕ) (unread : List ℕ) (s : Unzip D)
      → 0 < want
      → Opened decoder inflates s unread
      → Reading decoder inflates nmemb want [] unread (elim (got_data decoder want [] s) [
        | served all s1 ↦ (all, nmemb, s1)
        | wants more given s1 ↦
            decompress decoder (rounds_for decoder more s1 + 1) nmemb more given s1
      ])
  serve nmemb want unread s p o =
      let n = length s.pending in
      elim (dec_le n 0) [
        | yes nothing ↦
            let empty = length_zero s.pending (omega arith) in
            rw (got_none decoder inflates want [] s empty) (
              decompress_lem decoder inflates (rounds_for decoder want s + 1) nmemb want [] unread s
                p (omega arith) empty o)
        | no some_out ↦ elim (dec_le want n) [
          | yes all_there ↦
              let g = got_enough decoder inflates nmemb want [] unread s p all_there o in rw g.2 g.3
          | no too_few ↦
              let rest = record s { pending = [] } in
              rw (got_some decoder inflates want [] s (omega arith) (omega arith)) (
                reads_later decoder inflates nmemb want (want - n) [] s.pending unread o.plain
                  (decompress decoder (rounds_for decoder (want - n) rest + 1) nmemb (want - n)
                    s.pending rest)
                  (omega arith) o.unread_is
                  (decompress_lem decoder inflates (rounds_for decoder (want - n) rest + 1) nmemb
                    (want - n) s.pending o.plain rest (omega arith) (omega arith) refl
                    (record {
                      d = o.d;
                      is_open = o.is_open;
                      runs = o.runs;
                      plain = o.plain;
                      stands = o.stands;
                      unread_is = refl;
                    })))
        ]
      ]

  -- What a call gives, wherever the reader stands: all the bytes that were asked for and the number of
  -- items, or, where fewer are left, those bytes and 0; the reader then stands behind them.
  pub fread_wrapper_zstd_lem :
      (size nmemb : ℕ) (s : Unzip D) (unread : List ℕ)
      → 0 < size * nmemb
      → Holds s unread
      → let (bytes, count, s') = fread_wrapper_zstd decoder size nmemb s in
        (bytes ≡ take (size * nmemb) unread)
        × (count ≡ (if leb (size * nmemb) (length unread) then nmemb else 0))
        × Holds s' (drop (size * nmemb) unread)
  unfolding fread_wrapper_zstd
  fread_wrapper_zstd_lem size nmemb s unread p h =
      let r = serve nmemb (size * nmemb) unread (open_dstream decoder s) p (open_lem s unread h) in
      (r.bytes_are, r.count_is, opened r.then_opened)

  -- The error flag of the stream does not matter.
  pub Holds-clearerr :
      (s : Unzip D) (unread : List ℕ)
      → Holds s unread
      → Holds (record s { file = clearerr s.file }) unread
  unfolding clearerr
  Holds-clearerr s unread (unopened fs shut i p runs ok e u) = unopened fs shut i p runs ok e u
  Holds-clearerr s unread (opened o) = opened (record {
    d = o.d;
    is_open = o.is_open;
    runs = o.runs;
    plain = o.plain;
    stands = o.stands;
    unread_is = o.unread_is;
  })
