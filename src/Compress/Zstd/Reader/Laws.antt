-- ===== src/Compress/Zstd/Reader/Laws.antt =====
-- What `fread_wrapper_zstd` of compress_zstd.c relies on in the library, and a call of the library.
use ovh_ttyrec.Base.{
  List, [], ap, append_assoc, arith, drop, drop-append_le, drop_whole, length, length-drop, none,
  refl, some, sym, ℕ, ◌++◌, ◌+◌, ◌<◌, ◌∙◌, ◌∷◌, ◌≡◌, ◌≤◌,
}
use ovh_ttyrec.Stdio.{remaining}
use ovh_ttyrec.Compress.Zstd.Reader.{Decoder, Unzip}

-- How a call ends that was given a part of the frame `f` with the content `c`: at the end of the
-- frame, with all of its content put out, or inside it.
pub data Progress {D : Type 0} (Ready : D → Type 0) (Within : D → List ℕ → List ℕ → Type 0)
    (f c out : List ℕ) (taken hint : ℕ) (d' : D) : Type 0 where
  at_end : Ready d' → taken ≡ length f → out ≡ c → Progress Ready Within f c out taken hint d'
  inside :
      (c' : List ℕ)
      → taken < length f
      → c ≡ out ++ c'
      → Within d' (drop taken f) c'
      → 0 < hint
      → Progress Ready Within f c out taken hint d'

-- What the library documents. A stream is ready for a frame when it is new and when a frame has ended;
-- inside a frame, `Within` says what of it is still to be given and what still to be put out. No
-- call fails on a frame, each takes input or puts out something, none takes bytes behind the end of
-- the frame, and the last byte is not taken before all of the content has been put out: the size of
-- the next read is never more than what is left of the frame, and 0 only where it is complete.
pub record Inflates {D : Type 0} (decoder : Decoder D) : Type 1 where
  pub IsFrame : List ℕ → List ℕ → Type 0
  pub Ready : D → Type 0
  pub Within : D → List ℕ → List ℕ → Type 0
  pub not_empty : (f c : List ℕ) → IsFrame f c → 0 < length f
  pub creates : Ready decoder.create.0 × (0 < decoder.create.1)
  pub begins : (d : D) (f c : List ℕ) → Ready d → IsFrame f c → Within d f c
  pub decompresses :
      (d : D) (f c : List ℕ) (b : ℕ) (input later rest : List ℕ)
      → Within d f c
      → 0 < length f
      → b ∷ input ++ later ≡ f ++ rest
      → (out : List ℕ) × (taken : ℕ) × (hint : ℕ) × (d' : D) × (decoder.decompress_stream d
            (b ∷ input)
          ≡ some (out, taken, hint, d'))
        × (taken ≤ length (b ∷ input))
        × (0 < taken + length out)
        × Progress Ready Within f c out taken hint d'

-- Frames, each with its content.
abbrev pub frames_bytes : List (List ℕ × List ℕ) → List ℕ
frames_bytes [] = []
frames_bytes ((f, c) ∷ fs) = f ++ frames_bytes fs

abbrev pub contents : List (List ℕ × List ℕ) → List ℕ
contents [] = []
contents ((f, c) ∷ fs) = c ++ contents fs

module _ {D : Type 0} (decoder : Decoder D) (inflates : Inflates decoder) where
  open inflates use {IsFrame, Ready, Within, not_empty, creates, begins, decompresses}

  abbrev pub AreFrames : List (List ℕ × List ℕ) → Type 0
  AreFrames [] = Unit
  AreFrames ((f, c) ∷ fs) = IsFrame f c × AreFrames fs

  -- Where the library stands: between two frames or inside one; `compressed` is what it is still to
  -- be given, and `plain` what it will put out.
  pub data Stands (d : D) (to_read : ℕ) (compressed plain : List ℕ) : Type 0 where
    between :
        (fs : List (List ℕ × List ℕ))
        → AreFrames fs
        → Ready d
        → compressed ≡ frames_bytes fs
        → plain ≡ contents fs
        → Stands d to_read compressed plain
    within :
        (f c : List ℕ) (fs : List (List ℕ × List ℕ))
        → AreFrames fs
        → Within d f c
        → 0 < length f
        → 0 < to_read
        → compressed ≡ f ++ frames_bytes fs
        → plain ≡ c ++ contents fs
        → Stands d to_read compressed plain

  -- The reader with the library at `d`: `unread` is what can still be read from it. The program has
  -- not ended.
  pub record Opened (s : Unzip D) (unread : List ℕ) : Type 0 where
    pub d : D
    pub is_open : s.dstream ≡ some d
    pub plain : List ℕ
    pub stands : Stands d s.to_read (s.input ++ remaining s.file) plain
    pub unread_is : unread ≡ s.pending ++ plain
    pub runs : s.exit_code ≡ none

  -- One call of the library, wherever it stands: it puts out the next part of `plain`.
  pub record Called (d : D) (chunk later plain : List ℕ) : Type 0 where
    pub out : List ℕ
    pub taken : ℕ
    pub hint : ℕ
    pub d' : D
    pub plain' : List ℕ
    pub result : decoder.decompress_stream d chunk ≡ some (out, taken, hint, d')
    pub advances : 0 < taken + length out
    pub within_chunk : taken ≤ length chunk
    pub puts_out : plain ≡ out ++ plain'
    pub then_stands : Stands d' hint (drop taken chunk ++ later) plain'

  -- Both ways to see the compressed bytes, behind the part that was taken.
  drop_both :
      (n : ℕ) (xs ys zs ws : List ℕ)
      → xs ++ ys ≡ zs ++ ws
      → n ≤ length xs
      → n ≤ length zs
      → drop n xs ++ ys ≡ drop n zs ++ ws
  drop_both n xs ys zs ws e h k =
      sym (drop-append_le n xs ys h) ∙ ap (drop n) e ∙ drop-append_le n zs ws k

  call_midway :
      (d : D) (f c : List ℕ) (b : ℕ) (input later : List ℕ) (fs : List (List ℕ × List ℕ))
      → AreFrames fs
      → Within d f c
      → 0 < length f
      → b ∷ input ++ later ≡ f ++ frames_bytes fs
      → Called d (b ∷ input) later (c ++ contents fs)
  call_midway d f c b input later fs ok w p e =
      let (out, taken, hint, d', result, small, moves, how) =
        decompresses d f c b input later (frames_bytes fs) w p e in
      elim how [
        | at_end ready all whole ↦ record {
          out = out;
          taken = taken;
          hint = hint;
          d' = d';
          plain' = contents fs;
          result = result;
          advances = moves;
          within_chunk = small;
          puts_out = ap (λ (v : List ℕ). v ++ contents fs) (sym whole);
          then_stands =
              between fs ok ready
                (drop_both taken (b ∷ input) later f (frames_bytes fs) e small (omega arith)
                  ∙ ap (λ (v : List ℕ). v ++ frames_bytes fs) (drop_whole taken f (omega arith)))
                refl;
        }
        | inside c' part split w' positive ↦ record {
          out = out;
          taken = taken;
          hint = hint;
          d' = d';
          plain' = c' ++ contents fs;
          result = result;
          advances = moves;
          within_chunk = small;
          puts_out =
              ap (λ (v : List ℕ). v ++ contents fs) split ∙ append_assoc out c' (contents fs);
          then_stands =
              within (drop taken f) c' fs ok w' (omega (arith, length-drop taken f)) positive
                (drop_both taken (b ∷ input) later f (frames_bytes fs) e small (omega arith)) refl;
        }
      ]

  pub call_lem :
      (d : D) (to_read b : ℕ) (input later plain : List ℕ)
      → Stands d to_read (b ∷ input ++ later) plain
      → Called d (b ∷ input) later plain
  call_lem d to_read b input later plain (between [] ok ready e p) = cc
  call_lem d to_read b input later plain (between ((f, c) ∷ fs) ok ready e p) =
      rw p
        (call_midway d f c b input later fs ok.1 (begins d f c ready ok.0) (not_empty f c ok.0) e)
  call_lem d to_read b input later plain (within f c fs ok w pos_f pos_r e p) =
      rw p (call_midway d f c b input later fs ok w pos_f e)
