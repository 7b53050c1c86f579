-- ===== src/Compress/Zstd/Laws.antt =====
-- What compress_zstd.c relies on in the library, and its loop under these hypotheses.
use ovh_ttyrec.Base.{
  ==_iff, Bool-cases, List, [], ap, append-nil, append_assoc, arith, drop, inl, inr, length,
  length-drop, ltb, ltb_ℤ, refl, some, suc, sym, take, take-append-drop, true, zero, ℕ, ℤ, ◌*◌,
  ◌++◌, ◌+ℤ◌, ◌+◌, ◌<◌, ◌==◌, ◌∙◌, ◌∷◌, ◌≡◌,
}
use ovh_ttyrec.Stdio.{Fwrite}
use ovh_ttyrec.Compress.Zstd.{Codec, Stream, fed_all, feed, sync, synced}
use ovh_ttyrec.Ttyrec.Output.Recorded.{Reliable}

-- What the library documents: no call fails, a call that is given input and an empty output buffer
-- takes some of it, what was fed comes out at the end of the frame, and frames can be put one behind
-- the other. `fed` and `emitted` are what a stream was given and what it has put out.
pub record Lossless {C : Type 0} (codec : Codec C) : Type 1 where
  pub decode : List ℕ → List ℕ
  pub IsFrames : List ℕ → Type 0
  pub fed : C → List ℕ
  pub emitted : C → List ℕ
  pub creates :
      (level : ℤ) → (c : C) × (codec.create level ≡ inr c) × (fed c ≡ []) × (emitted c ≡ [])
  pub compresses :
      (c : C) (b : ℕ) (input : List ℕ)
      → (out : List ℕ) × (taken : ℕ) × (c' : C) × (codec.compress_stream c (b ∷ input)
          ≡ some (out, taken, c'))
        × (0 < taken)
        × (fed c' ≡ fed c ++ take taken (b ∷ input))
        × (emitted c' ≡ emitted c ++ out)
  pub flushes :
      (c : C)
      → (out : List ℕ) × (c' : C) × (codec.flush_stream c ≡ some (out, c'))
        × (fed c' ≡ fed c)
        × (emitted c' ≡ emitted c ++ out)
  pub no_frames : IsFrames [] × (decode [] ≡ [])
  pub ends :
      (xs : List ℕ) (c : C)
      → IsFrames xs
      → let ys = xs ++ (emitted c ++ codec.end_stream c) in
        IsFrames ys × (decode ys ≡ decode xs ++ fed c)

module _ {C F : Type 0} (codec : Codec C) (lossless : Lossless codec) (fwrite : Fwrite F)
    (fclose : F → F) (good : Reliable F fwrite fclose)
    (counts : (bs : List ℕ) (size nmemb : ℕ) (f : F)
      → length bs ≡ size * nmemb
      → (fwrite bs size nmemb f).0 ≡ nmemb)
    (level flush_seconds : ℤ) where
  open lossless use {decode, IsFrames, fed, emitted, creates, compresses, flushes, no_frames, ends}
  open good use {view, appends, closes}

  -- A frame is open: what was fed to it, and where in the file it stands.
  pub record Inside (base : List ℕ) (whole : List ℕ) (s : Stream C F) : Type 0 where
    pub c : C
    pub is_open : s.cstream ≡ some c
    pub was_fed : fed c ≡ whole
    pub stands : view s.file ≡ base ++ emitted c

  pub put :
      (out : List ℕ) (f : F)
      → ((fwrite out 1 (length out) f).0 ≡ length out)
        × (view (fwrite out 1 (length out) f).1 ≡ view f ++ out)
  put out f =
      (counts out 1 (length out) f (omega arith), appends out 1 (length out) f (omega arith))

  feed_step :
      (rounds : ℕ) (c c' : C) (b taken : ℕ) (input out : List ℕ) (written : ℕ) (s : Stream C F)
      → codec.compress_stream c (b ∷ input) ≡ some (out, taken, c')
      → feed codec fwrite fclose level flush_seconds (suc rounds) c (b ∷ input) written s
        ≡ feed codec fwrite fclose level flush_seconds rounds c'
            (drop taken (b ∷ input))
            (written + length out)
            (record s { cstream = some c'; file = (fwrite out 1 (length out) s.file).1 })
  unfolding feed
  feed_step rounds c c' b taken input out written s e =
      let same : (length out == length out) ≡ true = (==_iff (length out) (length out)).1 refl in
      rw (e, feed) (rw ((put out s.file).0, same) refl)

  pub feed_lem :
      (rounds : ℕ) (base : List ℕ) (c : C) (input : List ℕ) (written : ℕ) (s : Stream C F)
      → length input < rounds
      → s.cstream ≡ some c
      → view s.file ≡ base ++ emitted c
      → (w : ℕ) × (t : Stream C F) × (feed codec fwrite fclose level flush_seconds rounds c input
            written s
          ≡ fed_all w t)
        × Inside base (fed c ++ input) t
  unfolding feed
  feed_lem zero base c input written s p o h = absurd (omega arith)
  feed_lem (suc rounds) base c [] written s p o h = (
    written,
    s,
    refl,
    record { c = c; is_open = o; was_fed = sym (append-nil (fed c)); stands = h },
  )
  feed_lem (suc rounds) base c (b ∷ input) written s p o h =
      let (out, taken, c', e, some_taken, now_fed, now_out) = compresses c b input in
      let t : Stream C F = record s {
        cstream = some c';
        file = (fwrite out 1 (length out) s.file).1;
      } in
      let stands : view t.file ≡ base ++ emitted c' =
        (put out s.file).1
        ∙ ap (λ (v : List ℕ). v ++ out) h
        ∙ append_assoc base (emitted c) out
        ∙ ap (◌++◌ base) (sym now_out) in
      let (w, u, fed_it, inside) =
        feed_lem rounds base c' (drop taken (b ∷ input)) (written + length out) t
          (omega (arith, length-drop taken (b ∷ input))) refl stands in
      (
        w,
        u,
        feed_step rounds c c' b taken input out written s e ∙ fed_it,
        record {
          c = inside.c;
          is_open = inside.is_open;
          was_fed =
              inside.was_fed
              ∙ ap (λ (v : List ℕ). v ++ drop taken (b ∷ input)) now_fed
              ∙ append_assoc (fed c) (take taken (b ∷ input)) (drop taken (b ∷ input))
              ∙ ap (◌++◌ (fed c)) (take-append-drop taken (b ∷ input));
          stands = inside.stands;
        },
      )

  pub sync_lem :
      (base whole : List ℕ) (w : ℕ) (s : Stream C F)
      → Inside base whole s
      → Inside base whole (sync codec fwrite fclose level flush_seconds w s).1
  unfolding sync synced
  sync_lem base whole w s h = elim (Bool-cases (ltb 0 w)) [
    | inl some_written ↦
        rw some_written
          (record { c = h.c; is_open = h.is_open; was_fed = h.was_fed; stands = h.stands })
    | inr none_written ↦
        rw none_written
          (elim (Bool-cases (ltb_ℤ (s.last_sync +ℤ flush_seconds) (s.clock s.readings))) [
            | inr recent ↦
                rw recent
                  (record { c = h.c; is_open = h.is_open; was_fed = h.was_fed; stands = h.stands })
            | inl late ↦
                let (out, c', e, now_fed, now_out) = flushes h.c in
                rw (late, h.is_open)
                  (rw e (record {
                    c = c';
                    is_open = refl;
                    was_fed = now_fed ∙ h.was_fed;
                    stands =
                        (put out s.file).1
                        ∙ ap (λ (v : List ℕ). v ++ out) h.stands
                        ∙ append_assoc base (emitted h.c) out
                        ∙ ap (◌++◌ base) (sym now_out);
                  }))
          ])
  ]
