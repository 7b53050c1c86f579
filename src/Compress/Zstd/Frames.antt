-- ===== src/Compress/Zstd/Frames.antt =====
-- What a compressed file of compress_zstd.c stands for, and the writer as a `Reliable` one.
use ovh_ttyrec.Base.{
  List, [], ap, append-nil, append_assoc, arith, if◌then◌else◌, inl, inr, length, ltb_ℤ, none, pos,
  refl, some, sym, take, take_all, ℕ, ℤ, ◌*◌, ◌++◌, ◌+◌, ◌∙◌, ◌≡◌, ◌⊎◌,
}
use ovh_ttyrec.Stdio.{Fwrite}
use ovh_ttyrec.Compress.Zstd.{
  Codec, Stream, fed_all, open_stream, feed, sync, synced, fwrite_wrapper_zstd, fclose_wrapper_zstd,
}
use ovh_ttyrec.Compress.Zstd.Laws.{Lossless, Inside, feed_lem, sync_lem, put}
use ovh_ttyrec.Ttyrec.Output.Recorded.{Reliable}

module _ {C F : Type 0} (codec : Codec C) (lossless : Lossless codec) (fwrite : Fwrite F)
    (fclose : F → F) (good : Reliable F fwrite fclose)
    (counts : (bs : List ℕ) (size nmemb : ℕ) (f : F)
      → length bs ≡ size * nmemb
      → (fwrite bs size nmemb f).0 ≡ nmemb)
    (level flush_seconds : ℤ) where
  open lossless use {decode, IsFrames, fed, emitted, creates, no_frames, ends}
  open good use {view, closes}

  abbrev pub Within : List ℕ → List ℕ → Stream C F → Type 0
  Within base whole s =
      Inside codec lossless fwrite fclose good counts level flush_seconds base whole s

  abbrev pub write : Fwrite (Stream C F)
  write = fwrite_wrapper_zstd codec fwrite fclose level flush_seconds

  abbrev pub close : Stream C F → Stream C F
  close = fclose_wrapper_zstd codec fwrite fclose level flush_seconds

  -- The file holds whole frames, and behind them what an open frame has put out.
  pub record IsSound (s : Stream C F) : Type 0 where
    pub base : List ℕ
    pub whole : List ℕ
    pub is_frames : IsFrames base
    pub state : ((s.cstream ≡ none) × (view s.file ≡ base) × (whole ≡ [])) ⊎ Within base whole s

  -- The bytes that the file stands for, with those that the library still holds.
  abbrev pub content : (s : Stream C F) → IsSound s → List ℕ
  content s h = decode h.base ++ h.whole

  -- The call, by how the stream is opened.
  write_eq :
      (bs : List ℕ) (size nmemb : ℕ) (s s1 : Stream C F) (c : C) (w : ℕ) (t : Stream C F)
      → open_stream codec fwrite fclose level flush_seconds s ≡ (some c, s1)
      → (let input = take (size * nmemb) bs in
          feed codec fwrite fclose level flush_seconds (length input + 1) c input 0 s1
          ≡ fed_all w t)
      → write bs size nmemb s ≡ sync codec fwrite fclose level flush_seconds w t
  unfolding fwrite_wrapper_zstd
  write_eq bs size nmemb s s1 c w t o e = rw (o, fwrite_wrapper_zstd) (rw (o, e) refl)

  write_open :
      (bs : List ℕ) (size nmemb : ℕ) (base : List ℕ) (s s1 : Stream C F) (c : C)
      → open_stream codec fwrite fclose level flush_seconds s ≡ (some c, s1)
      → s1.cstream ≡ some c
      → view s1.file ≡ base ++ emitted c
      → Within base (fed c ++ take (size * nmemb) bs) (write bs size nmemb s).1
  write_open bs size nmemb base s s1 c o is_open stands =
      let input = take (size * nmemb) bs in
      let (w, t, e, inside) =
        feed_lem codec lossless fwrite fclose good counts level flush_seconds (length input + 1)
          base c input 0 s1 (omega arith) is_open stands in
      rw (write_eq bs size nmemb s s1 c w t o e) (
        sync_lem codec lossless fwrite fclose good counts level flush_seconds base (fed c ++ input)
          w t inside)

  opens_old :
      (s : Stream C F) (c : C)
      → s.cstream ≡ some c
      → open_stream codec fwrite fclose level flush_seconds s ≡ (some c, s)
  unfolding open_stream
  opens_old s c h = simp (h, open_stream) refl

  opens_new :
      (s : Stream C F) (c : C)
      → s.cstream ≡ none
      → codec.create (if ltb_ℤ level (pos 0) then pos 3 else level) ≡ inr c
      → open_stream codec fwrite fclose level flush_seconds s
        ≡ (some c, synced codec fwrite fclose level flush_seconds (record s { cstream = some c }))
  unfolding open_stream
  opens_new s c h made = rw (h, open_stream) (rw (made, open_stream) refl)

  pub write_lem :
      (bs : List ℕ) (size nmemb : ℕ) (s : Stream C F) (h : IsSound s)
      → (k : IsSound (write bs size nmemb s).1) × (content (write bs size nmemb s).1 k
          ≡ content s h ++ take (size * nmemb) bs)
  unfolding synced
  write_lem bs size nmemb s h = elim h.state [
    | inl (closed, stands, nothing) ↦
        let (c, made, not_fed, not_out) = creates (if ltb_ℤ level (pos 0) then pos 3 else level) in
        let t = synced codec fwrite fclose level flush_seconds (record s { cstream = some c }) in
        let now =
          write_open bs size nmemb h.base s t c (opens_new s c closed made) refl
            (stands ∙ sym (append-nil h.base) ∙ ap (◌++◌ h.base) (sym not_out)) in
        (
          record {
            base = h.base;
            whole = fed c ++ take (size * nmemb) bs;
            is_frames = h.is_frames;
            state = inr now;
          },
          sym (append_assoc (decode h.base) (fed c) (take (size * nmemb) bs))
              ∙ ap (λ (v : List ℕ). (decode h.base ++ v) ++ take (size * nmemb) bs)
                  (not_fed ∙ sym nothing),
        )
    | inr o ↦
        let now =
          write_open bs size nmemb h.base s s o.c (opens_old s o.c o.is_open) o.is_open o.stands in
        (
          record {
            base = h.base;
            whole = fed o.c ++ take (size * nmemb) bs;
            is_frames = h.is_frames;
            state = inr now;
          },
          sym (append_assoc (decode h.base) (fed o.c) (take (size * nmemb) bs))
              ∙ ap (λ (v : List ℕ). (decode h.base ++ v) ++ take (size * nmemb) bs) o.was_fed,
        )
  ]

  pub close_closed :
      (s : Stream C F) → s.cstream ≡ none → close s ≡ record s { file = fclose s.file }
  unfolding fclose_wrapper_zstd
  close_closed s h = simp (h, fclose_wrapper_zstd) refl

  pub close_open :
      (s : Stream C F) (c : C)
      → s.cstream ≡ some c
      → close s ≡ (
          let out = codec.end_stream c in
          record s { cstream = none; file = fclose (fwrite out 1 (length out) s.file).1 })
  unfolding fclose_wrapper_zstd
  close_open s c h = rw (h, fclose_wrapper_zstd) refl

  pub close_lem :
      (s : Stream C F) (h : IsSound s)
      → (k : IsSound (close s)) × (content (close s) k ≡ content s h)
        × (decode (view (close s).file) ≡ content s h)
  close_lem s h = elim h.state [
    | inl (closed, stands, nothing) ↦
        let eq = close_closed s closed in
        let same = ap (λ (t : Stream C F). view t.file) eq ∙ closes s.file ∙ stands in
        let gone = ap (λ (t : Stream C F). t.cstream) eq ∙ closed in
        (
          record {
            base = h.base;
            whole = h.whole;
            is_frames = h.is_frames;
            state = inl (gone, same, nothing);
          },
          refl,
          ap decode same
              ∙ sym (append-nil (decode h.base))
              ∙ ap (◌++◌ (decode h.base)) (sym nothing),
        )
    | inr o ↦
        let out = codec.end_stream o.c in
        let base = h.base ++ (emitted o.c ++ out) in
        let all = ends h.base o.c h.is_frames in
        let eq = close_open s o.c o.is_open in
        let same =
          ap (λ (t : Stream C F). view t.file) eq
          ∙ closes (fwrite out 1 (length out) s.file).1
          ∙ (put codec lossless fwrite fclose good counts level flush_seconds out s.file).1
          ∙ ap (λ (v : List ℕ). v ++ out) o.stands
          ∙ append_assoc h.base (emitted o.c) out in
        let decoded = all.1 ∙ ap (◌++◌ (decode h.base)) o.was_fed in
        (
          record {
            base = base;
            whole = [];
            is_frames = all.0;
            state = inl (ap (λ (t : Stream C F). t.cstream) eq, same, refl);
          },
          append-nil (decode base) ∙ decoded,
          ap decode same ∙ decoded,
        )
  ]

  -- A file with the knowledge of what it holds.
  abbrev pub Sound : Type 0
  Sound = (s : Stream C F) × IsSound s

  abbrev pub sound_write : Fwrite Sound
  sound_write bs size nmemb (s, h) =
      ((write bs size nmemb s).0, ((write bs size nmemb s).1, (write_lem bs size nmemb s h).0))

  abbrev pub sound_close : Sound → Sound
  sound_close (s, h) = (close s, (close_lem s h).0)

  -- The writer takes all bytes and the end of the file loses none: what the recorder relies on.
  abbrev pub zstd_reliable : Reliable Sound sound_write sound_close
  zstd_reliable = record {
    view = λ s. content s.0 s.1;
    appends = λ bs size nmemb s n.
        (write_lem bs size nmemb s.0 s.1).1
        ∙ ap (◌++◌ (content s.0 s.1)) (take_all (size * nmemb) bs (omega arith));
    closes = λ s. (close_lem s.0 s.1).1;
  }
