-- ===== src/Examples/Pairs.antt =====
-- A library for the examples of compress_zstd.c: a frame has a 1 before each byte and a 0 at its end.
use ovh_ttyrec.Base.{
  Bool, List, Option, [], ap, append-nil, append_assoc, ap₂, arith, drop, false, get_or, inr,
  length, length-append, none, refl, some, suc, sym, true, zero, ℕ, ◌++◌, ◌+◌, ◌<◌, ◌∙◌, ◌∷◌, ◌≡◌,
  ◌≤◌,
}
use ovh_ttyrec.Compress.Zstd.{Codec}
use ovh_ttyrec.Compress.Zstd.Laws.{Lossless}
use ovh_ttyrec.Compress.Zstd.Reader.{Decoder}
use ovh_ttyrec.Compress.Zstd.Reader.Laws.{
  Inflates, Progress, at_end, inside, AreFrames, frames_bytes, contents,
}
use ovh_ttyrec.Compress.Zstd.Replay.{Agree}

abbrev pub pairs : List ℕ → List ℕ
pairs [] = []
pairs (b ∷ bs) = 1 ∷ b ∷ pairs bs

abbrev pub frame : List ℕ → List ℕ
frame c = pairs c ++ 0 ∷ []

abbrev pub frames : List (List ℕ) → List ℕ
frames [] = []
frames (c ∷ cs) = frame c ++ frames cs

abbrev pub concat : List (List ℕ) → List ℕ
concat [] = []
concat (c ∷ cs) = c ++ concat cs

abbrev pub unpair : List ℕ → List ℕ
unpair [] = []
unpair (zero ∷ xs) = unpair xs
unpair (suc n ∷ []) = []
unpair (suc n ∷ b ∷ xs) = b ∷ unpair xs

pub pairs-append : (xs ys : List ℕ) → pairs (xs ++ ys) ≡ pairs xs ++ pairs ys
pairs-append [] ys = refl
pairs-append (x ∷ xs) ys = ap (λ (v : List ℕ). 1 ∷ x ∷ v) (pairs-append xs ys)

unpair-frame : (c ys : List ℕ) → unpair (frame c ++ ys) ≡ c ++ unpair ys
unpair-frame [] ys = refl
unpair-frame (b ∷ c) ys = ap (◌∷◌ b) (unpair-frame c ys)

unpair-frames :
    (cs : List (List ℕ)) (ys : List ℕ) → unpair (frames cs ++ ys) ≡ concat cs ++ unpair ys
unpair-frames [] ys = refl
unpair-frames (c ∷ cs) ys =
    ap unpair (append_assoc (frame c) (frames cs) ys)
    ∙ unpair-frame c (frames cs ++ ys)
    ∙ ap (◌++◌ c) (unpair-frames cs ys)
    ∙ sym (append_assoc c (concat cs) (unpair ys))

frames-snoc : (cs : List (List ℕ)) (c : List ℕ) → frames cs ++ frame c ≡ frames (cs ++ c ∷ [])
frames-snoc [] c = sym (append-nil (frame c))
frames-snoc (d ∷ cs) c =
    append_assoc (frame d) (frames cs) (frame c) ∙ ap (◌++◌ (frame d)) (frames-snoc cs c)

-- The writer: what was put out, and what is kept back.
pub record Keeper : Type 0 where
  pub out : List ℕ
  pub held : List ℕ

abbrev pub pairing : Codec Keeper
pairing = record {
  create = λ level. inr (record { out = []; held = [] });
  compress_stream = λ c input. elim input [
    | [] ↦ none
    | b ∷ rest ↦ some ([], 1, record c { held = c.held ++ b ∷ [] })
  ];
  flush_stream = λ c. some (pairs c.held, record { out = c.out ++ c.held; held = [] });
  end_stream = λ c. frame c.held;
}

-- What an open frame put out, and its end.
whole_frame : (c : Keeper) → pairs c.out ++ frame c.held ≡ frame (c.out ++ c.held)
whole_frame c =
    sym (append_assoc (pairs c.out) (pairs c.held) (0 ∷ []))
    ∙ ap (λ (v : List ℕ). v ++ 0 ∷ []) (sym (pairs-append c.out c.held))

pub end_of_frame :
    (cs : List (List ℕ)) (xs : List ℕ) (c : Keeper)
    → xs ≡ frames cs
    → xs ++ (pairs c.out ++ frame c.held) ≡ frames (cs ++ (c.out ++ c.held) ∷ [])
end_of_frame cs xs c h = ap₂ ◌++◌ h (whole_frame c) ∙ frames-snoc cs (c.out ++ c.held)

unpair_all : (cs : List (List ℕ)) → unpair (frames cs) ≡ concat cs
unpair_all cs =
    ap unpair (sym (append-nil (frames cs))) ∙ unpair-frames cs [] ∙ append-nil (concat cs)

unpair_one : (c : List ℕ) → unpair (frame c) ≡ c
unpair_one c = ap unpair (sym (append-nil (frame c))) ∙ unpair-frame c [] ∙ append-nil c

pub decoded_end :
    (cs : List (List ℕ)) (xs : List ℕ) (c : Keeper)
    → xs ≡ frames cs
    → unpair (xs ++ (pairs c.out ++ frame c.held)) ≡ unpair xs ++ (c.out ++ c.held)
decoded_end cs xs c h =
    ap unpair (ap₂ ◌++◌ h (whole_frame c))
    ∙ unpair-frames cs (frame (c.out ++ c.held))
    ∙ ap₂ ◌++◌ (sym (unpair_all cs) ∙ ap unpair (sym h)) (unpair_one (c.out ++ c.held))

abbrev pub pairing-Lossless : Lossless pairing
pairing-Lossless = record {
  decode = unpair;
  IsFrames = λ xs. (cs : List (List ℕ)) × (xs ≡ frames cs);
  fed = λ c. c.out ++ c.held;
  emitted = λ c. pairs c.out;
  creates = λ level. (record { out = []; held = [] }, refl, refl, refl);
  compresses = λ c b input. (
    [],
    1,
    record c { held = c.held ++ b ∷ [] },
    refl,
    omega arith,
    sym (append_assoc c.out c.held (b ∷ [])),
    sym (append-nil (pairs c.out)),
  );
  flushes = λ c. (
    pairs c.held,
    record { out = c.out ++ c.held; held = [] },
    refl,
    append-nil (c.out ++ c.held),
    pairs-append c.out c.held,
  );
  no_frames = (([], refl), refl);
  ends = λ xs c h.
      ((h.0 ++ (c.out ++ c.held) ∷ [], end_of_frame h.0 xs c h.1), decoded_end h.0 xs c h.1);
}

-- The reader takes one byte at a time; its state is whether a byte follows a 1.
abbrev pub unpair_step : Bool → List ℕ → Option (List ℕ × ℕ × ℕ × Bool)
unpair_step after_one [] = none
unpair_step false (zero ∷ rest) = some ([], 1, 0, false)
unpair_step false (suc n ∷ rest) = some ([], 1, 1, true)
unpair_step true (b ∷ rest) = some (b ∷ [], 1, 1, false)

abbrev pub unpairing : Decoder Bool
unpairing = record { create = (false, 5); decompress_stream = unpair_step }

abbrev pub Inside : Bool → List ℕ → List ℕ → Type 0
Inside false f c = f ≡ frame c
Inside true f [] = ⊥
Inside true f (b ∷ c) = f ≡ b ∷ frame c

abbrev pub IsReady : Bool → Type 0
IsReady d = d ≡ false

pub unpair_steps :
    (d : Bool) (f c : List ℕ) (b : ℕ) (input later rest : List ℕ)
    → Inside d f c
    → 0 < length f
    → b ∷ input ++ later ≡ f ++ rest
    → (out : List ℕ) × (taken : ℕ) × (hint : ℕ) × (d' : Bool) × (unpair_step d (b ∷ input)
        ≡ some (out, taken, hint, d'))
      × (taken ≤ length (b ∷ input))
      × (0 < taken + length out)
      × Progress IsReady Inside f c out taken hint d'
unpair_steps false f [] zero input later rest h p e =
    ([], 1, 0, false, refl, omega arith, omega arith, at_end refl (omega (arith, ap length h)) refl)
unpair_steps false f [] (suc n) input later rest h p e = cc
unpair_steps false f (x ∷ c) zero input later rest h p e = cc
unpair_steps false f (x ∷ c) (suc n) input later rest h p e = (
  [],
  1,
  1,
  true,
  refl,
  omega arith,
  omega arith,
  inside (x ∷ c) (omega (arith, ap length h, length-append (pairs c) (0 ∷ []))) refl (ap (drop 1) h)
      (omega arith),
)
unpair_steps true f [] b input later rest h p e = absurd h
unpair_steps true f (x ∷ c) b input later rest h p e = (
  b ∷ [],
  1,
  1,
  false,
  refl,
  omega arith,
  omega arith,
  inside c (omega (arith, ap length h, length-append (pairs c) (0 ∷ [])))
      (ap (λ (y : ℕ). y ∷ c)
        (sym (ap (λ (v : List ℕ). get_or v 0 0) (e ∙ ap (λ (v : List ℕ). v ++ rest) h))))
      (ap (drop 1) h) (omega arith),
)

pub begin : (d : Bool) (f c : List ℕ) → d ≡ false → f ≡ frame c → Inside d f c
begin false f c r h = h
begin true f c r h = cc

abbrev pub unpairing-Inflates : Inflates unpairing
unpairing-Inflates = record {
  IsFrame = λ f c. f ≡ frame c;
  Ready = IsReady;
  Within = Inside;
  not_empty = λ f c h. omega (arith, ap length h, length-append (pairs c) (0 ∷ []));
  creates = (refl, omega arith);
  begins = begin;
  decompresses = unpair_steps;
}

-- The two fit.
as_frames : List (List ℕ) → List (List ℕ × List ℕ)
as_frames [] = []
as_frames (c ∷ cs) = (frame c, c) ∷ as_frames cs

as_frames-AreFrames : (cs : List (List ℕ)) → AreFrames unpairing unpairing-Inflates (as_frames cs)
unfolding as_frames
as_frames-AreFrames [] = _
as_frames-AreFrames (c ∷ cs) = (refl, as_frames-AreFrames cs)

bytes-as_frames : (cs : List (List ℕ)) → frames cs ≡ frames_bytes (as_frames cs)
unfolding as_frames
bytes-as_frames [] = refl
bytes-as_frames (c ∷ cs) = ap (◌++◌ (frame c)) (bytes-as_frames cs)

contents-as_frames : (cs : List (List ℕ)) → concat cs ≡ contents (as_frames cs)
unfolding as_frames
contents-as_frames [] = refl
contents-as_frames (c ∷ cs) = ap (◌++◌ c) (contents-as_frames cs)

pub pairing-Agree : Agree pairing unpairing pairing-Lossless unpairing-Inflates
pairing-Agree xs h = (
  as_frames h.0,
  as_frames-AreFrames h.0,
  h.1 ∙ bytes-as_frames h.0,
  ap unpair h.1 ∙ unpair_all h.0 ∙ contents-as_frames h.0,
)
