-- ===== src/Ttyrec/Output/Recorded/Snoc.antt =====
-- What one record or one recording more adds to the lists of the specification.
use ovh_ttyrec.Base.{
  Bool, List, [], ap, append-nil, append_assoc, if◌then◌else◌, refl, sym, ℕ, ◌++◌, ◌∙◌, ◌∷◌, ◌≡◌,
}
use ovh_ttyrec.Io.{Endian}
use ovh_ttyrec.Recording.{Record, record_bytes, file_bytes, payloads}
use ovh_ttyrec.Ttyplay.Read.Plain.{Playable}
use ovh_ttyrec.Ttyplay.Play.Replay.{AllPlayable}
use ovh_ttyrec.Ttyrec.Output.{Fd}
use ovh_ttyrec.Ttyrec.Output.Recorded.{kept, all_payloads, AreRecordings}

-- A record more, and a recording more.
pub file_bytes_snoc :
    (e : Endian) (rs : List Record) (q : Record)
    → file_bytes e (rs ++ q ∷ []) ≡ file_bytes e rs ++ record_bytes e q
file_bytes_snoc e [] q = append-nil (record_bytes e q)
file_bytes_snoc e (r ∷ rs) q =
    ap (◌++◌ (record_bytes e r)) (file_bytes_snoc e rs q)
    ∙ sym (append_assoc (record_bytes e r) (file_bytes e rs) (record_bytes e q))

pub payloads_snoc :
    (rs : List Record) (q : Record) → payloads (rs ++ q ∷ []) ≡ payloads rs ++ q.payload
payloads_snoc [] q = append-nil q.payload
payloads_snoc (r ∷ rs) q =
    ap (◌++◌ r.payload) (payloads_snoc rs q) ∙ sym (append_assoc r.payload (payloads rs) q.payload)

pub AllPlayable-snoc :
    (rs : List Record) (q : Record) → AllPlayable rs → Playable q → AllPlayable (rs ++ q ∷ [])
AllPlayable-snoc [] q h k = (k, tt)
AllPlayable-snoc (r ∷ rs) q h k = (h.0, AllPlayable-snoc rs q h.1 k)

pub kept-append :
    (hide : Fd → Bool) (xs ys : List (Fd × List ℕ))
    → kept hide (xs ++ ys) ≡ kept hide xs ++ kept hide ys
kept-append hide [] ys = refl
kept-append hide ((fd, bs) ∷ xs) ys =
    let first = (if hide fd then [] else bs) in
    ap (◌++◌ first) (kept-append hide xs ys)
    ∙ sym (append_assoc first (kept hide xs) (kept hide ys))

pub all_payloads_snoc :
    (all : List (List Record)) (rs : List Record)
    → all_payloads (all ++ rs ∷ []) ≡ all_payloads all ++ payloads rs
all_payloads_snoc [] rs = append-nil (payloads rs)
all_payloads_snoc (qs ∷ all) rs =
    ap (◌++◌ (payloads qs)) (all_payloads_snoc all rs)
    ∙ sym (append_assoc (payloads qs) (all_payloads all) (payloads rs))

pub AreRecordings-snoc :
    {S : Type 0} (view : S → List ℕ) (e : Endian) (fs : List S) (all : List (List Record)) (f : S)
    (rs : List Record)
    → AreRecordings view e fs all
    → view f ≡ file_bytes e rs
    → AllPlayable rs
    → AreRecordings view e (fs ++ f ∷ []) (all ++ rs ∷ [])
AreRecordings-snoc view e [] [] f rs h k p = (k, p, tt)
AreRecordings-snoc view e (g ∷ fs) (qs ∷ all) f rs h k p =
    (h.0, h.1, AreRecordings-snoc view e fs all f rs h.2 k p)
AreRecordings-snoc view e _ _ f rs h k p = absurd h
