-- ===== src/Ttyrec/Rotation.antt =====
-- `swing_output_file`, the handler of SIGUSR1.
pub mod Spacing
use ovh_ttyrec.Base.{
  Bool, List, Option, [], if◌then◌else◌, ltb_ℤ, negsuc, none, not, pos, scale, some, sub_ℕ, suc, ℕ,
  ℤ, ◌&&◌, ◌++◌, ◌+ℤ◌, ◌-ℤ◌, ◌/◌, ◌==◌, ◌∷◌,
}
use ovh_ttyrec.Header.{Timeval}
use ovh_ttyrec.Ttyrec.Process.{sigusr1, Effect, kill, nonzero, Process}

-- C's `/` on `long` cuts towards 0.
unfoldable pub quot : ℤ → ℕ → ℤ
quot (pos n) d = pos (n / d)
quot (negsuc n) d = sub_ℕ 0 (suc n / d)

unfoldable pub elapsed_ms : Timeval → Timeval → ℤ
elapsed_ms last now =
    scale 1000 (now.tv_sec -ℤ last.tv_sec) +ℤ quot (now.tv_usec -ℤ last.tv_usec) 1000

-- Whether a request is dropped because the last rotation is too recent. `last_rotate.tv_sec` is 0
-- before the first rotation.
unfoldable pub coalesced : Timeval → Timeval → Bool
coalesced last_rotate now =
    nonzero last_rotate.tv_sec && ltb_ℤ (elapsed_ms last_rotate now) (pos 250)

-- The file that is recorded to, those that are closed, and the time of the last rotation.
pub record Files {ℓ} (S : Type ℓ) : Type ℓ where
  pub fscript : S
  pub finished : List S
  pub last_rotate : Timeval

-- In the child: `opened` is what `fopen` gives for the new name; `none` is the end of the process by
-- `fail`.
unfoldable pub swing_in_child {ℓ} :
    {S : Type ℓ} → (S → S) → Timeval → Option S → Files S → Option (Files S)
swing_in_child fclose_wrapper now opened files =
    if coalesced files.last_rotate now then some files else elim opened [
      | none ↦ none
      | some new ↦ some (record {
        fscript = new;
        finished = files.finished ++ fclose_wrapper files.fscript ∷ [];
        last_rotate = now;
      })
    ]

-- Which process does the work: the child, which has a `subchild`; the parent forwards the signal to
-- it; the shell's process, where both are 0, does nothing.
unfoldable pub swing_output_file {ℓ} :
    {S : Type ℓ} → (S → S) → Timeval → Option S → Process → Files S → Option (Files S × List Effect)
swing_output_file fclose_wrapper now opened p files =
    if not (p.subchild == 0)
    then elim (swing_in_child fclose_wrapper now opened files) [
      | none ↦ none
      | some files' ↦ some (files', [])
    ]
    else if not (p.child == 0)
    then some (files, kill p.child sigusr1 ∷ [])
    else some (files, [])
