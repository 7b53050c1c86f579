-- ===== src/Ttyrec/Input/Codes.antt =====
-- The two codes that `handle_cheatcodes` knows.
use ovh_ttyrec.Base.{
  Bool, Bool-cases, List, [], ap, ap₂, arith, drop, false, get_or, if◌then◌else◌, inl, inr, length,
  refl, suc, sym, take, true, zero, ℕ, ℤ, ◌%◌, ◌++◌, ◌+◌, ◌-◌, ◌<◌, ◌==◌, ◌↔◌, ◌∙◌, ◌∷◌, ◌≡◌, ◌≢◌,
  ◌≤◌,
}
use ovh_ttyrec.Ttyrec.Process.{sigterm, sigurg, kill, Process}
use ovh_ttyrec.Ttyrec.Session.{do_lock}
use ovh_ttyrec.Ttyrec.Session.Storm.{sends}
use ovh_ttyrec.Ttyrec.Input.{
  ctrl_l, ctrl_k, ctrl_i, Keys, next_of_kill, lock_key, kill_key, handle_cheatcodes,
}

-- The static variables behind one more character, and behind all of them, the last one first.
abbrev pub pressed : ℕ → Keys → Keys
pressed c keys = record {
  lockseq = (lock_key c keys.lockseq).0;
  killseq = (kill_key c keys.killseq).0;
}

unfoldable pub keys_of : List ℕ → Keys
keys_of [] = record { lockseq = 0; killseq = 0 }
keys_of (c ∷ before) = pressed c (keys_of before)

keys_lem :
    (now : ℤ) (c : ℕ) (keys : Keys) (p : Process)
    → (handle_cheatcodes true now c keys p).0 ≡ pressed c keys
unfolding handle_cheatcodes
keys_lem now c keys p = refl

-- How many ^L in a row were typed last.
abbrev pub trailing : List ℕ → ℕ
trailing [] = 0
trailing (c ∷ before) = if c == ctrl_l then trailing before + 1 else 0

-- The code that kills, the last character first.
abbrev pub kill_code : List ℕ
kill_code = ctrl_l ∷ ctrl_l ∷ ctrl_i ∷ ctrl_k ∷ ctrl_l ∷ ctrl_l ∷ ctrl_i ∷ ctrl_k ∷ []

lockseq_lem : (before : List ℕ) → (keys_of before).lockseq ≡ trailing before % 8
unfolding keys_of lock_key
lockseq_lem [] = refl
lockseq_lem (c ∷ before) = ground (arith, lockseq_lem before)

-- An element stands in front of what is behind it.
drop_at : (n : ℕ) (xs : List ℕ) → n < length xs → drop n xs ≡ get_or xs n 0 ∷ drop (suc n) xs
drop_at n [] h = absurd (omega arith)
drop_at zero (x ∷ xs) h = refl
drop_at (suc n) (x ∷ xs) h = drop_at n xs (omega arith)

-- The key that is waited for is the next one of the code.
next_of_kill_lem : (c k : ℕ) → next_of_kill c k ≡ true → (k < 8) × (c ≡ get_or kill_code (7 - k) 0)
unfolding next_of_kill
next_of_kill_lem c k h = ground arith

code_grows :
    (k c : ℕ) (before : List ℕ)
    → k < 8
    → c ≡ get_or kill_code (7 - k) 0
    → take k before ≡ drop (8 - k) kill_code
    → take (k + 1) (c ∷ before) ≡ drop (8 - (k + 1)) kill_code
code_grows k c before h key h' =
    let more : k + 1 ≡ suc k = omega arith in
    let less : suc (7 - k) ≡ 8 - k = omega arith in
    let same : 7 - k ≡ 8 - (k + 1) = omega arith in
    ap (λ (n : ℕ). take n (c ∷ before)) more
    ∙ ap₂ ◌∷◌ key (h' ∙ ap (λ (n : ℕ). drop n kill_code) (sym less))
    ∙ sym (drop_at (7 - k) kill_code (omega arith))
    ∙ ap (λ (n : ℕ). drop n kill_code) same

killseq_lem :
    (before : List ℕ)
    → let k = (keys_of before).killseq in (k ≤ 8) × (take k before ≡ drop (8 - k) kill_code)
unfolding keys_of kill_key
killseq_lem [] = (omega arith, refl)
killseq_lem (c ∷ before) =
    let k = (keys_of before).killseq in
    elim (Bool-cases (next_of_kill c k)) [
      | inr off ↦ rw off (omega arith, refl)
      | inl is ↦
          let key = next_of_kill_lem c k is in
          rw is (omega (arith, key.0), code_grows k c before key.0 key.1 (killseq_lem before).1)
    ]

-- What the calls hold.
codes_send :
    (locks kills : Bool) (now : ℤ) (p : Process)
    → let calls =
        (if locks then do_lock now p else (p, [])).1
        ++ (if kills then kill p.child sigterm ∷ [] else []) in
      (sends p.child sigurg calls ≡ locks) × (sends p.child sigterm calls ≡ kills)
unfolding do_lock
codes_send true true now p = ground arith
codes_send true false now p = ground arith
codes_send false true now p = ground arith
codes_send false false now p = ground arith

lock_key_iff : (c k : ℕ) → ((lock_key c k).1 ≡ true) ↔ ((c ≡ ctrl_l) × (8 ≤ k + 1))
unfolding lock_key
lock_key_iff c k = ground arith

-- With the codes enabled, a character locks the session exactly where it is the 8th ^L in a row, or the
-- 16th, and so on.
pub lock_code_iff :
    (before : List ℕ) (now : ℤ) (c : ℕ) (p : Process)
    → (sends p.child sigurg (handle_cheatcodes true now c (keys_of before) p).2 ≡ true)
      ↔ ((c ≡ ctrl_l) × (trailing (c ∷ before) % 8 ≡ 0))
unfolding handle_cheatcodes
lock_code_iff before now c p =
    let sent =
      codes_send (lock_key c (keys_of before).lockseq).1 (kill_key c (keys_of before).killseq).1 now
        p in
    let key = lock_key_iff c (keys_of before).lockseq in
    let k = lockseq_lem before in
    (
      λ h. ground (arith, key.0 (sym sent.0 ∙ h), k),
      λ h. sent.0 ∙ key.1 (h.0, ground (arith, h, k)),
    )

kill_key_next :
    (before : List ℕ) (c : ℕ)
    → (kill_key c (keys_of before).killseq).1 ≡ true
    → (keys_of (c ∷ before)).killseq ≡ 8
unfolding kill_key keys_of
kill_key_next before c h = ground (arith, h, (killseq_lem (c ∷ before)).0)

-- With the codes enabled, a character kills the session only where it is the last one of the code ^K ^I
-- ^L ^L ^K ^I ^L ^L.
pub kill_code_needed :
    (before : List ℕ) (now : ℤ) (c : ℕ) (p : Process)
    → sends p.child sigterm (handle_cheatcodes true now c (keys_of before) p).2 ≡ true
    → take 8 (c ∷ before) ≡ kill_code
unfolding handle_cheatcodes
kill_code_needed before now c p h =
    let sent =
      codes_send (lock_key c (keys_of before).lockseq).1 (kill_key c (keys_of before).killseq).1 now
        p in
    let all = kill_key_next before c (sym sent.1 ∙ h) in rw all at (killseq_lem (c ∷ before)).1

-- From 0 on, the whole code leads to the end.
code_runs :
    (k : ℕ)
    → k ≡ 0
    → (kill_key ctrl_l
        (kill_key ctrl_l
          (kill_key ctrl_i
            (kill_key ctrl_k
              (kill_key ctrl_l
                (kill_key ctrl_l (kill_key ctrl_i (kill_key ctrl_k k).0).0).0).0).0).0).0).1
      ≡ true
unfolding kill_key next_of_kill
code_runs k h =
    ap
      (λ (n : ℕ).
        (kill_key ctrl_l
          (kill_key ctrl_l
            (kill_key ctrl_i
              (kill_key ctrl_k
                (kill_key ctrl_l
                  (kill_key ctrl_l (kill_key ctrl_i (kill_key ctrl_k n).0).0).0).0).0).0).0).1)
      h

foreign_resets :
    (k other : ℕ) → other ≢ ctrl_l → other ≢ ctrl_k → other ≢ ctrl_i → (kill_key other k).0 ≡ 0
unfolding kill_key next_of_kill
foreign_resets k other nl nk ni = ground (arith, nl, nk, ni)

-- Behind a character that the code does not have, the whole code kills the session.
pub kill_code_works :
    (before : List ℕ) (now : ℤ) (other : ℕ) (p : Process)
    → other ≢ ctrl_l
    → other ≢ ctrl_k
    → other ≢ ctrl_i
    → let typed = ctrl_l ∷ ctrl_i ∷ ctrl_k ∷ ctrl_l ∷ ctrl_l ∷ ctrl_i ∷ ctrl_k ∷ other ∷ before in
      sends p.child sigterm (handle_cheatcodes true now ctrl_l (keys_of typed) p).2 ≡ true
unfolding handle_cheatcodes keys_of
kill_code_works before now other p nl nk ni =
    let typed = ctrl_l ∷ ctrl_i ∷ ctrl_k ∷ ctrl_l ∷ ctrl_l ∷ ctrl_i ∷ ctrl_k ∷ other ∷ before in
    let sent =
      codes_send (lock_key ctrl_l (keys_of typed).lockseq).1
        (kill_key ctrl_l (keys_of typed).killseq).1 now p in
    sent.1
    ∙ code_runs (keys_of (other ∷ before)).killseq
        (foreign_resets (keys_of before).killseq other nl nk ni)
