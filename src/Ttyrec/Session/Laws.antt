-- ===== src/Ttyrec/Session/Laws.antt =====
-- What locking and unlocking do in one process.
use Prim.Native.String.{String}
use ovh_ttyrec.Base.{
  Option, [], arith, false, if◌then◌else◌, length, pos, refl, true, ℕ, ℤ, ◌%◌, ◌+◌, ◌-◌, ◌<◌, ◌==◌,
  ◌^◌, ◌∷◌, ◌≡◌,
}
use ovh_ttyrec.Ttyrec.Process.{Signal, Winsize, kill, nonzero, locked, touch, Process}
use ovh_ttyrec.Ttyrec.Session.{
  pixels_per_row, one_row_more, one_row_less, redraw, peer, lock_screen, leave_lock_screen,
  lock_session, unlock_session, salute,
}

-- The size that `unlock_session` sets at the end is the size that it read, also where the size is
-- unknown or an addition wraps.
pub redraw_restores :
    (w : Winsize)
    → w.ws_row < 2 ^ 16
    → w.ws_ypixel < 2 ^ 16
    → one_row_less (pixels_per_row w) (one_row_more w) ≡ w
unfolding one_row_less one_row_more
redraw_restores w hr hy =
    let k = pixels_per_row w in
    let rows : ((w.ws_row + 1) % 2 ^ 16 + 2 ^ 16 - 1) % 2 ^ 16 ≡ w.ws_row = omega arith in
    let pixels : ((w.ws_ypixel + k) % 2 ^ 16 + 2 ^ 16 - k % 2 ^ 16) % 2 ^ 16 ≡ w.ws_ypixel =
      omega arith in
    λ i. record { ws_row = rows i; ws_ypixel = pixels i }

-- The index of the salutation lies in the table, for every number that `rand` gives.
pub salute_in_bounds : (rand : ℕ) → rand % length salute < length salute
salute_in_bounds rand = omega arith

-- A lock at a time that is not 0, then an unlock: the lock is gone and the activity is fresh. The
-- other process was told of both, once each; the child has drawn the lock screen and left it, and
-- the parent has had the terminal drawn again.
pub unlock_session-lock_session :
    (t now : ℤ) (rand : ℕ) (hostname : String) (msg : Option String) (w : Winsize)
    (lock unlock : Signal) (p : Process)
    → locked p.activity ≡ false
    → nonzero t ≡ true
    → let (p1, drawn) = lock_session t rand hostname msg lock p in
      let (p2, left) = unlock_session now w unlock p1 in
      (p2 ≡ record p { activity = touch now (record p.activity { locked_since = pos 0 }) })
      × (drawn
          ≡ kill (peer p) lock ∷ (if p.subchild == 0 then [] else lock_screen t rand hostname msg))
      × (left
          ≡ kill (peer p) unlock
            ∷ (if p.subchild == 0 then redraw p.child w else leave_lock_screen))
unfolding lock_session unlock_session peer
unlock_session-lock_session t now rand hostname msg w lock unlock p h n =
    rw h (rw n (refl, refl, refl))

-- A second lock, and an unlock of a session that is not locked, call nothing. The unlock still
-- counts as activity.
pub no_repeat :
    (t now : ℤ) (rand : ℕ) (hostname : String) (msg : Option String) (w : Winsize)
    (lock unlock : Signal) (p : Process)
    → (locked p.activity ≡ true → lock_session t rand hostname msg lock p ≡ (p, []))
      × (locked p.activity ≡ false
          → unlock_session now w unlock p ≡ (record p { activity = touch now p.activity }, []))
unfolding lock_session unlock_session
no_repeat t now rand hostname msg w lock unlock p = (λ h. rw h, λ h. rw h)
