-- ===== src/Ttyrec/Session/Storm/Views.antt =====
-- What a delivery does to the roles, the locks and the pending signals.
use ovh_ttyrec.Base.{arith, false, not, true, ◌||◌, ◌≡◌}
use ovh_ttyrec.Ttyrec.Process.{nonzero, locked}
use ovh_ttyrec.Ttyrec.Session.{peer, redraw, lock_screen, lock_session, unlock_session}
use ovh_ttyrec.Ttyrec.Session.Storm.{
  System, Circumstance, AreRoles, lock_parent, lock_child, unlock_parent, unlock_child,
}

module _ (c : Circumstance) (s : System) (roles : AreRoles s) where
  pub lock_parent_view :
      nonzero c.now ≡ true
      → let t = lock_parent c s in
        (locked t.parent.activity ≡ true)
        × (locked t.child.activity ≡ locked s.child.activity)
        × (t.parent_urg ≡ false)
        × (t.child_urg ≡ s.child_urg || not (locked s.parent.activity))
        × (t.parent_usr2 ≡ s.parent_usr2)
        × (t.child_usr2 ≡ s.child_usr2)
        × AreRoles t
  unfolding lock_parent lock_session peer lock_screen
  lock_parent_view n = ground (arith, roles)

  pub lock_child_view :
      nonzero c.now ≡ true
      → let t = lock_child c s in
        (locked t.child.activity ≡ true)
        × (locked t.parent.activity ≡ locked s.parent.activity)
        × (t.child_urg ≡ false)
        × (t.parent_urg ≡ s.parent_urg || not (locked s.child.activity))
        × (t.parent_usr2 ≡ s.parent_usr2)
        × (t.child_usr2 ≡ s.child_usr2)
        × AreRoles t
  unfolding lock_child lock_session peer lock_screen
  lock_child_view n = ground (arith, roles)

  pub unlock_parent_view :
      let t = unlock_parent c s in
      (locked t.parent.activity ≡ false)
      × (locked t.child.activity ≡ locked s.child.activity)
      × (t.parent_usr2 ≡ false)
      × (t.child_usr2 ≡ s.child_usr2 || locked s.parent.activity)
      × (t.parent_urg ≡ s.parent_urg)
      × (t.child_urg ≡ s.child_urg)
      × AreRoles t
  unfolding unlock_parent unlock_session peer redraw
  unlock_parent_view = ground (arith, roles)

  pub unlock_child_view :
      let t = unlock_child c s in
      (locked t.child.activity ≡ false)
      × (locked t.parent.activity ≡ locked s.parent.activity)
      × (t.child_usr2 ≡ false)
      × (t.parent_usr2 ≡ s.parent_usr2 || locked s.child.activity)
      × (t.parent_urg ≡ s.parent_urg)
      × (t.child_urg ≡ s.child_urg)
      × AreRoles t
  unfolding unlock_child unlock_session peer redraw
  unlock_child_view = ground (arith, roles)
