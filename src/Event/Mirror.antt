-- ===== src/Event/Mirror.antt =====
-- core/Event.cpp: m_Added and the kernel's interest set.
use byron0416_mp.Prelude.{
  ℕ, ◌≡◌, Bool, true, false, ◌&&◌, [], ◌∷◌, ◌++◌, arith, ==_iff, if◌then◌else◌,
}
use byron0416_mp.Event.{
  Interest, Epoll, Engin, set_flag, add, modify, del, add_priority, unregister, register,
  register_priority,
}

-- What epoll_ctl(2) says: the interest set changes when the call succeeds, and only at the event
-- that the call names.
pub record IsEpoll (ep : Epoll) : Type 0 where
  pub holds : ep.World → ℕ → Bool
  pub added :
      (e : ℕ) (i : Interest) (w : ep.World) (x : ℕ)
      → holds (ep.ctl_add e i w).1 x
        ≡ (if (ep.ctl_add e i w).0 then set_flag (holds w) e true x else holds w x)
  pub modified :
      (e : ℕ) (i : Interest) (w : ep.World) (x : ℕ) → holds (ep.ctl_mod e i w).1 x ≡ holds w x
  pub removed :
      (e : ℕ) (w : ep.World) (x : ℕ)
      → holds (ep.ctl_del e w).1 x
        ≡ (if (ep.ctl_del e w).0 then set_flag (holds w) e false x else holds w x)

module _ (ep : Epoll) (law : IsEpoll ep) where
  -- For an event, its m_Added agrees with the kernel's set.
  abbrev pub IsMirror : ℕ → Engin ep.World → Type 0
  IsMirror x s = s.added x ≡ law.holds s.world x

  unregister-IsMirror :
      (e x : ℕ) (s : Engin ep.World) → IsMirror x s → IsMirror x (unregister ep e s).1
  unfolding unregister del
  unregister-IsMirror e x s h = ground (arith, law.removed e s.world x, h)

  register-IsMirror :
      (e x : ℕ) (reads writes : Bool) (s : Engin ep.World)
      → IsMirror x s
      → IsMirror x (register ep e reads writes s).1
  unfolding register add modify
  register-IsMirror e x reads writes s h =
      let i : Interest = record { reads = reads; writes = writes; edge = true } in
      ground (arith, law.added e i s.world x, law.modified e i s.world x, h)

  register_priority-IsMirror :
      (e x : ℕ) (s : Engin ep.World) → IsMirror x s → IsMirror x (register_priority ep e s).1
  unfolding register_priority add_priority add
  register_priority-IsMirror e x s h =
      let t = (unregister ep e s).1 in
      let i : Interest = record { reads = true; writes = false; edge = false } in
      ground (arith, unregister-IsMirror e x s h, law.added e i t.world x)

  -- Register, Unregister and RegisterPriority keep m_Added of every event in step with the kernel's
  -- set, whichever calls of epoll_ctl fail on the way.
  pub registration-IsMirror :
      (e x : ℕ) (reads writes : Bool) (s : Engin ep.World)
      → IsMirror x s
      → IsMirror x (register ep e reads writes s).1
        × IsMirror x (unregister ep e s).1
        × IsMirror x (register_priority ep e s).1
  registration-IsMirror e x reads writes s h = (
    register-IsMirror e x reads writes s h,
    unregister-IsMirror e x s h,
    register_priority-IsMirror e x s h,
  )

  -- When Unregister returns true, the event is not in the kernel's set, and in a round that is
  -- going on it is marked for the rest of the round, if it was registered.
  pub unregister-holds :
      (e : ℕ) (s : Engin ep.World)
      → IsMirror e s
      → (unregister ep e s).0 ≡ true
      → (law.holds (unregister ep e s).1.world e ≡ false)
        × ((unregister ep e s).1.deleted
            ≡ (if s.added e && s.doing then s.deleted ++ (e ∷ []) else s.deleted))
  unfolding unregister del
  unregister-holds e s h done = ground (arith, law.removed e s.world e, h, done, ==_iff e e)
