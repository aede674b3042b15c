-- ===== src/Server/Life/Tidy.antt =====
-- CEngin and CServer: which of their events are registered, as the asserts of ~CEvent see it.
use byron0416_mp.Event.Timer.{TimerCalls, Timer, arm}
use byron0416_mp.Event.Timer
use byron0416_mp.Event.{Epoll, Engin, unregister, register, register_rd, add, modify, del}
use byron0416_mp.Prelude.{
  ℕ, ◌≡◌, ◌⊎◌, refl, ◌∙◌, Bool, true, false, Option, some, arith, inl, inr, Option-cases,
  if◌then◌else◌, ◌==◌,
}
use byron0416_mp.Server.Life.{
  Host, Parts, epoll, set_timer, halt, end_engin, stop_thread, unregister_listener,
  uninitialize_engin, drop_events, destroy_engin, end_server, close_listener,
}
use byron0416_mp.Socket.{Net}

-- Whatever is registered can be deregistered.
abbrev pub Deletes : (net : Net) → Host net.World → Type 0
Deletes net host = (e : ℕ) (w : net.World) → (host.ctl_del e w).0 ≡ true

-- Both events have an engine, and the timer is registered only if it has a descriptor.
pub record Fits {W : Type 0} (timer : Option ℕ) (s : Engin W) : Type 0 where
  pub object : s.has_engin 0 ≡ true
  pub its_timer : s.has_engin 1 ≡ true
  pub armed : (s.added 1 ≡ false) ⊎ ((fd : ℕ) × (timer ≡ some fd))

abbrev pub IsTidy : {W : Type 0} → Parts W → Type 0
IsTidy p = Fits p.timer p.event

module _ (net : Net) (host : Host net.World) (deletes : Deletes net host) where
  abbrev W : Type 0
  W = net.World

  abbrev ep : Epoll
  ep = epoll net host

  unregister-off :
      (e : ℕ) (s : Engin W) → s.has_engin e ≡ true → ((unregister ep e s).1).added e ≡ false
  unfolding unregister del
  unregister-off e s has = ground (arith, has, deletes e s.world)

  unregister-other :
      (e x : ℕ) (s : Engin W) → (x == e) ≡ false → ((unregister ep e s).1).added x ≡ s.added x
  unfolding unregister del
  unregister-other e x s other = ground (arith, other)

  unregister-has : (e x : ℕ) (s : Engin W) → ((unregister ep e s).1).has_engin x ≡ s.has_engin x
  unfolding unregister del
  unregister-has e x s = ground arith

  register_rd-has : (e x : ℕ) (s : Engin W) → ((register_rd ep e s).1).has_engin x ≡ s.has_engin x
  unfolding register_rd register add modify
  register_rd-has e x s = ground arith

  -- The timer is taken off: it is not registered, and the object is as it was.
  timer_off-added :
      (t : Timer W)
      → Fits t.fd t.engin
      → (((Timer.uninitialize ep host.timers 1 t).engin).added 1 ≡ false)
        × (((Timer.uninitialize ep host.timers 1 t).engin).added 0 ≡ t.engin.added 0)
        × (((Timer.uninitialize ep host.timers 1 t).engin).has_engin 0 ≡ true)
  unfolding Timer.uninitialize
  timer_off-added t h = elim (Option-cases t.fd) [
    | inl off ↦ (
      elim h.armed [
        | inl e ↦ simp (off, Timer.uninitialize) e
        | inr (fd, on) ↦ absurd (cc (off, on))
      ],
      simp (off, Timer.uninitialize) refl,
      simp (off, Timer.uninitialize) h.object,
    )
    | inr (fd, on) ↦ (
      simp (on, Timer.uninitialize) (unregister-off 1 t.engin h.its_timer),
      simp (on, Timer.uninitialize) (unregister-other 1 0 t.engin refl),
      simp (on, Timer.uninitialize) (unregister-has 1 0 t.engin ∙ h.object),
    )
  ]

  initialize-Fits :
      (t : Timer W)
      → Fits t.fd t.engin
      → Fits
          ((Timer.initialize ep host.timers 1 t).1).fd
          ((Timer.initialize ep host.timers 1 t).1).engin
  unfolding Timer.initialize
  initialize-Fits t h = elim (Option-cases t.fd) [
    | inr (fd, on) ↦
        simp (on, Timer.initialize)
          (record { object = h.object; its_timer = h.its_timer; armed = inr (fd, refl) })
    | inl off ↦ elim (Option-cases (host.timers.create t.engin.world).0) [
      | inl fails ↦
          simp (off, fails, Timer.initialize)
            (record {
              object = h.object;
              its_timer = h.its_timer;
              armed = elim h.armed [ inl e ↦ inl e | inr (fd, on) ↦ absurd (cc (off, on)) ];
            })
      | inr (fd, made) ↦
          let s : Engin W = record t.engin { world = (host.timers.create t.engin.world).1 } in
          simp (off, made, Timer.initialize)
            (record {
              object = register_rd-has 1 0 s ∙ h.object;
              its_timer = register_rd-has 1 1 s ∙ h.its_timer;
              armed = inr (fd, refl);
            })
    ]
  ]

  arm-Fits :
      (v i : ℕ) (t : Timer W)
      → Fits t.fd t.engin
      → Fits ((arm ep host.timers 1 v i t).1).fd ((arm ep host.timers 1 v i t).1).engin
  unfolding arm
  arm-Fits v i t h = elim (Option-cases t.fd) [
    | inl off ↦
        simp (off, arm)
          (record {
            object = h.object;
            its_timer = h.its_timer;
            armed = elim h.armed [ inl e ↦ inl e | inr (fd, on) ↦ absurd (cc (off, on)) ];
          })
    | inr (fd, on) ↦
        simp (on, arm)
          (record { object = h.object; its_timer = h.its_timer; armed = inr (fd, refl) })
  ]

  if-Fits :
      (b : Bool) (r q : Bool × Timer W)
      → Fits (r.1).fd (r.1).engin
      → Fits (q.1).fd (q.1).engin
      → Fits ((if b then r else q).1).fd ((if b then r else q).1).engin
  if-Fits true r q hr hq = hr
  if-Fits false r q hr hq = hq

  pub set_timer-IsTidy : (p : Parts W) (w : W) → IsTidy p → IsTidy (set_timer net host 50 5 p w).1
  unfolding set_timer Timer.set_timer_ms Timer.set_timer
  set_timer-IsTidy p w h =
      let t : Timer W = record { fd = p.timer; engin = record p.event { world = w } } in
      let on =
        initialize-Fits t
          (record { object = h.object; its_timer = h.its_timer; armed = h.armed }) in
      let r : Timer W = (Timer.initialize ep host.timers 1 t).1 in
      let kept =
        if-Fits (Timer.initialize ep host.timers 1 t).0 (arm ep host.timers 1 50000000 5000000 r)
          (false, r) (arm-Fits 50000000 5000000 r on) on in
      record { object = kept.object; its_timer = kept.its_timer; armed = kept.armed }

  -- What halt leaves.
  halt-added :
      (p : Parts W) (w : W)
      → IsTidy p
      → (((halt net host p w).0).event.added 1 ≡ false)
        × (((halt net host p w).0).event.added 0 ≡ p.event.added 0)
        × (((halt net host p w).0).event.has_engin 0 ≡ true)
  unfolding halt stop_thread set_timer Timer.set_timer_ms Timer.set_timer
  halt-added p w h =
      let u : W = (stop_thread net host p w).1 in
      timer_off-added (record { fd = p.timer; engin = record p.event { world = u } })
        (record { object = h.object; its_timer = h.its_timer; armed = h.armed })

  -- The asserts of ~CEvent hold at the end of ~CEngin,
  pub destroy_engin-ends :
      (p : Parts W) (w : W) → IsTidy p → destroy_engin net host p w ≡ some (end_engin net host p w)
  unfolding destroy_engin drop_events end_engin unregister_listener uninitialize_engin
  destroy_engin-ends p w h =
      let (off, same, has) = halt-added p w h in
      let (q, u) = halt net host p w in
      let s : Engin W = record q.event { world = u } in
      let object : (((unregister ep 0 s).1).added 0) ≡ false = unregister-off 0 s has in
      let its_timer : (((unregister ep 0 s).1).added 1) ≡ false =
        unregister-other 0 1 s refl ∙ off in
      rw (object, its_timer) refl

  -- and at the end of ~CServer, whose own event is never registered.
  pub end_server-ends :
      (p : Parts W) (w v : W)
      → IsTidy p
      → p.event.added 0 ≡ false
      → drop_events net host (end_server net host (halt net host p w).0 v)
        ≡ some (end_server net host (halt net host p w).0 v)
  unfolding drop_events end_server close_listener uninitialize_engin
  end_server-ends p w v h never =
      let (off, same, has) = halt-added p w h in let object = same ∙ never in rw (object, off) refl
