-- ===== src/Server/Life/Owns.antt =====
-- The calls that CEngin and CServer make, and what they take from the system and give back.
use byron0416_mp.Event.Life.{Life, initialize, uninitialize, IsProcess}
use byron0416_mp.Event.Life.Settles.{initialize-Settles}
use byron0416_mp.Event.Timer.{TimerCalls, Timer, TimerSpec, timer_spec, arm}
use byron0416_mp.Event.Timer
use byron0416_mp.Event.{Epoll, Interest, Engin, unregister, register, register_rd, add, modify, del}
use byron0416_mp.Prelude.{
  ℕ, ◌+◌, ◌-◌, ◌≡◌, refl, true, false, List, [], ◌∷◌, Option, none, some, arith, inl, inr,
  Option-cases,
}
use byron0416_mp.Process.{Resource, descriptor, thread, one, Takes, Gives, Keeps}
use byron0416_mp.Server.Life.{Host, Parts, Server, epoll}
use byron0416_mp.Socket.{Net}
use byron0416_mp.Socket.Ledger.{IsLedger}
use byron0416_mp.Thread.{Thread, stop}

-- What POSIX says of epoll_ctl and timerfd: timerfd_create takes a descriptor, close gives it back, and
-- the other calls leave what the process has alone.
pub record IsHost (net : Net) (host : Host net.World) (uses : net.World → Resource → ℕ)
    : Type 0 where
  pub process : IsProcess host.life uses
  pub timer_takes :
      (w : net.World) (fd : ℕ)
      → (host.timers.create w).0 ≡ some fd
      → Takes uses (descriptor fd) w (host.timers.create w).1
  pub timer_fails :
      (w : net.World) → (host.timers.create w).0 ≡ none → Keeps uses w (host.timers.create w).1
  pub timer_closes :
      (fd : ℕ) (w : net.World) → Gives uses (descriptor fd) w (host.timers.close fd w)
  pub settime_keeps :
      (fd : ℕ) (t : TimerSpec) (w : net.World) → Keeps uses w (host.timers.settime fd t w).1
  pub add_keeps : (e : ℕ) (i : Interest) (w : net.World) → Keeps uses w (host.ctl_add e i w).1
  pub mod_keeps : (e : ℕ) (i : Interest) (w : net.World) → Keeps uses w (host.ctl_mod e i w).1
  pub del_keeps : (e : ℕ) (w : net.World) → Keeps uses w (host.ctl_del e w).1

unfoldable pub held : (ℕ → Resource) → Option ℕ → Resource → ℕ
held r none x = 0
held r (some n) x = one (r n) x

-- A descriptor and a thread of the engine, and a descriptor of the timer.
abbrev pub owned : {W : Type 0} → Parts W → Resource → ℕ
owned p x = held descriptor p.engin_fd x + held thread p.thread.thread x + held descriptor p.timer x

abbrev pub all_owned : {W : Type 0} → List (Parts W) → Resource → ℕ
all_owned [] x = 0
all_owned (p ∷ ps) x = owned p x + all_owned ps x

-- What the server owns: its own engine, the listening socket, and what its engines own.
abbrev pub server_owned : {W : Type 0} → Server W → Resource → ℕ
server_owned s x = owned s.own x + held descriptor s.own.listener x + all_owned s.engins x

module _ (net : Net) (host : Host net.World) (uses : net.World → Resource → ℕ)
    (law : IsHost net host uses) (sockets : IsLedger net uses) where
  abbrev W : Type 0
  W = net.World

  proc : IsProcess host.life uses
  proc = law.process

  -- The thread and the engine.
  pub stop-gives :
      (t : Thread W) (x : Resource)
      → (uses (stop host.life.pthread t).world x ≡ uses t.world x - held thread t.thread x)
        × ((stop host.life.pthread t).thread ≡ none)
  unfolding stop held
  stop-gives t x = elim (Option-cases t.thread) [
    | inl idle ↦ (simp (idle, stop) (omega arith), simp (idle, stop))
    | inr (id, runs) ↦ (simp (runs, stop) (proc.join_gives id t.world x), simp (runs, stop) refl)
  ]

  pub uninitialize-gives :
      (l : Life W) (x : Resource)
      → (uses (uninitialize host.life l).thread.world x
          ≡ uses l.thread.world x - (held thread l.thread.thread x + held descriptor l.fd x))
        × ((uninitialize host.life l).fd ≡ none)
        × ((uninitialize host.life l).thread.thread ≡ none)
  unfolding uninitialize held
  uninitialize-gives l x =
      let stopped : Thread W = stop host.life.pthread l.thread in
      let (gives, none_left) = stop-gives l.thread x in
      elim (Option-cases l.fd) [
        | inl closed ↦ (
          simp (closed, uninitialize) (omega (arith, gives)),
          simp (closed, uninitialize) refl,
          simp (closed, uninitialize) none_left,
        )
        | inr (fd, opened) ↦ (
          simp (opened, uninitialize) (omega (arith, gives, proc.close_gives fd stopped.world x)),
          simp (opened, uninitialize) refl,
          simp (opened, uninitialize) none_left,
        )
      ]

  pub initialize-takes :
      (affinity : Option ℕ) (l : Life W) (x : Resource)
      → l.fd ≡ none
      → l.thread.thread ≡ none
      → uses ((initialize host.life affinity l).1).thread.world x
        ≡ uses l.thread.world x
          + held thread ((initialize host.life affinity l).1).thread.thread x
          + held descriptor ((initialize host.life affinity l).1).fd x
  unfolding held
  initialize-takes affinity l x no_fd no_thread =
      elim (initialize-Settles host.life uses proc l.thread.world affinity l
        (record { no_fd = no_fd; no_thread = no_thread; as_before = λ y. refl })) [
          | inl runs ↦ simp (runs.is_fd, runs.is_thread) (omega (arith, runs.both x))
          | inr (_, stopped) ↦
              simp (stopped.no_fd, stopped.no_thread) (omega (arith, stopped.as_before x))
        ]

  -- The registrations and the timer.
  abbrev ep : Epoll
  ep = epoll net host

  pub unregister-keeps :
      (e : ℕ) (s : Engin W) (x : Resource) → uses ((unregister ep e s).1).world x ≡ uses s.world x
  unfolding unregister del
  unregister-keeps e s x = ground (arith, law.del_keeps e s.world x)

  register_rd-keeps :
      (e : ℕ) (s : Engin W) (x : Resource) → uses ((register_rd ep e s).1).world x ≡ uses s.world x
  unfolding register_rd register add modify
  register_rd-keeps e s x =
      let i : Interest = record { reads = true; writes = false; edge = true } in
      ground (arith, law.add_keeps e i s.world x, law.mod_keeps e i s.world x)

  pub timer_off-gives :
      (t : Timer W) (x : Resource)
      → (uses ((Timer.uninitialize ep host.timers 1 t).engin).world x
          ≡ uses t.engin.world x - held descriptor t.fd x)
        × ((Timer.uninitialize ep host.timers 1 t).fd ≡ none)
  unfolding Timer.uninitialize held
  timer_off-gives t x = elim (Option-cases t.fd) [
    | inl off ↦ (simp (off, Timer.uninitialize) (omega arith), simp (off, Timer.uninitialize) refl)
    | inr (fd, on) ↦
        let left : W = ((unregister ep 1 t.engin).1).world in
        (
          simp (on, Timer.uninitialize)
              (omega (arith, law.timer_closes fd left x, unregister-keeps 1 t.engin x)),
          simp (on, Timer.uninitialize) refl,
        )
  ]

  pub timer_on-takes :
      (t : Timer W) (x : Resource)
      → uses (((Timer.initialize ep host.timers 1 t).1).engin).world x + held descriptor t.fd x
        ≡ uses t.engin.world x + held descriptor ((Timer.initialize ep host.timers 1 t).1).fd x
  unfolding Timer.initialize held
  timer_on-takes t x = elim (Option-cases t.fd) [
    | inr (fd, on) ↦ simp (on, Timer.initialize) (omega arith)
    | inl off ↦ elim (Option-cases (host.timers.create t.engin.world).0) [
      | inl fails ↦
          simp (off, fails, Timer.initialize) (omega (arith, law.timer_fails t.engin.world fails x))
      | inr (fd, made) ↦
          simp (off, made, Timer.initialize)
            (omega (
              arith,
              law.timer_takes t.engin.world fd made x,
              register_rd-keeps 1 (record t.engin { world = (host.timers.create t.engin.world).1 })
                  x,
            ))
    ]
  ]

  pub arm-keeps :
      (v i : ℕ) (t : Timer W) (x : Resource)
      → (uses (((arm ep host.timers 1 v i t).1).engin).world x ≡ uses t.engin.world x)
        × (((arm ep host.timers 1 v i t).1).fd ≡ t.fd)
  unfolding arm
  arm-keeps v i t x = elim (Option-cases t.fd) [
    | inl off ↦ (simp (off, arm) refl, simp (off, arm) refl)
    | inr (fd, on) ↦ (
      simp (on, arm) (law.settime_keeps fd (timer_spec v i) t.engin.world x),
      simp (on, arm) refl,
    )
  ]
