-- ===== src/Event/Timer.antt =====
-- core/Event.cpp, CTimer and CEventExImplement::SetTimer: a timer is a descriptor of timerfd, registered for reading.
use byron0416_mp.Event.{Epoll, Engin, register_rd, unregister}
use byron0416_mp.Prelude.{
  ℕ, ◌+◌, ◌*◌, ◌/◌, ◌%◌, ◌^◌, ◌<◌, ◌≡◌, Bool, true, false, ◌&&◌, Option, none, some, arith, ◌==◌,
  if◌then◌else◌, mul64,
}

-- struct itimerspec.
pub record TimerSpec : Type 0 where
  pub value_sec : ℕ
  pub value_nsec : ℕ
  pub interval_sec : ℕ
  pub interval_nsec : ℕ

abbrev pub timer_spec : ℕ → ℕ → TimerSpec
timer_spec value interval = record {
  value_sec = value / 1000000000;
  value_nsec = value % 1000000000;
  interval_sec = interval / 1000000000;
  interval_nsec = interval % 1000000000;
}

-- timerfd_create (none where it fails), timerfd_settime and close.
pub record TimerCalls (W : Type 0) : Type 0 where
  pub create : W → Option ℕ × W
  pub settime : ℕ → TimerSpec → W → Bool × W
  pub close : ℕ → W → W

-- m_Fd, none for -1, and the engine.
pub record Timer (W : Type 0) : Type 0 where
  pub fd : Option ℕ
  pub engin : Engin W

module _ (ep : Epoll) (calls : TimerCalls ep.World) (e : ℕ) where
  abbrev T : Type 0
  T = Timer ep.World

  unfoldable pub uninitialize : T → T
  uninitialize t = elim t.fd [
    | none ↦ t
    | some fd ↦
        let s = (unregister ep e t.engin).1 in
        record { fd = none; engin = record s { world = calls.close fd s.world } }
  ]

  unfoldable pub initialize : T → Bool × T
  initialize t = elim t.fd [
    | some fd ↦ (true, t)
    | none ↦
        let r = calls.create t.engin.world in
        let s : Engin ep.World = record t.engin { world = r.1 } in
        elim r.0 [
          | none ↦ (false, record { fd = none; engin = s })
          | some fd ↦ let q = register_rd ep e s in (q.0, record { fd = some fd; engin = q.1 })
        ]
  ]

  -- timerfd_settime on m_Fd.
  unfoldable pub arm : ℕ → ℕ → T → Bool × T
  arm value interval t = elim t.fd [
    | none ↦ (false, t)
    | some fd ↦
        let r = calls.settime fd (timer_spec value interval) t.engin.world in
        (r.0, record t { engin = record t.engin { world = r.1 } })
  ]

  -- CTimer::SetTimer, in nanoseconds.
  unfoldable pub set_timer : ℕ → ℕ → T → Bool × T
  set_timer value interval t =
      if (value == 0) && (interval == 0)
      then (true, uninitialize t)
      else (let r = initialize t in if r.0 then arm value interval r.1 else (false, r.1))

  -- CEventExImplement::SetTimer, in milliseconds.
  unfoldable pub set_timer_ms : ℕ → ℕ → T → Bool × T
  set_timer_ms value interval t = set_timer (mul64 value 1000000) (mul64 interval 1000000) t

-- What SetTimer hands to the kernel for a time in milliseconds is a valid time, and the same one, as
-- long as the nanoseconds fit 64 bits.
pub timer_spec-ms :
    (value interval : ℕ)
    → value * 1000000 < 2 ^ 64
    → interval * 1000000 < 2 ^ 64
    → ((timer_spec (mul64 value 1000000) (mul64 interval 1000000)).value_nsec < 1000000000)
      × ((timer_spec (mul64 value 1000000) (mul64 interval 1000000)).interval_nsec < 1000000000)
      × ((timer_spec (mul64 value 1000000) (mul64 interval 1000000)).value_sec * 1000000000
            + (timer_spec (mul64 value 1000000) (mul64 interval 1000000)).value_nsec
          ≡ value * 1000000)
      × ((timer_spec (mul64 value 1000000) (mul64 interval 1000000)).interval_sec * 1000000000
            + (timer_spec (mul64 value 1000000) (mul64 interval 1000000)).interval_nsec
          ≡ interval * 1000000)
timer_spec-ms value interval hv hi = (omega arith, omega arith, omega arith, omega arith)
