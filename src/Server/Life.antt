-- ===== src/Server/Life.antt =====
-- Server.cpp: CEngin::Run and CServer::Run as calls of the engine of Event, of its timer and of the sockets,
-- and the two destructors. The pool of sessions, which Run fills and the destructor deletes, is with Server.
-- none is a failed assert.

pub mod Owns
pub mod Returned
pub mod Taken
pub mod Tidy
mod Tests
use byron0416_mp.Event.Life.{Calls, Life, initialize, uninitialize}
use byron0416_mp.Event.Timer.{TimerCalls, Timer, set_timer_ms}
use byron0416_mp.Event.{Epoll, Interest}
use byron0416_mp.Event
use byron0416_mp.Prelude.{
  ℕ, Bool, true, false, zero, suc, List, [], ◌∷◌, Option, none, some, if◌then◌else◌, ◌||◌,
}
use byron0416_mp.Socket.{Net, Socket, tcp}
use byron0416_mp.Socket
use byron0416_mp.Text.{Text}
use byron0416_mp.Thread
use byron0416_mp.Thread.{Thread, new_thread}

-- The system's calls besides those of the sockets.
pub record Host (W : Type 0) : Type 0 where
  pub life : Calls W
  pub timers : TimerCalls W
  pub ctl_add : ℕ → Interest → W → Bool × W
  pub ctl_mod : ℕ → Interest → W → Bool × W
  pub ctl_del : ℕ → W → Bool × W

-- What a CEngin and a CServer have alike: the descriptor and the thread of m_Engin with its registrations,
-- the descriptor of the timer, and that of m_Listener. The worlds inside are those of the last calls.
pub record Parts (W : Type 0) : Type 0 where
  pub engin_fd : Option ℕ
  pub thread : Thread W
  pub event : Event.Engin W
  pub timer : Option ℕ
  pub listener : Option ℕ

pub record Server (W : Type 0) : Type 0 where
  pub own : Parts W
  pub engins : List (Parts W)

-- An int that a test against false reads: Attach returns the descriptor, or -1 on failure.
unfoldable pub as_bool : Option ℕ → Bool
as_bool none = true
as_bool (some zero) = false
as_bool (some (suc n)) = true

module _ (net : Net) (host : Host net.World) where
  abbrev pub W : Type 0
  W = net.World

  abbrev pub epoll : Epoll
  epoll = record {
    World = net.World;
    ctl_add = host.ctl_add;
    ctl_mod = host.ctl_mod;
    ctl_del = host.ctl_del;
  }

  -- The calls, each in the world w. The listener is event 0 of the engine, the timer event 1.
  unfoldable pub initialize_engin : Option ℕ → Parts W → W → Bool × Parts W × W
  initialize_engin affinity p w =
      let l : Life W = record { fd = p.engin_fd; thread = record p.thread { world = w } } in
      let r = initialize host.life affinity l in
      (r.0, record p { engin_fd = (r.1).fd; thread = (r.1).thread }, (r.1).thread.world)

  unfoldable pub uninitialize_engin : Parts W → W → Parts W × W
  uninitialize_engin p w =
      let l : Life W = record { fd = p.engin_fd; thread = record p.thread { world = w } } in
      let r = uninitialize host.life l in
      (record p { engin_fd = r.fd; thread = r.thread }, r.thread.world)

  unfoldable pub stop_thread : Parts W → W → Parts W × W
  stop_thread p w =
      let t = Thread.stop host.life.pthread (record p.thread { world = w }) in
      (record p { thread = t }, t.world)

  unfoldable pub set_timer : ℕ → ℕ → Parts W → W → Bool × Parts W × W
  set_timer value interval p w =
      let t : Timer W = record { fd = p.timer; engin = record p.event { world = w } } in
      let r = set_timer_ms epoll host.timers 1 value interval t in
      (r.0, record p { timer = (r.1).fd; event = (r.1).engin }, (r.1).engin.world)

  unfoldable pub unregister_listener : Parts W → W → Parts W × W
  unregister_listener p w =
      let r = Event.unregister epoll 0 (record p.event { world = w }) in
      (record p { event = r.1 }, (r.1).world)

  -- CEngin::Run behind the sessions.
  unfoldable pub attach_listener : ℕ → Parts W → W → Option (Bool × Parts W × W)
  attach_listener fd p w =
      elim (Socket.attach net tcp (some fd) (record { fd = p.listener; world = w })) [
        | none ↦ none
        | some (given, s) ↦ some (as_bool given, record p { listener = s.fd }, s.world)
      ]

  unfoldable pub arm_if : Bool × Parts W × W → Bool × Parts W × W
  arm_if (true, p, w) = set_timer 50 5 p w
  arm_if (false, p, w) = (false, p, w)

  unfoldable pub attach_and_arm : ℕ → Bool × Parts W × W → Option (Bool × Parts W × W)
  attach_and_arm fd (false, p, w) = some (false, p, w)
  attach_and_arm fd (true, p, w) = elim (attach_listener fd p w) [
    | none ↦ none
    | some r ↦ some (arm_if r)
  ]

  unfoldable pub run_engin : ℕ → ℕ → Parts W → W → Option (Bool × Parts W × W)
  run_engin fd affinity p w = attach_and_arm fd (initialize_engin (some affinity) p w)

  -- ~CEvent, which asserts of the object (event 0) and of its timer (event 1) that they are not
  -- registered.
  unfoldable pub drop_events : Parts W × W → Option (Parts W × W)
  drop_events (p, w) = if p.event.added 0 || p.event.added 1 then none else some (p, w)

  -- m_Engin.Stop and SetTimer(0, 0), with which both destructors begin.
  unfoldable pub halt : Parts W → W → Parts W × W
  halt p w = let (p₁, w₁) = stop_thread p w in let (_, p₂, w₂) = set_timer 0 0 p₁ w₁ in (p₂, w₂)

  -- The body of ~CEngin.
  unfoldable pub end_engin : Parts W → W → Parts W × W
  end_engin p w =
      let (p₂, w₂) = halt p w in
      let (p₃, w₃) = unregister_listener p₂ w₂ in
      let (p₄, w₄) = uninitialize_engin p₃ w₃ in (record p₄ { listener = none }, w₄)

  -- ~CEngin.
  unfoldable pub destroy_engin : Parts W → W → Option (Parts W × W)
  destroy_engin p w = drop_events (end_engin p w)

  -- The constructors.
  abbrev pub new_parts : W → Parts W
  new_parts w = record {
    engin_fd = none;
    thread = new_thread none w;
    event = record {
      world = w;
      priority = none;
      deleted = [];
      doing = false;
      has_engin = λ e. true;
      added = λ e. false;
    };
    timer = none;
    listener = none;
  }

  abbrev pub new_server : W → Server W
  new_server w = record { own = new_parts w; engins = [] }

  -- CServer::Run, with its one engine; the result of m_Engin.Initialize is ignored.
  unfoldable pub keep_engin : Server W → Bool × Parts W × W → Option (Bool × Server W × W)
  keep_engin s (true, p, w) =
      let (_, q, u) = initialize_engin none s.own w in
      some (true, record { own = q; engins = p ∷ s.engins }, u)
  keep_engin s (false, p, w) = elim (destroy_engin p w) [
    | none ↦ none
    | some (_, u) ↦ some (false, s, u)
  ]

  unfoldable pub run_listening : Server W → Option ℕ → W → Option (Bool × Server W × W)
  run_listening s none w = none
  run_listening s (some fd) w = elim (run_engin fd 0 (new_parts w) w) [
    | none ↦ none
    | some r ↦ keep_engin s r
  ]

  unfoldable pub run_server : Text → ℕ → Server W → W → Option (Bool × Server W × W)
  run_server ip port s w =
      elim (Socket.listen net ip port (record { fd = s.own.listener; world = w })) [
        | none ↦ none
        | some (ok, t) ↦
            let s' = record s { own = record s.own { listener = t.fd } } in
            if ok then run_listening s' t.fd t.world else some (false, s', t.world)
      ]

  unfoldable pub destroy_engins : List (Parts W) → W → Option W
  destroy_engins [] w = some w
  destroy_engins (p ∷ ps) w = elim (destroy_engin p w) [
    | none ↦ none
    | some (_, u) ↦ destroy_engins ps u
  ]

  unfoldable pub close_listener : Parts W → W → Parts W × W
  close_listener p w =
      let t : Socket W = Socket.close net (record { fd = p.listener; world = w }) in
      (record p { listener = t.fd }, t.world)

  unfoldable pub end_server : Parts W → W → Parts W × W
  end_server p w = let (q, u) = close_listener p w in uninitialize_engin q u

  -- ~CServer.
  unfoldable pub destroy_server : Server W → W → Option (Parts W × W)
  destroy_server s w =
      let (p, u) = halt s.own w in
      elim (destroy_engins s.engins u) [ none ↦ none | some v ↦ drop_events (end_server p v) ]
