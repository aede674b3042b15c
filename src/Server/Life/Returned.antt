-- ===== src/Server/Life/Returned.antt =====
-- CEngin and CServer: what Run takes from the system, the destructors give back.
use byron0416_mp.Event.Life.{uninitialize}
use byron0416_mp.Event.Timer.{Timer, arm}
use byron0416_mp.Event.Timer
use byron0416_mp.Prelude.{
  false, All, some, refl, ℕ, ◌+◌, ◌-◌, ◌≡◌, ap, Bool, true, false, List, [], ◌∷◌, none, arith, inl,
  inr, Option-cases, if◌then◌else◌,
}
use byron0416_mp.Process.{Resource, descriptor, thread}
use byron0416_mp.Server.Life.{
  Host, Parts, Server, epoll, uninitialize_engin, stop_thread, set_timer, unregister_listener,
  destroy_engin, halt, end_engin, end_server, destroy_engins, close_listener, destroy_server,
}
use byron0416_mp.Server.Life.Owns.{
  IsHost, held, owned, all_owned, server_owned, stop-gives, uninitialize-gives, unregister-keeps,
  timer_off-gives, timer_on-takes, arm-keeps,
}
use byron0416_mp.Server.Life.Tidy.{Deletes, IsTidy, destroy_engin-ends, end_server-ends}
use byron0416_mp.Socket.{Net, Socket, tcp, attach, take_fd, set_non_block, make_non_block}
use byron0416_mp.Socket
use byron0416_mp.Socket.Ledger.{IsLedger}
use byron0416_mp.Thread.{Thread}

module _ (net : Net) (host : Host net.World) (uses : net.World → Resource → ℕ)
    (law : IsHost net host uses) (sockets : IsLedger net uses) (deletes : Deletes net host) where
  abbrev W : Type 0
  W = net.World

  -- The timer is off behind SetTimer(0, 0).
  set_timer-off :
      (p : Parts W) (w : W) (x : Resource)
      → (uses (set_timer net host 0 0 p w).2 x ≡ uses w x - held descriptor p.timer x)
        × (((set_timer net host 0 0 p w).1).timer ≡ none)
  unfolding set_timer Timer.set_timer_ms Timer.set_timer
  set_timer-off p w x =
      timer_off-gives net host uses law sockets
        (record { fd = p.timer; engin = record p.event { world = w } }) x

  if-either :
      (P : Timer W → Type 0) (b : Bool) (r q : Bool × Timer W)
      → P r.1
      → P q.1
      → P (if b then r else q).1
  if-either P true r q hr hq = hr
  if-either P false r q hr hq = hq

  pub set_timer-on :
      (p : Parts W) (w : W) (x : Resource)
      → uses (set_timer net host 50 5 p w).2 x + held descriptor p.timer x
        ≡ uses w x + held descriptor ((set_timer net host 50 5 p w).1).timer x
  unfolding set_timer Timer.set_timer_ms Timer.set_timer
  set_timer-on p w x =
      let t : Timer W = record { fd = p.timer; engin = record p.event { world = w } } in
      let on = timer_on-takes net host uses law sockets t x in
      let r : Timer W = (Timer.initialize (epoll net host) host.timers 1 t).1 in
      let (armed, kept) = arm-keeps net host uses law sockets 50000000 5000000 r x in
      if-either
        (λ s. uses s.engin.world x + held descriptor p.timer x ≡ uses w x + held descriptor s.fd x)
        (Timer.initialize (epoll net host) host.timers 1 t).0 _ _
        (omega (arith, on, armed, ap (λ fd. held descriptor fd x) kept)) on

  halt-gives :
      (p : Parts W) (w : W) (x : Resource)
      → (uses (halt net host p w).1 x
          ≡ uses w x - (held thread p.thread.thread x + held descriptor p.timer x))
        × (((halt net host p w).0).thread.thread ≡ none)
  unfolding halt stop_thread set_timer
  halt-gives p w x =
      let t : Thread W = record p.thread { world = w } in
      let (p₁, w₁) = stop_thread net host p w in
      let (gives, none_left) = stop-gives net host uses law sockets t x in
      (omega (arith, gives, (set_timer-off p₁ w₁ x).0), none_left)

  -- ~CEngin gives back all that the engine owns.
  end_engin-gives :
      (p : Parts W) (w : W) (x : Resource)
      → uses (end_engin net host p w).1 x ≡ uses w x - owned p x
  unfolding end_engin unregister_listener uninitialize_engin held uninitialize halt set_timer
      stop_thread
  end_engin-gives p w x =
      let (p₂, w₂) = halt net host p w in
      let (p₃, w₃) = unregister_listener net host p₂ w₂ in
      let (gives, none_left) = halt-gives p w x in
      omega (
        arith,
        gives,
        ap (λ t. held thread t x) none_left,
        unregister-keeps net host uses law sockets 0 (record p₂.event { world = w₂ }) x,
        (uninitialize-gives net host uses law sockets
            (record { fd = p₃.engin_fd; thread = record p₃.thread { world = w₃ } }) x).0,
      )

  pub destroy_engin-gives :
      (p : Parts W) (w : W)
      → IsTidy p
      → (r : Parts W × W) × (destroy_engin net host p w ≡ some r)
        × ((x : Resource) → uses r.1 x ≡ uses w x - owned p x)
  destroy_engin-gives p w h =
      (end_engin net host p w, destroy_engin-ends net host deletes p w h, end_engin-gives p w)

  destroy_engins-gives :
      (ps : List (Parts W)) (w : W)
      → All IsTidy ps
      → (u : W) × (destroy_engins net host ps w ≡ some u)
        × ((x : Resource) → uses u x ≡ uses w x - all_owned ps x)
  unfolding destroy_engins
  destroy_engins-gives [] w h = (w, refl, λ x. omega arith)
  destroy_engins-gives (p ∷ ps) w h =
      let ((q, v), ends, gives) = destroy_engin-gives p w h.0 in
      let (u, rest, all) = destroy_engins-gives ps v h.1 in
      (u, rw (ends, destroy_engins) rest, λ x. omega (arith, gives x, all x))

  close_listener-gives :
      (p : Parts W) (w : W) (x : Resource)
      → uses (close_listener net host p w).1 x ≡ uses w x - held descriptor p.listener x
  unfolding close_listener Socket.close held
  close_listener-gives p w x = elim (Option-cases p.listener) [
    | inl closed ↦ simp (closed, close_listener, Socket.close) (omega arith)
    | inr (fd, opened) ↦ simp (opened, close_listener, Socket.close) (sockets.close_gives fd w x)
  ]

  end_server-gives :
      (p : Parts W) (w : W) (x : Resource)
      → p.thread.thread ≡ none
      → uses (end_server net host p w).1 x
        ≡ uses w x - (held descriptor p.listener x + held descriptor p.engin_fd x)
  unfolding end_server close_listener uninitialize_engin held Socket.close
  end_server-gives p w x stopped =
      let (q, u) = close_listener net host p w in
      omega (
        arith,
        close_listener-gives p w x,
        ap (λ t. held thread t x) stopped,
        (uninitialize-gives net host uses law sockets
            (record { fd = q.engin_fd; thread = record q.thread { world = u } }) x).0,
      )

  -- ~CServer gives back all that the server owns.
  pub destroy_server-gives :
      (s : Server W) (w : W)
      → IsTidy s.own
      → s.own.event.added 0 ≡ false
      → All IsTidy s.engins
      → (r : Parts W × W) × (destroy_server net host s w ≡ some r)
        × ((x : Resource) → uses r.1 x ≡ uses w x - server_owned s x)
  unfolding destroy_server halt stop_thread set_timer
  destroy_server-gives s w tidy never all =
      let (p, u) = halt net host s.own w in
      let (v, ends, gives) = destroy_engins-gives s.engins u all in
      (
        end_server net host p v,
        rw (ends, destroy_server) (end_server-ends net host deletes s.own w v tidy never),
        λ x. omega (
          arith,
          (halt-gives s.own w x).0,
          gives x,
          end_server-gives p v x (halt-gives s.own w x).1,
        ),
      )
