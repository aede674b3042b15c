-- ===== src/Server/Life/Taken.antt =====
-- CServer::Run: what it takes from the system is what the server owns.
use byron0416_mp.Event.Life.{Life}
use byron0416_mp.Prelude.{
  All, ℕ, ◌+◌, ◌≡◌, refl, ap, ◌∙◌, Bool, true, false, [], Option, none, some, arith, inl, inr,
  Bool-cases,
}
use byron0416_mp.Process.{Resource, descriptor, thread}
use byron0416_mp.Server.Life.{
  Host, Parts, Server, initialize_engin, set_timer, as_bool, attach_listener, arm_if,
  attach_and_arm, run_engin, new_parts, new_server, keep_engin, run_listening, run_server,
  destroy_server,
}
use byron0416_mp.Server.Life.Owns.{IsHost, held, owned, server_owned, initialize-takes}
use byron0416_mp.Server.Life.Returned.{set_timer-on, destroy_engin-gives, destroy_server-gives}
use byron0416_mp.Server.Life.Tidy.{Deletes, IsTidy, set_timer-IsTidy}
use byron0416_mp.Socket.{Net, Socket, tcp, attach, take_fd, set_non_block, make_non_block}
use byron0416_mp.Socket
use byron0416_mp.Socket.Ledger.{IsLedger, Returns, servers-Returns}
use byron0416_mp.Text.{Text}

module _ (net : Net) (host : Host net.World) (uses : net.World → Resource → ℕ)
    (law : IsHost net host uses) (sockets : IsLedger net uses) (deletes : Deletes net host) where
  abbrev W : Type 0
  W = net.World

  -- What the parts own grows by what the process gets, and their events stay in order.
  abbrev Grows : Parts W → W → Bool × Parts W × W → Type 0
  Grows p w (b, q, u) = ((x : Resource) → uses u x + owned p x ≡ uses w x + owned q x) × IsTidy q

  initialize_engin-Grows :
      (affinity : Option ℕ) (p : Parts W) (w : W)
      → p.engin_fd ≡ none
      → p.thread.thread ≡ none
      → IsTidy p
      → Grows p w (initialize_engin net host affinity p w)
  unfolding initialize_engin held
  initialize_engin-Grows affinity p w no_fd no_thread h =
      let l : Life W = record { fd = p.engin_fd; thread = record p.thread { world = w } } in
      (
        λ x. omega (
          arith,
          initialize-takes net host uses law sockets affinity l x no_fd no_thread,
          ap (λ o. held descriptor o x) no_fd,
          ap (λ o. held thread o x) no_thread,
        ),
        record { object = h.object; its_timer = h.its_timer; armed = h.armed },
      )

  arm_if-Grows :
      (p : Parts W) (w : W) (r : Bool × Parts W × W) → Grows p w r → Grows p w (arm_if net host r)
  unfolding arm_if set_timer held
  arm_if-Grows p w (true, q, u) h = (
    λ x. omega (arith, h.0 x, set_timer-on net host uses law sockets deletes q u x),
    set_timer-IsTidy net host deletes q u h.1,
  )
  arm_if-Grows p w (false, q, u) h = h

  abbrev Result : Type 0
  Result = Bool × Parts W × W

  attach_listener-Grows :
      (fd : ℕ) (p : Parts W) (w : W)
      → p.listener ≡ none
      → IsTidy p
      → (r : Result) × (attach_listener net host fd p w ≡ some r) × Grows p w r
  unfolding attach_listener Socket.attach Socket.take_fd Socket.set_non_block make_non_block
  attach_listener-Grows fd p w free h =
      let q : Parts W = record p { listener = some fd } in
      let r : Bool × W = net.set_non_block (some fd) w in
      let kept : (b : Bool) → Grows p w (b, q, r.1) = λ b. (
        λ x. omega (arith, sockets.set_non_block_keeps (some fd) w x),
        record { object = h.object; its_timer = h.its_timer; armed = h.armed },
      ) in
      elim (Bool-cases r.0) [
        | inl set ↦ (
          (as_bool (some fd), q, r.1),
          simp (free, set, attach_listener, attach, take_fd, set_non_block, make_non_block) refl,
          kept (as_bool (some fd)),
        )
        | inr fails ↦ (
          (as_bool none, q, r.1),
          simp (free, fails, attach_listener, attach, take_fd, set_non_block, make_non_block) refl,
          kept (as_bool none),
        )
      ]

  -- The listener is not touched by Initialize.
  attach_and_arm-Grows :
      (fd : ℕ) (p : Parts W) (w : W) (r : Result)
      → Grows p w r
      → (r.1).listener ≡ none
      → (q : Result) × (attach_and_arm net host fd r ≡ some q) × Grows p w q
  unfolding attach_and_arm
  attach_and_arm-Grows fd p w (false, q, u) h free = ((false, q, u), refl, h)
  attach_and_arm-Grows fd p w (true, q, u) h free =
      let (r, attached, grows) = attach_listener-Grows fd q u free h.1 in
      (
        arm_if net host r,
        rw (attached, attach_and_arm) refl,
        arm_if-Grows p w r (λ x. omega (arith, h.0 x, grows.0 x), grows.1),
      )

  new_parts-IsTidy : (w : W) → IsTidy (new_parts net host w)
  new_parts-IsTidy w = record { object = refl; its_timer = refl; armed = inl refl }

  run_engin-Grows :
      (fd affinity : ℕ) (w : W)
      → (r : Result) × (run_engin net host fd affinity (new_parts net host w) w ≡ some r)
        × Grows (new_parts net host w) w r
  unfolding run_engin initialize_engin
  run_engin-Grows fd affinity w =
      let p : Parts W = new_parts net host w in
      attach_and_arm-Grows fd p w (initialize_engin net host (some affinity) p w)
        (initialize_engin-Grows (some affinity) p w refl refl (new_parts-IsTidy w)) refl

  -- The events of the server and of its engines, for the asserts of ~CEvent.
  record AreTidy (s : Server W) : Type 0 where
    own : IsTidy s.own
    never : s.own.event.added 0 ≡ false
    engins : All IsTidy s.engins

  -- What the server owns grows likewise.
  abbrev Adds : Server W → W → Bool × Server W × W → Type 0
  Adds s w (ok, s', u) =
      ((x : Resource) → uses u x + server_owned s x ≡ uses w x + server_owned s' x) × AreTidy s'

  keep_engin-Adds :
      (s : Server W) (w : W) (r : Result)
      → Grows (new_parts net host w) w r
      → s.own.engin_fd ≡ none
      → s.own.thread.thread ≡ none
      → AreTidy s
      → (q : Bool × Server W × W) × (keep_engin net host s r ≡ some q) × Adds s w q
  unfolding keep_engin held initialize_engin
  keep_engin-Adds s w (true, p, u) h no_fd no_thread tidy =
      let (grows, still) = initialize_engin-Grows none s.own u no_fd no_thread tidy.own in
      (
        _,
        refl,
        (
          λ x. omega (arith, h.0 x, grows x),
          record { own = still; never = tidy.never; engins = (h.1, tidy.engins) },
        ),
      )
  keep_engin-Adds s w (false, p, u) h no_fd no_thread tidy =
      let ((q, v), ends, gives) = destroy_engin-gives net host uses law sockets deletes p u h.1 in
      ((false, s, v), rw (ends, keep_engin) refl, (λ x. omega (arith, h.0 x, gives x), tidy))

  run_listening-Adds :
      (s : Server W) (fd : ℕ) (w : W)
      → s.own.engin_fd ≡ none
      → s.own.thread.thread ≡ none
      → AreTidy s
      → (r : Bool × Server W × W) × (run_listening net host s (some fd) w ≡ some r) × Adds s w r
  unfolding run_listening
  run_listening-Adds s fd w no_fd no_thread tidy =
      let (r, ran, grows) = run_engin-Grows fd 0 w in
      let (q, kept, adds) = keep_engin-Adds s w r grows no_fd no_thread tidy in
      (q, rw (ran, run_listening) kept, adds)

  new_AreTidy :
      (w : W) (fd : Option ℕ)
      → AreTidy (record { own = record (new_parts net host w) { listener = fd }; engins = [] })
  new_AreTidy w fd = record {
    own = record { object = refl; its_timer = refl; armed = inl refl };
    never = refl;
    engins = tt;
  }

  run_server-Adds :
      (ip : Text) (port : ℕ) (w : W)
      → (r : Bool × Server W × W) × (run_server net host ip port (new_server net host w) w ≡ some r)
        × Adds (new_server net host w) w r
  unfolding run_server held
  run_server-Adds ip port w =
      go (Socket.listen net ip port (record { fd = none; world = w })) refl
        (servers-Returns net uses sockets ip port (record { fd = none; world = w }) refl).0
    where
      go :
          (o : Option (Bool × Socket W))
          → Socket.listen net ip port (record { fd = none; world = w }) ≡ o
          → Returns net uses sockets w o
          → (r : Bool × Server W × W) × (run_server net host ip port (new_server net host w) w
              ≡ some r)
            × Adds (new_server net host w) w r
      go none e h = elim h [ ]
      go (some (true, t)) e h =
          let s : Server W = record {
            own = record (new_parts net host w) { listener = t.fd };
            engins = [];
          } in
          let (r, ran, (adds, tidy)) =
            run_listening-Adds s h.fd t.world refl refl (new_AreTidy w t.fd) in
          (
            r,
            rw (e, run_server) (ap (λ o. run_listening net host s o t.world) h.is_fd ∙ ran),
            (λ x. omega (arith, adds x, h.is_open x, ap (λ o. held descriptor o x) h.is_fd), tidy),
          )
      go (some (false, t)) e h =
          let s : Server W = record {
            own = record (new_parts net host w) { listener = t.fd };
            engins = [];
          } in
          (
            (false, s, t.world),
            rw (e, run_server) refl,
            (
              λ x. omega (arith, h.as_before x, ap (λ o. held descriptor o x) h.no_fd),
              new_AreTidy w t.fd,
            ),
          )

  -- As long as epoll_ctl deregisters what it is told to: on every path of CServer::Run, on a server
  -- behind its constructor, no assert fails; nor does one in the destructors of the server, of its
  -- engines and of their events behind it, which leave the process with the descriptors and threads
  -- that it had before Run.
  pub run-destroy :
      (ip : Text) (port : ℕ) (w : W)
      → (ok : Bool) × (s : Server W) × (u : W) × (run_server net host ip port
            (new_server net host w)
            w
          ≡ some (ok, s, u))
        × (p : Parts W) × (v : W) × (destroy_server net host s u ≡ some (p, v))
        × ((x : Resource) → uses v x ≡ uses w x)
  unfolding held
  run-destroy ip port w =
      let ((ok, s, u), ran, (adds, tidy)) = run_server-Adds ip port w in
      let ((p, v), ends, gives) =
        destroy_server-gives net host uses law sockets deletes s u tidy.own tidy.never
          tidy.engins in
      (ok, s, u, ran, p, v, ends, λ x. omega (arith, adds x, gives x))
