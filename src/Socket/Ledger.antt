-- ===== src/Socket/Ledger.antt =====
-- Which descriptors are open behind the calls of Socket.cpp.
use byron0416_mp.Prelude.{
  ℕ, ◌≡◌, refl, sym, subst, ◌∙◌, Bool, true, false, Option, none, some, arith, if◌then◌else◌,
  Option-cases, inl, inr, ◌⊎◌,
}
use byron0416_mp.Process.{Resource, descriptor, Takes, Gives, Keeps}
use byron0416_mp.Socket.{
  Net, Socket, Transport, tcp, udp, SocketOption, reuse_address, add_membership, refused,
  set_non_block, close, set_option, make_non_block, take_fd, attach, with_socket, after_attach,
  or_close, bind_to, start_listening, listen, bind, connect, after_connect, is_multicast,
}
use byron0416_mp.Text.{Text}

-- What POSIX says of the process's descriptors: socket takes one, close gives it back, and the other
-- calls leave what the process has alone.
pub record IsLedger (net : Net) (uses : net.World → Resource → ℕ) : Type 0 where
  pub socket_takes :
      (kind : Transport) (w : net.World) (fd : ℕ)
      → (net.socket kind w).0 ≡ some fd
      → Takes uses (descriptor fd) w (net.socket kind w).1
  pub socket_fails :
      (kind : Transport) (w : net.World)
      → (net.socket kind w).0 ≡ none
      → Keeps uses w (net.socket kind w).1
  pub close_gives : (fd : ℕ) (w : net.World) → Gives uses (descriptor fd) w (net.close fd w)
  pub set_non_block_keeps :
      (fd : Option ℕ) (w : net.World) → Keeps uses w (net.set_non_block fd w).1
  pub setsockopt_keeps :
      (fd : Option ℕ) (o : SocketOption) (w : net.World) → Keeps uses w (net.setsockopt fd o w).1
  pub bind_keeps :
      (fd : Option ℕ) (ip : Text) (port : ℕ) (w : net.World)
      → Keeps uses w (net.bind fd ip port w).1
  pub listen_keeps : (fd : Option ℕ) (n : ℕ) (w : net.World) → Keeps uses w (net.listen fd n w).1
  pub connect_keeps :
      (fd : Option ℕ) (ip : Text) (port : ℕ) (w : net.World)
      → Keeps uses w (net.connect fd ip port w).1

module _ (net : Net) (uses : net.World → Resource → ℕ) (law : IsLedger net uses) where
  abbrev S : Type 0
  S = Socket net.World

  -- The process has the socket's descriptor besides what it had.
  pub record Holds (before : net.World) (s : S) : Type 0 where
    pub fd : ℕ
    pub is_fd : s.fd ≡ some fd
    pub is_open : Takes uses (descriptor fd) before s.world

  -- The socket has no descriptor, and the process has what it had.
  pub record IsGone (before : net.World) (s : S) : Type 0 where
    pub no_fd : s.fd ≡ none
    pub as_before : Keeps uses before s.world

  -- A result says which of the two it is.
  abbrev pub Settles : net.World → Bool × S → Type 0
  Settles before (true, s) = Holds before s
  Settles before (false, s) = IsGone before s

  close-IsGone : (before : net.World) (s : S) → Holds before s → IsGone before (close net s)
  unfolding close
  close-IsGone before s h = record {
    no_fd = rw (h.is_fd, close) refl;
    as_before =
        λ x. rw (h.is_fd, close) (omega (arith, law.close_gives h.fd s.world x, h.is_open x));
  }

  or_close-Settles :
      (before : net.World) (r : Bool × S) (f : S → Bool × S)
      → Holds before r.1
      → ((s : S) → Holds before s → Settles before (f s))
      → Settles before (or_close net r f)
  unfolding or_close
  or_close-Settles before (true, s) f h hf = hf s h
  or_close-Settles before (false, s) f h hf = close-IsGone before s h

  -- A call that leaves the descriptors alone.
  kept :
      (before : net.World) (s : S) (w : net.World)
      → Keeps uses s.world w
      → Holds before s
      → Holds before (record s { world = w })
  kept before s w e h = record { fd = h.fd; is_fd = h.is_fd; is_open = λ x. e x ∙ h.is_open x }

  set_option-Holds :
      (before : net.World) (o : SocketOption) (s : S)
      → Holds before s
      → Holds before (set_option net o s).1
  unfolding set_option
  set_option-Holds before o s h = kept before s _ (law.setsockopt_keeps s.fd o s.world) h

  bind_to-Holds :
      (before : net.World) (ip : Text) (port : ℕ) (s : S)
      → Holds before s
      → Holds before (bind_to net ip port s).1
  unfolding bind_to
  bind_to-Holds before ip port s h = kept before s _ (law.bind_keeps s.fd ip port s.world) h

  start_listening-Holds :
      (before : net.World) (s : S) → Holds before s → Holds before (start_listening net s).1
  unfolding start_listening
  start_listening-Holds before s h = kept before s _ (law.listen_keeps s.fd 65535 s.world) h

  -- Attach without a descriptor: a new one or none.
  abbrev Attached : net.World → Option (Option ℕ × S) → Type 0
  Attached before none = ⊥
  Attached before (some (none, s)) = IsGone before s
  Attached before (some (some fd, s)) = Holds before s

  make_non_block-Attached :
      (before : net.World) (b : Bool) (s : S)
      → Holds before s
      → Attached before (some (make_non_block net none (b, s)))
  unfolding make_non_block
  make_non_block-Attached before true s h =
      subst (λ o. Attached before (some (o, s))) (sym h.is_fd) h
  make_non_block-Attached before false s h = close-IsGone before s h

  set_non_block-Attached :
      (before : net.World) (s : S)
      → Holds before s
      → Attached before (some (make_non_block net none (set_non_block net s)))
  unfolding set_non_block
  set_non_block-Attached before s h =
      make_non_block-Attached before _ _ (kept before s _ (law.set_non_block_keeps s.fd s.world) h)

  take_fd-Holds :
      (kind : Transport) (s : S) (fd : ℕ)
      → (take_fd net kind none s).fd ≡ some fd
      → Holds s.world (take_fd net kind none s)
  unfolding take_fd
  take_fd-Holds kind s fd made = record {
    fd = fd;
    is_fd = made;
    is_open = law.socket_takes kind s.world fd made;
  }

  take_fd-IsGone :
      (kind : Transport) (s : S)
      → (take_fd net kind none s).fd ≡ none
      → IsGone s.world (take_fd net kind none s)
  unfolding take_fd
  take_fd-IsGone kind s failed = record {
    no_fd = failed;
    as_before = law.socket_fails kind s.world failed;
  }

  attach-Attached :
      (kind : Transport) (s : S) → s.fd ≡ none → Attached s.world (attach net kind none s)
  unfolding attach
  attach-Attached kind s closed = elim (Option-cases (take_fd net kind none s).fd) [
    | inl failed ↦
        let open_none : attach net kind none s ≡ some (none, take_fd net kind none s) =
          simp (closed, failed, attach) in
        subst (Attached s.world) (sym open_none) (take_fd-IsGone kind s failed)
    | inr (fd, made) ↦
        let open_some : attach net kind none s
            ≡ some (make_non_block net none (set_non_block net (take_fd net kind none s))) =
          simp (closed, made, attach) in
        subst (Attached s.world) (sym open_some)
          (set_non_block-Attached _ _ (take_fd-Holds kind s fd made))
  ]

  -- What Listen, Bind and Connect return.
  abbrev pub Returns : net.World → Option (Bool × S) → Type 0
  Returns before none = ⊥
  Returns before (some r) = Settles before r

  after_attach-Returns :
      (before : net.World) (r : Option (Option ℕ × S)) (f : S → Bool × S)
      → Attached before r
      → ((s : S) → Holds before s → Settles before (f s))
      → Returns before (after_attach net f r)
  unfolding after_attach
  after_attach-Returns before none f h hf = elim h [ ]
  after_attach-Returns before (some (none, s)) f h hf = h
  after_attach-Returns before (some (some fd, s)) f h hf = hf s h

  with_socket-Returns :
      (kind : Transport) (f : S → Bool × S) (s : S)
      → s.fd ≡ none
      → ((t : S) → Holds s.world t → Settles s.world (f t))
      → Returns s.world (with_socket net kind f s)
  unfolding with_socket
  with_socket-Returns kind f s closed hf =
      after_attach-Returns s.world (attach net kind none s) f (attach-Attached kind s closed) hf

  listen-Returns :
      (ip : Text) (port : ℕ) (s : S) → s.fd ≡ none → Returns s.world (listen net ip port s)
  unfolding listen
  listen-Returns ip port s closed = with_socket-Returns tcp _ s closed (λ t h.
      or_close-Settles _ (set_option net reuse_address t) _ (set_option-Holds _ _ t h) (λ u h.
        or_close-Settles _ (bind_to net ip port u) _ (bind_to-Holds _ ip port u h) (λ v h.
          or_close-Settles _ (start_listening net v) _ (start_listening-Holds _ v h) (λ w h. h))))

  if-Settles :
      (before : net.World) (b : Bool) (r q : Bool × S)
      → Settles before r
      → Settles before q
      → Settles before (if b then r else q)
  if-Settles before true r q hr hq = hr
  if-Settles before false r q hr hq = hq

  bind-Returns : (ip : Text) (port : ℕ) (s : S) → s.fd ≡ none → Returns s.world (bind net ip port s)
  unfolding bind
  bind-Returns ip port s closed = with_socket-Returns udp _ s closed (λ t h.
      or_close-Settles _ (set_option net reuse_address t) _ (set_option-Holds _ _ t h) (λ u h.
        or_close-Settles _ (bind_to net ip port u) _ (bind_to-Holds _ ip port u h) (λ v h.
          if-Settles _ (is_multicast net ip) _ _
            (or_close-Settles _ (set_option net (add_membership ip) v) _ (set_option-Holds _ _ v h)
              (λ w h. h))
            h)))

  -- Listen of the TCP server and Bind of a UDP server on a socket without a descriptor, on every path,
  -- the joining of a group included: where they return true, the socket's descriptor is open and no
  -- other than were before; where they return false, the socket has none, and no more are open than
  -- before.
  pub servers-Returns :
      (ip : Text) (port : ℕ) (s : S)
      → s.fd ≡ none
      → Returns s.world (listen net ip port s) × Returns s.world (bind net ip port s)
  servers-Returns ip port s closed =
      (listen-Returns ip port s closed, bind-Returns ip port s closed)

  holding-faults :
      (kind : Transport) (ip : Text) (port : ℕ) (before : net.World) (s : S)
      → Holds before s
      → connect net kind ip port s ≡ none
  unfolding connect with_socket after_attach attach
  holding-faults kind ip port before s h = rw (h.is_fd, attach) refl

  -- A refused Connect leaves its descriptor open and in the socket, so that the next Connect of the
  -- same socket fails an assert.
  pub connect-refused :
      (kind : Transport) (ip : Text) (port fd : ℕ) (s t : S)
      → s.fd ≡ none
      → attach net kind none s ≡ some (some fd, t)
      → (net.connect t.fd ip port t.world).0 ≡ refused
      → (u : S) × (connect net kind ip port s ≡ some (false, u))
        × Holds s.world u
        × (connect net kind ip port u ≡ none)
  unfolding connect with_socket after_attach after_connect
  connect-refused kind ip port fd s t closed attached refuses =
      let u : S = record t { world = (net.connect t.fd ip port t.world).1 } in
      let held : Holds s.world t =
        subst (Attached s.world) attached (attach-Attached kind s closed) in
      let still : Holds s.world u =
        kept s.world t _ (law.connect_keeps t.fd ip port t.world) held in
      (
        u,
        rw (attached, after_attach, refuses, after_connect) refl,
        still,
        holding-faults kind ip port _ u still,
      )

  -- Behind a call that leaves the descriptor alone: the socket has one or none, as it says.
  after_attach-Leaves :
      (before : net.World) (r : Option (Option ℕ × S)) (f : S → Bool × S)
      → Attached before r
      → ((s : S) → Holds before s → Holds before (f s).1)
      → (q : Bool × S) × (after_attach net f r ≡ some q) × (Holds before q.1 ⊎ IsGone before q.1)
  unfolding after_attach
  after_attach-Leaves before none f h hf = elim h [ ]
  after_attach-Leaves before (some (none, s)) f h hf = ((false, s), refl, inr h)
  after_attach-Leaves before (some (some fd, s)) f h hf = (f s, refl, inl (hf s h))

  pub connect-Leaves :
      (kind : Transport) (ip : Text) (port : ℕ) (s : S)
      → s.fd ≡ none
      → (q : Bool × S) × (connect net kind ip port s ≡ some q)
        × (Holds s.world q.1 ⊎ IsGone s.world q.1)
  unfolding connect with_socket
  connect-Leaves kind ip port s closed =
      after_attach-Leaves s.world (attach net kind none s) _ (attach-Attached kind s closed)
        (λ t h. kept s.world t _ (law.connect_keeps t.fd ip port t.world) h)
