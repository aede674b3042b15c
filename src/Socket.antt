-- ===== src/Socket.antt =====
-- core/Socket.h and core/Socket.cpp: the sockets of the server. The system's calls are a parameter,
-- whose world they change; m_Fd is none for -1, and some fd stands for a number that is not 0. none as
-- the result of attach and of what calls it is a failed assert.
pub mod Ledger
pub mod Lending
pub mod Line
mod Tests
use byron0416_mp.Prelude.{
  ℕ, ◌+◌, ◌*◌, ◌^◌, Bool, true, false, List, [], ◌∷◌, Option, none, some, ltb, if◌then◌else◌,
}
use byron0416_mp.Text.{Text}

-- SOCK_STREAM and SOCK_DGRAM.
pub data Transport : Type 0 where
  tcp udp : Transport

-- The options that the source sets.
pub data SocketOption : Type 0 where
  reuse_address no_delay : SocketOption
  linger : ℕ → SocketOption
  add_membership : Text → SocketOption

-- connect: 0, EINPROGRESS, or another error.
pub data Connecting : Type 0 where
  connected in_progress refused : Connecting

-- The calls on a descriptor; true is the result 0, and none is -1. inet_addr gives the address in the
-- host's order, or nothing for INADDR_NONE.
pub record Net : Type 1 where
  pub World : Type 0
  pub inet_addr : Text → Option ℕ
  pub socket : Transport → World → Option ℕ × World
  pub set_non_block : Option ℕ → World → Bool × World
  pub setsockopt : Option ℕ → SocketOption → World → Bool × World
  pub bind : Option ℕ → Text → ℕ → World → Bool × World
  pub listen : Option ℕ → ℕ → World → Bool × World
  pub accept : Option ℕ → World → Option ℕ × World
  pub connect : Option ℕ → Text → ℕ → World → Connecting × World
  pub send : Option ℕ → Text → World → Option ℕ × World
  pub recv : Option ℕ → ℕ → World → Option Text × World
  pub close : ℕ → World → World

pub record Socket (W : Type 0) : Type 0 where
  pub fd : Option ℕ
  pub world : W

module _ (net : Net) where
  abbrev pub S : Type 0
  S = Socket net.World

  unfoldable pub set_non_block : S → Bool × S
  set_non_block s = let r = net.set_non_block s.fd s.world in (r.0, record s { world = r.1 })

  unfoldable pub send : Text → S → Option ℕ × S
  send bs s = let r = net.send s.fd bs s.world in (r.0, record s { world = r.1 })

  unfoldable pub recv : ℕ → S → Option Text × S
  recv n s = let r = net.recv s.fd n s.world in (r.0, record s { world = r.1 })

  unfoldable pub detach : S → S
  detach s = record s { fd = none }

  unfoldable pub close : S → S
  close s = elim s.fd [ none ↦ s | some fd ↦ record s { fd = none; world = net.close fd s.world } ]

  -- setsockopt on m_Fd.
  unfoldable pub set_option : SocketOption → S → Bool × S
  set_option o s = let r = net.setsockopt s.fd o s.world in (r.0, record s { world = r.1 })

  unfoldable pub set_linger : ℕ → S → Bool × S
  set_linger time s = set_option (linger time) s

  unfoldable pub set_no_delay : S → Bool × S
  set_no_delay s = set_option no_delay s

  -- The end of Attach, where m_Fd is set; a socket that was given is not closed.
  unfoldable pub make_non_block : Option ℕ → Bool × S → Option ℕ × S
  make_non_block given (true, s) = (s.fd, s)
  make_non_block none (false, s) = (none, close s)
  make_non_block (some fd) (false, s) = (none, s)

  -- A new socket for m_Fd, or the descriptor that is given.
  unfoldable pub take_fd : Transport → Option ℕ → S → S
  take_fd kind (some fd) s = record s { fd = some fd }
  take_fd kind none s = let r = net.socket kind s.world in record s { fd = r.0; world = r.1 }

  -- Attach of CTcp and of CUdp.
  unfoldable pub attach : Transport → Option ℕ → S → Option (Option ℕ × S)
  attach kind given s = elim s.fd [
    | some fd ↦ none
    | none ↦
        let t = take_fd kind given s in
        elim t.fd [ none ↦ some (none, t) | some _ ↦ some (make_non_block given (set_non_block t)) ]
  ]

  -- if(-1 == Attach()) return false;
  unfoldable pub after_attach : (S → Bool × S) → Option (Option ℕ × S) → Option (Bool × S)
  after_attach f none = none
  after_attach f (some (none, s)) = some (false, s)
  after_attach f (some (some fd, s)) = some (f s)

  unfoldable pub with_socket : Transport → (S → Bool × S) → S → Option (Bool × S)
  with_socket kind f s = after_attach f (attach kind none s)

  -- A call that closes the socket when it fails, and what follows it.
  unfoldable pub or_close : Bool × S → (S → Bool × S) → Bool × S
  or_close (true, s) f = f s
  or_close (false, s) f = (false, close s)

  unfoldable pub bind_to : Text → ℕ → S → Bool × S
  bind_to ip port s = let r = net.bind s.fd ip port s.world in (r.0, record s { world = r.1 })

  -- listen with a backlog of 65535.
  unfoldable pub start_listening : S → Bool × S
  start_listening s = let r = net.listen s.fd 65535 s.world in (r.0, record s { world = r.1 })

  -- CTcpServer::Listen.
  unfoldable pub listen : Text → ℕ → S → Option (Bool × S)
  listen ip port s =
      with_socket tcp
        (λ t.
          or_close (set_option reuse_address t) (λ u.
            or_close (bind_to ip port u) (λ v. or_close (start_listening v) (λ w. (true, w)))))
        s

  -- CTcpServer::Accept.
  unfoldable pub accept : S → Option ℕ × S
  accept s = let r = net.accept s.fd s.world in (r.0, record s { world = r.1 })

  -- Whether an address is one of a group. INADDR_NONE is above as well; an empty one is INADDR_ANY.
  unfoldable pub is_multicast : Text → Bool
  is_multicast [] = false
  is_multicast (c ∷ cs) = elim (net.inet_addr (c ∷ cs)) [
    | none ↦ true
    | some a ↦ ltb (0xe0 * 2 ^ 24) a
  ]

  -- CUdpServer::Bind.
  unfoldable pub bind : Text → ℕ → S → Option (Bool × S)
  bind ip port s =
      with_socket udp
        (λ t. or_close (set_option reuse_address t) (λ u. or_close (bind_to ip port u) (λ v.
          if is_multicast ip
          then or_close (set_option (add_membership ip) v) (λ w. (true, w))
          else (true, v))))
        s

  unfoldable pub after_connect : Connecting → Bool
  after_connect connected = true
  after_connect in_progress = true
  after_connect refused = false

  -- CTcpClient::Connect, and CUdpClient's.
  unfoldable pub connect : Transport → Text → ℕ → S → Option (Bool × S)
  connect kind ip port s =
      with_socket kind
        (λ t.
          let r = net.connect t.fd ip port t.world in (after_connect r.0, record t { world = r.1 }))
        s
