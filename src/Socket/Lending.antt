-- ===== src/Socket/Lending.antt =====
-- The system's calls of Socket.h on a system that lends out descriptors in turn, for tests.
use byron0416_mp.Prelude.{ℕ, suc, ◌+◌, ◌-◌, refl, true, some, none, arith}
use byron0416_mp.Process.{Resource, descriptor, one}
use byron0416_mp.Socket.{Net, connected}
use byron0416_mp.Socket.Ledger.{IsLedger}

-- What is in use, and the next number.
abbrev pub Lent : Type 0
Lent = (Resource → ℕ) × ℕ

abbrev pub lent : Lent → Resource → ℕ
lent w = w.0

abbrev pub lend : (ℕ → Resource) → Lent → Lent
lend r w = ((λ x. w.0 x + one (r w.1) x), suc w.1)

abbrev pub give : Resource → Lent → Lent
give r w = ((λ x. w.0 x - one r x), w.1)

abbrev pub lending : Net
lending = record {
  World = Lent;
  inet_addr = λ ip. some 16843009;
  socket = λ kind w. (some w.1, lend descriptor w);
  set_non_block = λ fd w. (true, w);
  setsockopt = λ fd o w. (true, w);
  bind = λ fd ip port w. (true, w);
  listen = λ fd n w. (true, w);
  accept = λ fd w. (none, w);
  connect = λ fd ip port w. (connected, w);
  send = λ fd bs w. (none, w);
  recv = λ fd n w. (none, w);
  close = λ fd w. give (descriptor fd) w;
}

pub lending-IsLedger : IsLedger lending lent
lending-IsLedger = record {
  socket_takes = λ kind w fd e x. ground (arith, e);
  socket_fails = λ kind w e. absurd (cc e);
  close_gives = λ fd w x. refl;
  set_non_block_keeps = λ fd w x. refl;
  setsockopt_keeps = λ fd o w x. refl;
  bind_keeps = λ fd ip port w x. refl;
  listen_keeps = λ fd n w x. refl;
  connect_keeps = λ fd ip port w x. refl;
}
