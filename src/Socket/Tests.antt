-- ===== src/Socket/Tests.antt =====
-- A system that lends out descriptors in turn, has port 80 taken, and refuses connections.
use byron0416_mp.Prelude.{refl, not, none, some, ◌==◌, arith}
use byron0416_mp.Process.{descriptor, one}
use byron0416_mp.Socket.{Net, Socket, refused, listen, bind}
use byron0416_mp.Socket.Ledger.{IsLedger, Returns, servers-Returns}
use byron0416_mp.Socket.Lending.{Lent, lent, lending}
use byron0416_mp.Text.{text}

abbrev system : Net
system = record lending {
  inet_addr = λ ip. some 4009690113;
  bind = λ fd ip port w. (not (port == 80), w);
  connect = λ fd ip port w. (refused, w);
}

system-IsLedger : IsLedger system lent
system-IsLedger = record {
  socket_takes = λ kind w fd e x. ground (arith, e);
  socket_fails = λ kind w e. absurd (cc e);
  close_gives = λ fd w x. refl;
  set_non_block_keeps = λ fd w x. refl;
  setsockopt_keeps = λ fd o w x. refl;
  bind_keeps = λ fd ip port w x. refl;
  listen_keeps = λ fd n w x. refl;
  connect_keeps = λ fd ip port w x. refl;
}

abbrev closed : Socket Lent
closed = record { fd = none; world = (one (descriptor 4), 5) }

-- The port is taken.
servers-Returns_example :
    Returns system lent system-IsLedger
      (one (descriptor 4), 5)
      (listen system (text "239.9.9.9") 80 closed)
    × Returns system lent system-IsLedger
        (one (descriptor 4), 5)
        (bind system (text "239.9.9.9") 80 closed)
servers-Returns_example =
    servers-Returns system lent system-IsLedger (text "239.9.9.9") 80 closed refl
