-- ===== src/Server/Life/Tests.antt =====
-- A server on a system that lends out descriptors and threads in turn.
use byron0416_mp.Prelude.{◌≡◌, refl, Bool, true, some, arith}
use byron0416_mp.Process.{Resource, descriptor, thread, one}
use byron0416_mp.Server.Life.{Host, Parts, Server, new_server, run_server, destroy_server}
use byron0416_mp.Server.Life.Owns.{IsHost}
use byron0416_mp.Server.Life.Taken.{run-destroy}
use byron0416_mp.Server.Life.Tidy.{Deletes}
use byron0416_mp.Socket.Lending.{Lent, lent, lend, give, lending, lending-IsLedger}
use byron0416_mp.Text.{text}

abbrev system : Host Lent
system = record {
  life = record {
    pthread = record {
      create = λ w. (some w.1, lend thread w);
      set_affinity = λ id cpu w. (true, w);
      join = λ id w. give (thread id) w;
    };
    epoll_create = λ w. (some w.1, lend descriptor w);
    close = λ fd w. give (descriptor fd) w;
  };
  timers = record {
    create = λ w. (some w.1, lend descriptor w);
    settime = λ fd t w. (true, w);
    close = λ fd w. give (descriptor fd) w;
  };
  ctl_add = λ e i w. (true, w);
  ctl_mod = λ e i w. (true, w);
  ctl_del = λ e w. (true, w);
}

system-IsHost : IsHost lending system lent
system-IsHost = record {
  process = record {
    epoll_takes = λ w fd e x. ground (arith, e);
    epoll_fails = λ w e. absurd (cc e);
    close_gives = λ fd w x. refl;
    thread_takes = λ w id e x. ground (arith, e);
    thread_fails = λ w e. absurd (cc e);
    affinity_keeps = λ id cpu w x. refl;
    join_gives = λ id w x. refl;
  };
  timer_takes = λ w fd e x. ground (arith, e);
  timer_fails = λ w e. absurd (cc e);
  timer_closes = λ fd w x. refl;
  settime_keeps = λ fd t w x. refl;
  add_keeps = λ e i w x. refl;
  mod_keeps = λ e i w x. refl;
  del_keeps = λ e w x. refl;
}

system-Deletes : Deletes lending system
system-Deletes e w = refl

run-destroy_example :
    (ok : Bool) × (s : Server Lent) × (u : Lent) × (run_server lending system
        (text "0.0.0.0")
        554
        (new_server lending system (one (descriptor 3), 4))
        (one (descriptor 3), 4)
      ≡ some (ok, s, u))
    × (p : Parts Lent) × (v : Lent) × (destroy_server lending system s u ≡ some (p, v))
    × ((x : Resource) → lent v x ≡ one (descriptor 3) x)
run-destroy_example =
    run-destroy lending system lent system-IsHost lending-IsLedger system-Deletes (text "0.0.0.0")
      554 (one (descriptor 3), 4)
