-- ===== src/Server/Tests.antt =====
-- An engine of two sessions to which three connections come.
use byron0416_mp.Event.{Epoll, unregister, register_priority, add_priority, add, del}
use byron0416_mp.Event
use byron0416_mp.Prelude.{
  ℕ, ◌+◌, ◌≤◌, ◌≡◌, refl, Bool, true, false, List, [], ◌∷◌, none, some, length, map, ◌++◌, ◌⊎◌,
  ◌==◌,
}
use byron0416_mp.Server.{
  Accepted, connection, Engin, new_engin, create_sessions, run, accept_loop, hand_one, hand_out,
  on_read, on_sub_event,
}
use byron0416_mp.Server.Pool.{IsDry, Settled, on_read-HandsOut}
use byron0416_mp.Server.Runs.{Reach, started, read, Reach-safe}

abbrev silent : Epoll
silent = record {
  World = ℕ;
  ctl_add = λ e i w. (true, w);
  ctl_mod = λ e i w. (true, w);
  ctl_del = λ e w. (true, w);
}

abbrev idle : Event.Engin ℕ
idle = record {
  world = 0;
  priority = none;
  deleted = [];
  doing = false;
  has_engin = λ x. true;
  added = λ x. false;
}

abbrev fresh : Engin ℕ
fresh = record {
  session_count = 2;
  sessions = 0 ∷ 1 ∷ [];
  free = 2;
  done = 0;
  closed = [];
  handled = [];
  timer = (50, 5);
  locked = false;
  event = idle;
}

-- The first connection is taken, the second cannot be handled.
abbrev takes_seven : ℕ → ℕ → Bool
takes_seven session fd = fd == 7

abbrev backlog : List Accepted
backlog = connection 7 ∷ connection 8 ∷ connection 9 ∷ []

abbrev one_busy : Engin ℕ
one_busy = record fresh {
  sessions = 1 ∷ [];
  free = 1;
  done = 1;
  closed = 8 ∷ [];
  handled = (0, 7) ∷ [];
  timer = (40, 5);
}

run-fresh : run (true, true) true true true (new_engin idle) ≡ (true, fresh)
unfolding run create_sessions new_engin
run-fresh = refl

on_read-one_busy : on_read silent takes_seven backlog fresh ≡ some one_busy
unfolding on_read accept_loop hand_out hand_one unregister
on_read-one_busy = refl

on_read-HandsOut_example :
    (e' : Engin ℕ) × (on_read silent takes_seven backlog fresh ≡ some e')
    × (e'.free ≡ length e'.sessions)
    × (length e'.handled + length e'.sessions ≡ 2)
    × (length e'.handled + length e'.closed ≡ 2)
    × (2 ≤ 2)
    × (e'.locked ≡ false)
    × (e'.session_count ≡ 2)
    × (0 ≤ length e'.handled)
    × (fds : List ℕ) × (rest : List Accepted) × (backlog ≡ map connection fds ++ rest)
    × ((length fds ≡ 2) ⊎ IsDry rest)
    × (taken_by : List (ℕ × ℕ)) × (closed : List ℕ) × (e'.handled ≡ [] ++ taken_by)
    × (e'.closed ≡ [] ++ closed)
    × Settled takes_seven fds taken_by closed
unfolding accept_loop
on_read-HandsOut_example = on_read-HandsOut silent takes_seven backlog fresh refl

Reach-one_busy : Reach silent one_busy 1
Reach-one_busy =
    read fresh one_busy 0 takes_seven backlog
      (started idle (true, true) true true true fresh run-fresh) on_read-one_busy

Reach-safe_example :
    (one_busy.free ≡ length one_busy.sessions)
    × (length one_busy.sessions + 1 ≡ 2)
    × ((e' : Engin ℕ) × (on_read silent takes_seven backlog one_busy ≡ some e'))
    × ((length one_busy.handled ≡ 0) ⊎ ((e' : Engin ℕ) × (on_sub_event 0 one_busy ≡ some e')))
    × ((e₀ : Engin ℕ) × (run (true, true) true true true (new_engin idle) ≡ (true, e₀))
        × (length e₀.sessions ≡ 2))
Reach-safe_example = Reach-safe silent one_busy 1 0 takes_seven backlog idle Reach-one_busy
