-- ===== src/Event/Tests.antt =====
-- An engine over a concrete interest set.
use byron0416_mp.Prelude.{
  ℕ, ◌+◌, ◌-◌, ◌≡◌, some, refl, Bool, true, false, ◌||◌, [], ◌∷◌, none, arith, ◌==◌, if◌then◌else◌,
}
use byron0416_mp.Event.{
  Epoll, Engin, Ready, Handlers, set_flag, unregister, register, register_priority, mem,
  second_loop,
}
use byron0416_mp.Event.Life.{
  Calls, Life, new_life, initialize, uninitialize, IsProcess, IsStopped, IsRunning,
}
use byron0416_mp.Event.Life.Settles.{initialize-uninitialize}
use byron0416_mp.Event.Mirror.{IsEpoll, IsMirror, registration-IsMirror}
use byron0416_mp.Process.{Resource, descriptor, thread, one}
use byron0416_mp.Event.Round.{without, KeepsDeleted, second_loop-without}

abbrev table : Epoll
table = record {
  World = ℕ → Bool;
  ctl_add = λ e i w. if w e then (false, w) else (true, set_flag w e true);
  ctl_mod = λ e i w. (w e, w);
  ctl_del = λ e w. if w e then (true, set_flag w e false) else (false, w);
}

abbrev table-IsEpoll : IsEpoll table
table-IsEpoll = record {
  holds = λ w. w;
  added = λ e i w x. ground arith;
  modified = λ e i w x. refl;
  removed = λ e w x. ground arith;
}

-- Events 3 and 5 are registered, and a round is going on.
abbrev started : Engin (ℕ → Bool)
started = record {
  world = λ x. (x == 3) || (x == 5);
  priority = none;
  deleted = [];
  doing = true;
  has_engin = λ x. true;
  added = λ x. (x == 3) || (x == 5);
}

registration-IsMirror_example :
    IsMirror table table-IsEpoll 4 (register table 4 true false started).1
    × IsMirror table table-IsEpoll 4 (unregister table 4 started).1
    × IsMirror table table-IsEpoll 4 (register_priority table 4 started).1
registration-IsMirror_example =
    registration-IsMirror table table-IsEpoll 4 4 true false started refl

-- Reading from an event deletes event 5.
abbrev closing : Handlers (ℕ → Bool)
closing = record {
  on_read = λ x s. record s { deleted = 5 ∷ s.deleted };
  on_write = λ x s. s;
  on_error = λ x s. s;
}

closing-KeepsDeleted : KeepsDeleted closing
unfolding mem
closing-KeepsDeleted = record {
  reading = λ x e s gone. ground (arith, gone);
  writing = λ x e s gone. gone;
  failing = λ x e s gone. gone;
}

abbrev ready : ℕ → Ready
ready e = record { event = e; readable = true; writable = false; error = false; hang_up = false }

second_loop-without_example :
    second_loop closing (ready 3 ∷ ready 5 ∷ []) (record started { deleted = 5 ∷ [] })
    ≡ second_loop closing (ready 3 ∷ []) (record started { deleted = 5 ∷ [] })
unfolding without mem
second_loop-without_example =
    second_loop-without closing closing-KeepsDeleted (ready 3 ∷ ready 5 ∷ []) 5
      (record started { deleted = 5 ∷ [] }) refl

-- A process as the counts of what it has, in which no thread can be bound to a processor.
abbrev counted : Calls (Resource → ℕ)
counted = record {
  pthread = record {
    create = λ w. (some 9, λ x. w x + one (thread 9) x);
    set_affinity = λ id cpu w. (false, w);
    join = λ id w x. w x - one (thread id) x;
  };
  epoll_create = λ w. (some 5, λ x. w x + one (descriptor 5) x);
  close = λ fd w x. w x - one (descriptor fd) x;
}

abbrev in_use : (Resource → ℕ) → Resource → ℕ
in_use w = w

counted-IsProcess : IsProcess counted in_use
counted-IsProcess = record {
  epoll_takes = λ w fd e x. ground arith;
  epoll_fails = λ w e. absurd (cc);
  close_gives = λ fd w x. refl;
  thread_takes = λ w id e x. ground arith;
  thread_fails = λ w e. absurd (cc);
  affinity_keeps = λ id cpu w x. refl;
  join_gives = λ id w x. refl;
}

abbrev nothing : Resource → ℕ
nothing x = 0

abbrev launched : Bool × Life (Resource → ℕ)
launched = initialize counted (some 0) (new_life nothing)

initialize-uninitialize_example :
    (launched.0 ≡ true → IsRunning in_use nothing launched.1)
    × IsStopped in_use nothing (uninitialize counted launched.1)
initialize-uninitialize_example =
    initialize-uninitialize counted in_use counted-IsProcess nothing (some 0) (new_life nothing)
      (record { no_fd = refl; no_thread = refl; as_before = λ x. refl })
