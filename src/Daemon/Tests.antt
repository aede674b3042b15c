-- ===== src/Daemon/Tests.antt =====
-- A keeper of two workers.
use byron0416_mp.Daemon.{
  Round, new_keeper, returns, exits, goes_on, in_child, no_child, run, with_worker, after_fork,
  fork_worker, wait_for,
}
use byron0416_mp.Daemon.Restart.{death, exit, run-restarts}
use byron0416_mp.Prelude.{ℕ, ◌≡◌, refl, true, false, List, [], ◌∷◌, ◌++◌, none, some, map}

abbrev killed : List (ℕ × ℕ)
killed = (100, 11) ∷ (101, 6) ∷ []

run-restarts_example :
    (run true (map death killed) (record { worker = none; forks = 0 })
      ≡ (record { worker = none; forks = 2 }, goes_on))
    × (run true (map death killed ++ exit 102 0 ∷ []) (record { worker = none; forks = 0 })
        ≡ (record { worker = some 102; forks = 3 }, returns 2))
run-restarts_example = run-restarts killed 102 0 []

-- Without daemon() the process is the worker, and its exit code says whether the server runs.
abbrev worker_round : Round
worker_round = record { runs = true; forked = in_child; serves = false; waited = no_child }

run-foreground : (run false (worker_round ∷ []) new_keeper).1 ≡ exits 1
unfolding run with_worker after_fork fork_worker wait_for
run-foreground = refl
