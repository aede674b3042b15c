-- ===== src/Daemon/Restart.antt =====
-- CDaemon::Run: a worker that dies by a signal is followed by another.
use byron0416_mp.Daemon.{
  parent_of, signaled, exited, Round, Keeper, Ending, returns, goes_on, fork_worker, wait_for,
  with_worker, after_fork, run, Waited, no_child, Worker, pid, ended,
}
use mathlib.Core.List.{append-nil}
use byron0416_mp.Prelude.{
  ℕ, ◌+◌, ◌≡◌, sym, ◌≤◌, ap, ◌∙◌, Bool, true, List, [], ◌∷◌, ◌++◌, Option, none, some, arith,
  length, map, ◌==◌, Bool-cases, Option-cases, inl, inr,
}

-- A round in which a worker is forked and dies by a signal.
abbrev pub death : ℕ × ℕ → Round
death (worker, signal) = record {
  runs = true;
  forked = parent_of worker;
  serves = true;
  waited = signaled worker signal;
}

abbrev pub exit : ℕ → ℕ → Round
exit worker status = record {
  runs = true;
  forked = parent_of worker;
  serves = true;
  waited = exited worker status;
}

same : (p : ℕ) → (p == p) ≡ true
same p = ground arith

run-deaths :
    (ds : List (ℕ × ℕ)) (rest : List Round) (n : ℕ)
    → run true (map death ds ++ rest) (record { worker = none; forks = n })
      ≡ run true rest (record { worker = none; forks = n + length ds })
unfolding run with_worker wait_for fork_worker after_fork
run-deaths [] rest n = ap (λ k. run true rest (record { worker = none; forks = k })) (omega arith)
run-deaths ((p, signal) ∷ ds) rest n = rw (same p) (
    run-deaths ds rest (n + 1)
    ∙ ap (λ k. run true rest (record { worker = none; forks = k })) {x = n + 1 + length ds}
        (omega arith))

-- However many workers die by a signal one after the other, the keeper forks the next one each time, one
-- for each death; but when a worker exits by itself, also with status 0, the keeper returns 2 and forks
-- no more.
pub run-restarts :
    (ds : List (ℕ × ℕ)) (worker status : ℕ) (rest : List Round)
    → (run true (map death ds) (record { worker = none; forks = 0 })
        ≡ (record { worker = none; forks = length ds }, goes_on))
      × (run true (map death ds ++ exit worker status ∷ rest) (record { worker = none; forks = 0 })
          ≡ (record { worker = some worker; forks = length ds + 1 }, returns 2))
unfolding run with_worker wait_for fork_worker after_fork
run-restarts ds worker status rest = (
  ap (λ rs. run true rs (record { worker = none; forks = 0 })) (sym (append-nil (map death ds)))
      ∙ run-deaths ds [] 0
      ∙ ap (λ n. (record { worker = none; forks = n }, goes_on)) {x = 0 + length ds} (omega arith),
  run-deaths ds (exit worker status ∷ rest) 0
      ∙ ap (λ n. (record { worker = some worker; forks = n }, returns 2)) {x = 0 + length ds + 1}
          (omega arith),
)

-- The deaths that wait reports.
abbrev pub is_death : Waited → ℕ
is_death no_child = 0
is_death (exited child status) = 0
is_death (signaled child signal) = 1

abbrev pub deaths : List Round → ℕ
deaths [] = 0
deaths (r ∷ rs) = is_death r.waited + deaths rs

abbrev pub vacant : Option ℕ → ℕ
vacant none = 1
vacant (some p) = 0

-- The bound on the forks of a run that goes on behind a wait.
abbrev Bounded : ℕ → Keeper → Keeper × Ending → Type 0
Bounded n k r = (r.0).forks ≤ k.forks + n

wait_for-Bounded :
    (rest : Keeper → Keeper × Ending) (n p : ℕ) (w : Waited) (k : Keeper)
    → ((q : Option ℕ)
        → Bounded (n + vacant q) (record k { worker = q }) (rest (record k { worker = q })))
    → Bounded (n + is_death w) k (wait_for rest p w k)
unfolding wait_for
wait_for-Bounded rest n p no_child k h = omega arith
wait_for-Bounded rest n p (exited child status) k h = omega arith
wait_for-Bounded rest n p (signaled child signal) k h = elim (Bool-cases (p == child)) [
  | inl dead ↦ rw (dead, wait_for) (omega (arith, h none))
  | inr other ↦ rw (other, wait_for) (omega (arith, h (some p)))
]

after_fork-Bounded :
    (wait : ℕ → Keeper → Keeper × Ending) (n : ℕ) (w : Worker) (k : Keeper)
    → ((p : ℕ) (j : Keeper) → Bounded n j (wait p j))
    → Bounded n k (after_fork wait w k)
unfolding after_fork
after_fork-Bounded wait n (pid none) k h = omega arith
after_fork-Bounded wait n (pid (some p)) k h = h p _
after_fork-Bounded wait n (ended end) k h = omega arith

with_worker-Bounded :
    (wait : ℕ → Keeper → Keeper × Ending) (n : ℕ) (is_daemon : Bool) (r : Round) (k : Keeper)
    → ((p : ℕ) (j : Keeper) → Bounded n j (wait p j))
    → Bounded (n + vacant k.worker) k (with_worker wait is_daemon r k)
unfolding with_worker
with_worker-Bounded wait n is_daemon r k h = elim (Option-cases k.worker) [
  | inl idle ↦
      simp (idle, with_worker)
        (omega (
          arith,
          after_fork-Bounded wait n (fork_worker is_daemon r.forked r.serves)
              (record { worker = none; forks = k.forks + 1 }) h,
        ))
  | inr (p, busy) ↦ simp (busy, with_worker) (omega (arith, h p k))
]

-- Whatever fork, wait and the signals bring, whether the process becomes a daemon or not: the keeper
-- forks at most one worker more than it is told of workers that died by a signal, and none more where it
-- has a worker already.
pub run-forks :
    (is_daemon : Bool) (rs : List Round) (k : Keeper)
    → ((run is_daemon rs k).0).forks ≤ k.forks + (deaths rs + vacant k.worker)
unfolding run
run-forks is_daemon [] k = omega arith
run-forks is_daemon (r ∷ rs) k = elim (Bool-cases r.runs) [
  | inl on ↦
      simp (on, run)
        (omega (
          arith,
          with_worker-Bounded (λ p. wait_for (run is_daemon rs) p r.waited)
              (deaths rs + is_death r.waited) is_daemon r k
              (λ p j.
                wait_for-Bounded (run is_daemon rs) (deaths rs) p r.waited j
                  (λ q. run-forks is_daemon rs (record j { worker = q }))),
        ))
  | inr off ↦ simp (off, run) (omega arith)
]
