-- ===== src/Daemon.antt =====
-- Daemon.h and Daemon.cpp: CDaemon, which forks a worker, waits for it, and forks the next one. What fork
-- and wait return, whether CServer::Run succeeds, and m_Run, which the signal handler sets, are arguments.
pub mod Restart
mod Tests
use byron0416_mp.Prelude.{
  ℕ, ◌+◌, Bool, true, false, List, [], ◌∷◌, Option, none, some, ◌==◌, if◌then◌else◌,
}

-- What fork returns: -1, 0 in the child, or the child's number.
pub data Forked : Type 0 where
  failed in_child : Forked
  parent_of : ℕ → Forked

-- What wait says: -1, or which child ended, and how.
pub data Waited : Type 0 where
  no_child : Waited
  exited signaled : (pid status : ℕ) → Waited

-- A round of the loop in Run, as far as it goes: m_Run at its head, fork, whether the server of a worker
-- runs, and wait.
pub record Round : Type 0 where
  pub runs : Bool
  pub forked : Forked
  pub serves : Bool
  pub waited : Waited

-- pidWorker, none for -1, and how many times ForkWorker has been called.
pub record Keeper : Type 0 where
  pub worker : Option ℕ
  pub forks : ℕ

abbrev pub new_keeper : Keeper
new_keeper = record { worker = none; forks = 0 }

-- How Run ends: it returns, or the worker calls exit, or it goes on behind the rounds that are given.
pub data Ending : Type 0 where
  returns exits : ℕ → Ending
  goes_on : Ending

-- What ForkWorker does in the process that it returns to: the worker's pid (none for -1), or the end of
-- the worker itself, with exit(1) or, once m_Run is false, with 0.
pub data Worker : Type 0 where
  pid : Option ℕ → Worker
  ended : Ending → Worker

abbrev serve : Bool → Worker
serve serves = ended (if serves then returns 0 else exits 1)

-- ForkWorker; without daemon() there is no fork, and the process is the worker.
unfoldable pub fork_worker : Bool → Forked → Bool → Worker
fork_worker true failed serves = pid none
fork_worker true (parent_of p) serves = pid (some p)
fork_worker true in_child serves = serve serves
fork_worker false forked serves = serve serves

-- SignalHandle, on m_Run.
unfoldable pub signal_handle : Bool → Bool
signal_handle runs = false

-- The end of a round: the worker p, and what wait says; rest goes on.
unfoldable pub wait_for : (Keeper → Keeper × Ending) → ℕ → Waited → Keeper → Keeper × Ending
wait_for rest p no_child k = (k, returns 3)
wait_for rest p (exited child status) k = (k, returns 2)
wait_for rest p (signaled child signal) k =
    rest (record k { worker = if p == child then none else some p })

-- Run, behind ForkWorker.
unfoldable pub after_fork : (ℕ → Keeper → Keeper × Ending) → Worker → Keeper → Keeper × Ending
after_fork wait (pid none) k = (k, returns 1)
after_fork wait (pid (some p)) k = wait p (record k { worker = some p })
after_fork wait (ended end) k = (k, end)

-- A round, up to wait.
unfoldable pub with_worker :
    (ℕ → Keeper → Keeper × Ending) → Bool → Round → Keeper → Keeper × Ending
with_worker wait is_daemon r k = elim k.worker [
  | some p ↦ wait p k
  | none ↦
      after_fork wait (fork_worker is_daemon r.forked r.serves) (record k { forks = k.forks + 1 })
]

-- Run.
unfoldable pub run : Bool → List Round → Keeper → Keeper × Ending
run is_daemon [] k = (k, goes_on)
run is_daemon (r ∷ rs) k =
    if r.runs
    then with_worker (λ p. wait_for (run is_daemon rs) p r.waited) is_daemon r k
    else (k, returns 0)
