-- ===== src/Event/Life.antt =====
-- core/Event.cpp, CEventEngin: the constructor, Initialize and Uninitialize, with the thread of the engine.
-- epoll_create and close are a parameter, as are the calls of pthread.
pub mod Settles
use byron0416_mp.Prelude.{
  ℕ, ◌+◌, ◌≡◌, ◌≢◌, refl, ◌∙◌, Bool, true, false, Option, none, some, arith, Option-cases,
  Bool-cases, inl, inr,
}
use byron0416_mp.Process.{Resource, descriptor, thread, one, Takes, Gives, Keeps}
use byron0416_mp.Thread
use byron0416_mp.Thread.{Pthread, Thread, new_thread, run, set_affinity, stop}

pub record Calls (W : Type 0) : Type 0 where
  pub pthread : Pthread W
  pub epoll_create : W → Option ℕ × W
  pub close : ℕ → W → W

-- m_Fd, none for -1, and the thread.
pub record Life (W : Type 0) : Type 0 where
  pub fd : Option ℕ
  pub thread : Thread W

abbrev pub new_life : {W : Type 0} → W → Life W
new_life w = record { fd = none; thread = new_thread none w }

module _ {W : Type 0} (calls : Calls W) where
  -- Initialize, once epoll has given a descriptor.
  unfoldable pub start_thread : Option ℕ → ℕ → Bool × Thread W → Bool × Life W
  start_thread affinity fd (true, t) =
      let r = set_affinity calls.pthread affinity t in (r.0, record { fd = some fd; thread = r.1 })
  start_thread affinity fd (false, t) =
      (false, record { fd = none; thread = record t { world = calls.close fd t.world } })

  unfoldable pub initialize : Option ℕ → Life W → Bool × Life W
  initialize affinity e =
      let r = calls.epoll_create e.thread.world in
      let t : Thread W = record e.thread { world = r.1 } in
      elim r.0 [
        | none ↦ (false, record { fd = none; thread = t })
        | some fd ↦ start_thread affinity fd (run calls.pthread t)
      ]

  unfoldable pub uninitialize : Life W → Life W
  uninitialize e =
      let t = stop calls.pthread e.thread in
      elim e.fd [
        | none ↦ record { fd = none; thread = t }
        | some fd ↦ record { fd = none; thread = record t { world = calls.close fd t.world } }
      ]

-- What POSIX says of the calls.
pub record IsProcess {W : Type 0} (calls : Calls W) (uses : W → Resource → ℕ) : Type 0 where
  pub epoll_takes :
      (w : W) (fd : ℕ)
      → (calls.epoll_create w).0 ≡ some fd
      → Takes uses (descriptor fd) w (calls.epoll_create w).1
  pub epoll_fails :
      (w : W) → (calls.epoll_create w).0 ≡ none → Keeps uses w (calls.epoll_create w).1
  pub close_gives : (fd : ℕ) (w : W) → Gives uses (descriptor fd) w (calls.close fd w)
  pub thread_takes :
      (w : W) (id : ℕ)
      → (calls.pthread.create w).0 ≡ some id
      → Takes uses (thread id) w (calls.pthread.create w).1
  pub thread_fails :
      (w : W) → (calls.pthread.create w).0 ≡ none → Keeps uses w (calls.pthread.create w).1
  pub affinity_keeps : (id cpu : ℕ) (w : W) → Keeps uses w (calls.pthread.set_affinity id cpu w).1
  pub join_gives : (id : ℕ) (w : W) → Gives uses (thread id) w (calls.pthread.join id w)

-- An engine that is not running, and one that is, and what it uses besides what was used before.
pub record IsStopped {W : Type 0} (uses : W → Resource → ℕ) (before : W) (e : Life W) : Type 0 where
  pub no_fd : e.fd ≡ none
  pub no_thread : e.thread.thread ≡ none
  pub as_before : Keeps uses before e.thread.world

pub record IsRunning {W : Type 0} (uses : W → Resource → ℕ) (before : W) (e : Life W) : Type 0 where
  pub fd : ℕ
  pub id : ℕ
  pub is_fd : e.fd ≡ some fd
  pub is_thread : e.thread.thread ≡ some id
  pub both :
      (x : Resource)
      → uses e.thread.world x ≡ uses before x + one (descriptor fd) x + one (thread id) x
