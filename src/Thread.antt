-- ===== src/Thread.antt =====
-- core/Thread.h and core/Thread.cpp: CThread; and core/Common.cpp, the clock. The calls of pthread are a
-- parameter; what pthread_create does to the id where it fails is not said, and here it stays.
use byron0416_mp.Prelude.{ℕ, ◌/◌, Bool, true, false, Option, none, some, add64, mul64}

-- pthread_create (none where it fails; an id is not 0), pthread_setaffinity_np (true is the result 0)
-- and pthread_join.
pub record Pthread (W : Type 0) : Type 0 where
  pub create : W → Option ℕ × W
  pub set_affinity : ℕ → ℕ → W → Bool × W
  pub join : ℕ → W → W

-- m_Thread, none for 0; m_Affinity, none below zero; m_Run.
pub record Thread (W : Type 0) : Type 0 where
  pub thread : Option ℕ
  pub affinity : Option ℕ
  pub goes_on : Bool
  pub world : W

abbrev pub new_thread : {W : Type 0} → Option ℕ → W → Thread W
new_thread affinity w = record { thread = none; affinity = affinity; goes_on = true; world = w }

module _ {W : Type 0} (calls : Pthread W) where
  -- Run.
  unfoldable pub run : Thread W → Bool × Thread W
  run t =
      let r = calls.create t.world in
      elim r.0 [
        | none ↦ (false, record t { world = r.1 })
        | some id ↦ (true, record t { thread = some id; world = r.1 })
      ]

  unfoldable pub set_affinity : Option ℕ → Thread W → Bool × Thread W
  set_affinity none t = (true, t)
  set_affinity (some cpu) t = elim t.thread [
    | none ↦ (true, record t { affinity = some cpu })
    | some id ↦
        let r = calls.set_affinity id cpu t.world in
        (r.0, record t { affinity = some cpu; world = r.1 })
  ]

  -- Stop, which waits until the thread has seen that m_Run is false.
  unfoldable pub stop : Thread W → Thread W
  stop t = elim t.thread [
    | none ↦ t
    | some id ↦ record t {
      thread = none;
      affinity = none;
      goes_on = true;
      world = calls.join id t.world;
    }
  ]

-- GetCurrent: the milliseconds of gettimeofday's seconds and microseconds.
unfoldable pub get_current : ℕ → ℕ → ℕ
get_current sec usec = add64 (mul64 sec 1000) (usec / 1000)
