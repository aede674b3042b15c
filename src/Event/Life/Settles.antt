-- ===== src/Event/Life/Settles.antt =====
-- core/Event.cpp, CEventEngin: what Initialize takes from the system and Uninitialize gives back.
use byron0416_mp.Event.Life.{
  Calls, Life, start_thread, initialize, uninitialize, IsProcess, IsStopped, IsRunning,
}
use byron0416_mp.Prelude.{
  ℕ, ◌+◌, ◌≡◌, ◌⊎◌, refl, ◌∙◌, Bool, true, false, Option, none, some, arith, Option-cases, inl, inr,
}
use byron0416_mp.Process.{Resource, descriptor, thread, one}
use byron0416_mp.Thread.{Thread, run, set_affinity, stop}

module _ {W : Type 0} (calls : Calls W) (uses : W → Resource → ℕ) (law : IsProcess calls uses) where
  pub uninitialize-IsStopped_running :
      (before : W) (e : Life W)
      → IsRunning uses before e
      → IsStopped uses before (uninitialize calls e)
  unfolding uninitialize stop
  uninitialize-IsStopped_running before e h =
      let id : ℕ = h.id in
      let joined : W = calls.pthread.join id e.thread.world in
      record {
        no_fd = simp (h.is_fd, uninitialize);
        no_thread = simp (h.is_fd, h.is_thread, uninitialize, stop) refl;
        as_before = λ x.
            simp (h.is_fd, h.is_thread, uninitialize, stop)
              (omega (
                arith,
                law.close_gives h.fd joined x,
                law.join_gives id e.thread.world x,
                h.both x,
              ));
      }

  pub uninitialize-IsStopped :
      (before : W) (e : Life W)
      → IsStopped uses before e
      → IsStopped uses before (uninitialize calls e)
  unfolding uninitialize stop
  uninitialize-IsStopped before e h = record {
    no_fd = simp (h.no_fd, uninitialize);
    no_thread = simp (h.no_fd, h.no_thread, uninitialize, stop);
    as_before = λ x. simp (h.no_fd, h.no_thread, uninitialize, stop) (h.as_before x);
  }

  -- What Initialize leaves: the engine runs, or it returned false and is stopped.
  abbrev pub Settles : W → Bool × Life W → Type 0
  Settles before r = IsRunning uses before r.1 ⊎ ((r.0 ≡ false) × IsStopped uses before r.1)

  set_affinity-running :
      (before : W) (affinity : Option ℕ) (fd id : ℕ) (t : Thread W)
      → t.thread ≡ some id
      → ((x : Resource)
          → uses t.world x ≡ uses before x + one (descriptor fd) x + one (thread id) x)
      → Settles before (start_thread calls affinity fd (true, t))
  unfolding start_thread set_affinity
  set_affinity-running before none fd id t started both =
      inl (record { fd = fd; id = id; is_fd = refl; is_thread = started; both = both })
  set_affinity-running before (some cpu) fd id t started both = inl (record {
    fd = fd;
    id = id;
    is_fd = refl;
    is_thread = simp (started, set_affinity);
    both = λ x. simp (started, set_affinity) (law.affinity_keeps id cpu t.world x ∙ both x);
  })

  create_failed :
      (before : W) (affinity : Option ℕ) (e : Life W)
      → IsStopped uses before e
      → (calls.epoll_create e.thread.world).0 ≡ none
      → Settles before (initialize calls affinity e)
  unfolding initialize
  create_failed before affinity e h fails =
      rw (fails, initialize)
        (inr (
          refl,
          record {
            no_fd = refl;
            no_thread = h.no_thread;
            as_before = λ x. law.epoll_fails e.thread.world fails x ∙ h.as_before x;
          },
        ))

  -- The thread, behind an epoll descriptor.
  run-Settles :
      (before : W) (affinity : Option ℕ) (fd : ℕ) (t : Thread W)
      → t.thread ≡ none
      → ((x : Resource) → uses t.world x ≡ uses before x + one (descriptor fd) x)
      → Settles before (start_thread calls affinity fd (run calls.pthread t))
  unfolding run start_thread
  run-Settles before affinity fd t none_yet made =
      elim (Option-cases (calls.pthread.create t.world).0) [
        | inl fails ↦
            let left : W = (calls.pthread.create t.world).1 in
            rw (fails, run, start_thread)
              (inr (
                refl,
                record {
                  no_fd = refl;
                  no_thread = none_yet;
                  as_before = λ x.
                      omega (
                        arith,
                        law.close_gives fd left x,
                        law.thread_fails t.world fails x,
                        made x,
                      );
                },
              ))
        | inr (id, starts) ↦
            rw (starts, run)
              (set_affinity-running before affinity fd id _ refl
                (λ x. omega (arith, law.thread_takes t.world id starts x, made x)))
      ]

  pub initialize-Settles :
      (before : W) (affinity : Option ℕ) (e : Life W)
      → IsStopped uses before e
      → Settles before (initialize calls affinity e)
  unfolding initialize
  initialize-Settles before affinity e h =
      let w : W = e.thread.world in
      elim (Option-cases (calls.epoll_create w).0) [
        | inl fails ↦ create_failed before affinity e h fails
        | inr (fd, made) ↦
            rw (made, initialize)
              (run-Settles before affinity fd _ h.no_thread
                (λ x. omega (arith, law.epoll_takes w fd made x, h.as_before x)))
      ]

  -- Where Initialize returns true, the engine has a descriptor and a thread, and those are all that it
  -- has taken; and whatever Initialize returned, Uninitialize gives back all that it took, and no more.
  pub initialize-uninitialize :
      (before : W) (affinity : Option ℕ) (e : Life W)
      → IsStopped uses before e
      → ((initialize calls affinity e).0 ≡ true
          → IsRunning uses before (initialize calls affinity e).1)
        × IsStopped uses before (uninitialize calls (initialize calls affinity e).1)
  initialize-uninitialize before affinity e h = elim (initialize-Settles before affinity e h) [
    | inl runs ↦ (λ t. runs, uninitialize-IsStopped_running before _ runs)
    | inr (fails, stopped) ↦ (λ t. absurd (cc (fails, t)), uninitialize-IsStopped before _ stopped)
  ]
