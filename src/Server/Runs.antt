-- ===== src/Server/Runs.antt =====
-- Server.cpp, the runs of a CEngin: it has started, connections come in, sessions finish, the timer fires.
use byron0416_mp.Event.{Epoll, register_priority}
use byron0416_mp.Event
use byron0416_mp.Prelude.{
  ℕ, zero, suc, inl, inr, ◌⊎◌, ◌∙◌, ◌+◌, ◌-◌, ◌≡◌, refl, ap, subst, Bool, true, false, List, [],
  ◌∷◌, ◌++◌, some, arith, length, length-append, le→leb,
}
use byron0416_mp.Server.{
  Accepted, Engin, new_engin, run, create_sessions, on_read, on_timer, on_sub_event,
}
use byron0416_mp.Server.Pool.{on_read-HandsOut}

-- The states that an engine comes to, with the number of its sessions that are busy. A session that
-- reports that it is done is a busy one.
pub data Reach (ep : Epoll) : Engin ep.World → ℕ → Type 0 where
  started :
      (event : Event.Engin ep.World) (inits : Bool × Bool) (engin attached timed : Bool)
      (e : Engin ep.World)
      → run inits engin attached timed (new_engin event) ≡ (true, e)
      → Reach ep e 0
  read :
      (e e' : Engin ep.World) (busy : ℕ) (handle : ℕ → ℕ → Bool) (backlog : List Accepted)
      → Reach ep e busy
      → on_read ep handle backlog e ≡ some e'
      → Reach ep e' (busy + (length e'.handled - length e.handled))
  timer : (e : Engin ep.World) (busy : ℕ) → Reach ep e busy → Reach ep (on_timer ep e) busy
  finished :
      (e e' : Engin ep.World) (busy session : ℕ)
      → Reach ep e (suc busy)
      → on_sub_event session e ≡ some e'
      → Reach ep e' busy

module _ (ep : Epoll) where
  pub record IsPool (e : Engin ep.World) (busy : ℕ) : Type 0 where
    pub counts : e.free ≡ length e.sessions
    pub total : length e.sessions + busy ≡ e.session_count
    pub two : e.session_count ≡ 2

  fails : {r : Bool × Engin ep.World} {e : Engin ep.World} → r ≡ (true, e) → r.0 ≡ true
  fails h = ap (λ r. r.0) h

  run-IsPool :
      (event : Event.Engin ep.World) (inits : Bool × Bool) (engin attached timed : Bool)
      (e : Engin ep.World)
      → run inits engin attached timed (new_engin event) ≡ (true, e)
      → IsPool e 0
  unfolding run create_sessions new_engin
  run-IsPool event (false, second) engin attached timed e h = absurd (ground (arith, fails h))
  run-IsPool event (true, false) engin attached timed e h = absurd (ground (arith, fails h))
  run-IsPool event (true, true) false attached timed e h = absurd (ground (arith, fails h))
  run-IsPool event (true, true) true false timed e h = absurd (ground (arith, fails h))
  run-IsPool event (true, true) true true false e h = absurd (ground (arith, fails h))
  run-IsPool event (true, true) true true true e h =
      subst (λ x. IsPool x 0) (ap (λ r. r.1) h) (record { counts = refl; total = refl; two = refl })

  on_timer-IsPool : (e : Engin ep.World) (busy : ℕ) → IsPool e busy → IsPool (on_timer ep e) busy
  unfolding on_timer
  on_timer-IsPool e busy h = record {
    counts = ground (arith, h.counts);
    total = ground (arith, h.total);
    two = ground (arith, h.two);
  }

  on_sub_event_lem :
      (e : Engin ep.World) (busy session : ℕ)
      → IsPool e (suc busy)
      → (e' : Engin ep.World) × (on_sub_event session e ≡ some e') × IsPool e' busy
  unfolding on_sub_event
  on_sub_event_lem e busy session h =
      let more = length-append e.sessions (session ∷ []) in
      (
        record e { sessions = e.sessions ++ (session ∷ []); free = e.free + 1 },
        rw (le→leb (e.free + 1) e.session_count (omega (arith, h.counts, h.total))) refl,
        record {
          counts = omega (arith, more, h.counts);
          total = omega (arith, more, h.total);
          two = h.two;
        },
      )

  read-IsPool :
      {e e' : Engin ep.World} {busy : ℕ} (handle : ℕ → ℕ → Bool) (backlog : List Accepted)
      → IsPool e busy
      → on_read ep handle backlog e ≡ some e'
      → IsPool e' (busy + (length e'.handled - length e.handled))
  read-IsPool {e} {e'} {busy} handle backlog h p =
      let (
        e'', runs, counts, keeps, settles, fits, free, size, more, fds, rest, front, ends, taken_by,
        closed, of_handled, of_closed, settled,
      ) =
        on_read-HandsOut ep handle backlog e h.counts in
      let same : e'' ≡ e' = cc in
      subst (λ x. IsPool x (busy + (length x.handled - length e.handled))) same
        (record {
          counts = counts;
          total = omega (arith, keeps, more, h.total, size);
          two = size ∙ h.two;
        })

  Reach-IsPool : {e : Engin ep.World} {busy : ℕ} → Reach ep e busy → IsPool e busy
  Reach-IsPool (started event inits engin attached timed e p) =
      run-IsPool event inits engin attached timed e p
  Reach-IsPool (read e e' busy handle backlog r p) = read-IsPool handle backlog (Reach-IsPool r) p
  Reach-IsPool (timer e busy r) = on_timer-IsPool e busy (Reach-IsPool r)
  Reach-IsPool (finished e e' busy session r p) =
      let (e'', runs, h) = on_sub_event_lem e busy session (Reach-IsPool r) in
      let same : e'' ≡ e' = cc in subst (λ x. IsPool x busy) same h

  finishes :
      (e : Engin ep.World) (busy session : ℕ)
      → IsPool e busy
      → (busy ≡ 0) ⊎ ((e' : Engin ep.World) × (on_sub_event session e ≡ some e'))
  finishes e zero session h = inl refl
  finishes e (suc busy) session h =
      let (e', ends, _) = on_sub_event_lem e busy session h in inr (e', ends)

  -- In whatever order connections come in, sessions finish and the timer fires, from the start of an
  -- engine whose two sessions are idle: the free count is the number of idle sessions, idle and busy
  -- sessions together are two, OnRead never finds the list empty, and unless no session is busy the
  -- assert of OnSubEvent holds when one of them finishes. Run does start such an engine when the
  -- calls in it succeed.
  pub Reach-safe :
      (e : Engin ep.World) (busy session : ℕ) (handle : ℕ → ℕ → Bool) (backlog : List Accepted)
      (event : Event.Engin ep.World)
      → Reach ep e busy
      → (e.free ≡ length e.sessions)
        × (length e.sessions + busy ≡ 2)
        × ((e' : Engin ep.World) × (on_read ep handle backlog e ≡ some e'))
        × ((busy ≡ 0) ⊎ ((e' : Engin ep.World) × (on_sub_event session e ≡ some e')))
        × ((e₀ : Engin ep.World) × (run (true, true) true true true (new_engin event) ≡ (true, e₀))
            × (length e₀.sessions ≡ 2))
  unfolding run create_sessions new_engin
  Reach-safe e busy session handle backlog event r =
      let h = Reach-IsPool r in
      let reads = on_read-HandsOut ep handle backlog e h.counts in
      (h.counts, h.total ∙ h.two, (reads.0, reads.1), finishes e busy session h, (_, refl, refl))
