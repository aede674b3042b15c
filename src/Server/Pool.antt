-- ===== src/Server/Pool.antt =====
-- Server.cpp, CEngin::OnRead: m_Free and the list of idle sessions as connections are handed out.
use mathlib.Core.List.{append_assoc, append-nil}
use byron0416_mp.Event.{Epoll}
use byron0416_mp.Prelude.{
  ℕ, zero, suc, ◌+◌, ◌≤◌, ◌≡◌, refl, ap, sym, ◌∙◌, ◌⊎◌, Bool, true, false, List, [], ◌∷◌, ◌++◌, map,
  some, some-inj, arith, length, length-append, Bool-cases, inl, inr,
}
use byron0416_mp.Server.{
  Accepted, connection, again, refused, Engin, accept_loop, hand_one, hand_out, on_read,
}

front-cases : (xs : List ℕ) → (xs ≡ []) ⊎ ((x : ℕ) × (ys : List ℕ) × (xs ≡ x ∷ ys))
front-cases [] = inl refl
front-cases (x ∷ xs) = inr (x, xs, refl)

accept_loop-length :
    (free : ℕ) (backlog : List Accepted)
    → (accept_loop free backlog).0 + length (accept_loop free backlog).1 ≡ free
unfolding accept_loop
accept_loop-length zero backlog = refl
accept_loop-length (suc free) (connection fd ∷ backlog) =
    omega (arith, accept_loop-length free backlog)
accept_loop-length (suc free) (again ∷ backlog) = omega arith
accept_loop-length (suc free) (refused ∷ backlog) = omega arith
accept_loop-length (suc free) [] = omega arith

-- The descriptors that accept gave, each of them taken by a session that handles it, or closed because
-- a session refused it, in order.
pub data Settled (handle : ℕ → ℕ → Bool) : List ℕ → List (ℕ × ℕ) → List ℕ → Type 0 where
  nothing : Settled handle [] [] []
  taken :
      (session fd : ℕ) (fds : List ℕ) (taken_by : List (ℕ × ℕ)) (closed : List ℕ)
      → handle session fd ≡ true
      → Settled handle fds taken_by closed
      → Settled handle (fd ∷ fds) ((session, fd) ∷ taken_by) closed
  dropped :
      (session fd : ℕ) (fds : List ℕ) (taken_by : List (ℕ × ℕ)) (closed : List ℕ)
      → handle session fd ≡ false
      → Settled handle fds taken_by closed
      → Settled handle (fd ∷ fds) taken_by (fd ∷ closed)

-- Where accept stops giving connections.
abbrev pub IsDry : List Accepted → Type 0
IsDry (connection fd ∷ backlog) = ⊥
IsDry _ = Unit

-- The connections in front of the backlog, up to the free count.
accept_loop-front :
    (free : ℕ) (backlog : List Accepted)
    → (rest : List Accepted) × (backlog ≡ map connection (accept_loop free backlog).1 ++ rest)
      × ((length (accept_loop free backlog).1 ≡ free) ⊎ IsDry rest)
unfolding accept_loop
accept_loop-front zero backlog = (backlog, refl, inl refl)
accept_loop-front (suc free) (connection fd ∷ backlog) =
    let (rest, front, ends) = accept_loop-front free backlog in
    (
      rest,
      ap (λ b. connection fd ∷ b) front,
      elim ends [ inl full ↦ inl (ap suc full) | inr dry ↦ inr dry ],
    )
accept_loop-front (suc free) (again ∷ backlog) = (_, refl, inr tt)
accept_loop-front (suc free) (refused ∷ backlog) = (_, refl, inr tt)
accept_loop-front (suc free) [] = ([], refl, inr tt)

-- From one state of an engine to a later one, while n descriptors are handed out and k are still to
-- come: the free count and those are the idle sessions, the sessions that took a descriptor are no
-- longer idle, and each of the n descriptors was taken or closed.
pub record HandsOut {W : Type 0} (n k : ℕ) (e e' : Engin W) : Type 0 where
  pub counts : e'.free + k ≡ length e'.sessions
  pub keeps : length e'.handled + length e'.sessions ≡ length e.handled + length e.sessions
  pub settles : length e'.handled + length e'.closed ≡ length e.handled + length e.closed + n
  pub size : e'.session_count ≡ e.session_count
  pub more : length e.handled ≤ length e'.handled
  pub locked : e'.locked ≡ e.locked

module _ {W : Type 0} (handle : ℕ → ℕ → Bool) where
  hand_one-HandsOut :
      (fd session k : ℕ) (rest : List ℕ) (e : Engin W)
      → e.sessions ≡ session ∷ rest
      → e.free + suc k ≡ length e.sessions
      → HandsOut 1 k e (hand_one handle fd session rest e)
  unfolding hand_one
  hand_one-HandsOut fd session k rest e front h =
      let size : length e.sessions ≡ suc (length rest) = ap length front in
      let h' : e.free + suc k ≡ length e.sessions = h in
      elim (Bool-cases (handle session fd)) [
        | inl good ↦ rw good (record {
          counts = omega (arith, h', size);
          keeps = omega (arith, size, length-append e.handled ((session, fd) ∷ []));
          settles = omega (arith, length-append e.handled ((session, fd) ∷ []));
          size = refl;
          more = omega (arith, length-append e.handled ((session, fd) ∷ []));
          locked = refl;
        })
        | inr bad ↦ rw bad (record {
          counts = omega (arith, h', size, length-append rest (session ∷ []));
          keeps = omega (arith, size, length-append rest (session ∷ []));
          settles = omega (arith, length-append e.closed (fd ∷ []));
          size = refl;
          more = omega arith;
          locked = refl;
        })
      ]

  HandsOut-trans :
      (n k : ℕ) (a b c : Engin W) → HandsOut 1 k a b → HandsOut n 0 b c → HandsOut (suc n) 0 a c
  HandsOut-trans n k a b c f g = record {
    counts = g.counts;
    keeps = g.keeps ∙ f.keeps;
    settles = omega (arith, f.settles, g.settles);
    size = g.size ∙ f.size;
    more = omega (arith, f.more, g.more);
    locked = g.locked ∙ f.locked;
  }

  -- The same run, with the descriptors.
  abbrev Gives : List ℕ → Engin W → Engin W → Type 0
  Gives fds e e' =
      (taken_by : List (ℕ × ℕ)) × (closed : List ℕ) × (e'.handled ≡ e.handled ++ taken_by)
      × (e'.closed ≡ e.closed ++ closed)
      × Settled handle fds taken_by closed

  hand_out-Gives :
      (fds : List ℕ) (e e' : Engin W) → hand_out handle fds e ≡ some e' → Gives fds e e'
  unfolding hand_out hand_one
  hand_out-Gives [] e e' h = (
    [],
    [],
    ap (λ x. x.handled) (sym (some-inj h)) ∙ sym (append-nil e.handled),
    ap (λ x. x.closed) (sym (some-inj h)) ∙ sym (append-nil e.closed),
    nothing,
  )
  hand_out-Gives (fd ∷ fds) e e' h = elim (front-cases e.sessions) [
    | inl empty ↦ absurd (cc (rw (empty, hand_out) at h))
    | inr (session, rest, front) ↦
        let next = hand_one handle fd session rest e in
        let (taken_by, closed, of_handled, of_closed, settled) =
          hand_out-Gives fds next e' (rw (front, hand_out) at h) in
        elim (Bool-cases (handle session fd)) [
          | inl good ↦ (
            (session, fd) ∷ taken_by,
            closed,
            of_handled ∙ rw (good, hand_one) (append_assoc e.handled ((session, fd) ∷ []) taken_by),
            of_closed ∙ rw (good, hand_one) refl,
            taken session fd fds taken_by closed good settled,
          )
          | inr bad ↦ (
            taken_by,
            fd ∷ closed,
            of_handled ∙ rw (bad, hand_one) refl,
            of_closed ∙ rw (bad, hand_one) (append_assoc e.closed (fd ∷ []) closed),
            dropped session fd fds taken_by closed bad settled,
          )
        ]
  ]

  hand_out-HandsOut :
      (fds : List ℕ) (e : Engin W)
      → e.free + length fds ≡ length e.sessions
      → (e' : Engin W) × (hand_out handle fds e ≡ some e') × HandsOut (length fds) 0 e e'
  unfolding hand_out
  hand_out-HandsOut [] e h = (
    e,
    refl,
    record {
      counts = h;
      keeps = refl;
      settles = omega arith;
      size = refl;
      more = omega arith;
      locked = refl;
    },
  )
  hand_out-HandsOut (fd ∷ fds) e h = elim (front-cases e.sessions) [
    | inl empty ↦ absurd (omega (arith, h, ap length empty))
    | inr (session, rest, front) ↦
        let one = hand_one-HandsOut fd session (length fds) rest e front h in
        let next = hand_one handle fd session rest e in
        let (e', runs, all) = hand_out-HandsOut fds next one.counts in
        (e', rw (front, hand_out) runs, HandsOut-trans (length fds) (length fds) e next e' one all)
  ]

module _ (ep : Epoll) (handle : ℕ → ℕ → Bool) where
  -- Where the free count is the number of idle sessions, OnRead never takes a session from an empty
  -- list. It takes the connections in front of what accept gives, until the first answer that is none
  -- or until there is one for each idle session. In their order each descriptor is given to a session
  -- that handles it, and noted so, or, where a session has refused it, closed. The count stays right,
  -- the lock is released, the number of sessions stays, and what was handled or closed before stays.
  pub on_read-HandsOut :
      (backlog : List Accepted) (e : Engin ep.World)
      → e.free ≡ length e.sessions
      → (e' : Engin ep.World) × (on_read ep handle backlog e ≡ some e')
        × (e'.free ≡ length e'.sessions)
        × (length e'.handled + length e'.sessions ≡ length e.handled + length e.sessions)
        × (length e'.handled + length e'.closed
            ≡ length e.handled + length e.closed + length (accept_loop e.free backlog).1)
        × (length (accept_loop e.free backlog).1 ≤ length e.sessions)
        × (e'.locked ≡ false)
        × (e'.session_count ≡ e.session_count)
        × (length e.handled ≤ length e'.handled)
        × (fds : List ℕ) × (rest : List Accepted) × (backlog ≡ map connection fds ++ rest)
        × ((length fds ≡ length e.sessions) ⊎ IsDry rest)
        × (taken_by : List (ℕ × ℕ)) × (closed : List ℕ) × (e'.handled ≡ e.handled ++ taken_by)
        × (e'.closed ≡ e.closed ++ closed)
        × Settled handle fds taken_by closed
  unfolding on_read
  on_read-HandsOut backlog e h =
      let (rest, front, ends) = accept_loop-front e.free backlog in
      let accepted = accept_loop-length e.free backlog in
      let (e', runs, all) =
        hand_out-HandsOut handle (accept_loop e.free backlog).1 _ (accepted ∙ h) in
      let (taken_by, closed, of_handled, of_closed, settled) =
        hand_out-Gives handle (accept_loop e.free backlog).1 _ e' runs in
      (
        e',
        runs,
        omega (arith, all.counts),
        all.keeps,
        all.settles,
        omega (arith, accepted, h),
        all.locked,
        all.size,
        all.more,
        (accept_loop e.free backlog).1,
        rest,
        front,
        elim ends [ inl full ↦ inl (full ∙ h) | inr dry ↦ inr dry ],
        taken_by,
        closed,
        of_handled,
        of_closed,
        settled,
      )
