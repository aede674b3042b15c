-- ===== src/Server/Lock/Exclusion.antt =====
-- Server.cpp: who owns m_Mutex.
use byron0416_mp.Prelude.{
  ℕ, ◌≡◌, refl, Bool, true, false, Option, none, some, ◌==◌, ==_iff, Bool-cases, inl, inr, ◌∙◌, sym,
  subst, some-inj,
}
use byron0416_mp.Server.Lock.{Pc, Local, System, Step, pick, Reach, start, later, started}
use byron0416_mp.Server.Lock.Moves.{holds_at, IsHeld, Passes, After, move_at-After}

-- The statements that unlock the mutex.
abbrev pub unlocks : Pc → Bool
unlocks Pc.giving_up = true
unlocks Pc.unlocking = true
unlocks pc = false

unlocks-owner :
    {owner : Option ℕ} {l : Local} (i : ℕ) (pc : Pc)
    → IsHeld i pc owner l
    → unlocks pc ≡ true
    → owner ≡ some i
unlocks-owner i Pc.giving_up h u = h.held refl
unlocks-owner i Pc.unlocking h u = h.held refl
unlocks-owner i Pc.polling h u = absurd (cc)
unlocks-owner i Pc.trying h u = absurd (cc)
unlocks-owner i Pc.registering h u = absurd (cc)
unlocks-owner i Pc.stopping_timer h u = absurd (cc)
unlocks-owner i Pc.accepting h u = absurd (cc)
unlocks-owner i Pc.arming h u = absurd (cc)
unlocks-owner i Pc.unregistering h u = absurd (cc)
unlocks-owner i Pc.handing h u = absurd (cc)

waiting :
    {owner : Option ℕ} (i : ℕ) (pc : Pc) (l : Local)
    → pc ≡ Pc.polling
    → IsHeld i pc owner l
    → owner ≡ some i
    → (l.added ≡ true) × (l.timer ≡ false)
waiting {owner} i pc l at h own =
    let loop : IsHeld i Pc.polling owner l = subst (λ p. IsHeld i p owner l) at h in
    (loop.holds own, loop.fits (loop.holds own))

abbrev IsShared : System → Type 0
IsShared s = (i : ℕ) → IsHeld i (s.engins i).pc s.owner (s.engins i)

Step-IsShared : {s t : System} → Step true s t → IsShared s → IsShared t
Step-IsShared {s} (pick i input owner l e) h j =
    let moved : Passes i s.owner owner l =
      subst (After i s.owner) e
        (move_at-After i (s.engins i).pc input s.owner (s.engins i) (h i)) in
    elim (Bool-cases (i == j)) [
      | inl same ↦ rw same (subst (λ k. IsHeld k l.pc owner l) ((==_iff i j).0 same) moved.own)
      | inr other ↦ rw other (record {
        fits = (h j).fits;
        held = λ e. moved.to j other ((h j).held e);
        holds = λ e. (h j).holds (moved.from j other e);
      })
    ]

started-IsShared : IsShared (record { owner = none; engins = λ i. started })
started-IsShared i = record {
  fits = λ e. absurd (cc);
  held = λ e. absurd (cc);
  holds = λ e. absurd (cc);
}

Reach-IsShared : {s : System} → Reach true s → IsShared s
Reach-IsShared start = started-IsShared
Reach-IsShared (later r st) = Step-IsShared st (Reach-IsShared r)

-- However many engines share the lock, and in whatever order their threads run: if epoll lets go of a
-- listener whenever it is told to, two engines are never between TryLock and Unlock together, so that
-- one at most accepts connections; an engine unlocks only what it has locked itself; and whoever owns
-- the lock is on its way to release it: if it is in its event loop, the listener is registered there
-- and its timer is off.
pub Reach-exclusive :
    (s : System)
    → Reach true s
    → ((i j : ℕ)
        → holds_at (s.engins i).pc (s.engins i).added ≡ true
        → holds_at (s.engins j).pc (s.engins j).added ≡ true
        → i ≡ j)
      × ((i : ℕ) → unlocks (s.engins i).pc ≡ true → s.owner ≡ some i)
      × ((i : ℕ) → s.owner ≡ some i → holds_at (s.engins i).pc (s.engins i).added ≡ true)
      × ((i : ℕ)
          → s.owner ≡ some i
          → (s.engins i).pc ≡ Pc.polling
          → ((s.engins i).added ≡ true) × ((s.engins i).timer ≡ false))
Reach-exclusive s r =
    let shared : IsShared s = Reach-IsShared r in
    (
      λ i j in_i in_j. some-inj (sym ((shared i).held in_i) ∙ (shared j).held in_j),
      λ i u. unlocks-owner i (s.engins i).pc (shared i) u,
      λ i own. (shared i).holds own,
      λ i own at. waiting i (s.engins i).pc (s.engins i) at (shared i) own,
    )
