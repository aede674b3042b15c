-- ===== src/Event/Round.antt =====
-- core/Event.cpp, CEventEngin::Thread: events that are deleted in the course of a round.
use byron0416_mp.Prelude.{
  ℕ, ◌≡◌, refl, sym, true, List, [], ◌∷◌, arith, ◌==◌, ==_iff, if◌then◌else◌, Bool-cases, inl, inr,
  subst,
}
use byron0416_mp.Event.{Engin, Ready, Handlers, mem, serve, second_loop}

-- The events of a round but one.
unfoldable pub without : ℕ → List Ready → List Ready
without e [] = []
without e (r ∷ rs) = if r.event == e then without e rs else r ∷ without e rs

-- No virtual function takes an event out of m_Delete.
pub record KeepsDeleted {W : Type 0} (h : Handlers W) : Type 0 where
  pub reading :
      (x e : ℕ) (s : Engin W) → mem e s.deleted ≡ true → mem e (h.on_read x s).deleted ≡ true
  pub writing :
      (x e : ℕ) (s : Engin W) → mem e s.deleted ≡ true → mem e (h.on_write x s).deleted ≡ true
  pub failing :
      (x e : ℕ) (s : Engin W) → mem e s.deleted ≡ true → mem e (h.on_error x s).deleted ≡ true

module _ {W : Type 0} (h : Handlers W) (keeps : KeepsDeleted h) where
  serve-keeps :
      (r : Ready) (e : ℕ) (s : Engin W)
      → mem e s.deleted ≡ true
      → mem e (serve h r s).deleted ≡ true
  unfolding serve
  serve-keeps r e s gone =
      let read = keeps.reading r.event e s gone in
      ground (
        arith,
        keeps.failing r.event e s gone,
        read,
        keeps.writing r.event e s gone,
        keeps.writing r.event e (h.on_read r.event s) read,
      )

  -- Once an event is in m_Delete, the rest of the round runs as if the kernel had not reported it:
  -- none of its functions is called any more, and the other events are handled as they would be.
  pub second_loop-without :
      (rs : List Ready) (e : ℕ) (s : Engin W)
      → mem e s.deleted ≡ true
      → second_loop h rs s ≡ second_loop h (without e rs) s
  unfolding second_loop without
  second_loop-without [] e s gone = refl
  second_loop-without (r ∷ rs) e s gone = elim (Bool-cases (r.event == e)) [
    | inl same ↦
        let at_r : mem r.event s.deleted ≡ true =
          subst (λ x. mem x s.deleted ≡ true) (sym ((==_iff r.event e).0 same)) gone in
        rw (at_r, second_loop, same, without) (second_loop-without rs e s gone)
    | inr other ↦ elim (Bool-cases (mem r.event s.deleted)) [
      | inl skip ↦
          rw (skip, second_loop, other, without)
            (rw (skip, second_loop) (second_loop-without rs e s gone))
      | inr here ↦
          rw (here, second_loop, other, without)
            (rw (here, second_loop)
              (second_loop-without rs e (serve h r s) (serve-keeps r e s gone)))
    ]
  ]
