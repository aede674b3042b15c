-- ===== src/Server/Lock/Tests.antt =====
-- Runs of two engines that share the lock.
use byron0416_mp.Prelude.{ℕ, ◌≡◌, refl, Bool, true, false, List, [], ◌∷◌, none, some}
use byron0416_mp.Server.Lock.{
  Pc, Input, timer_fires, readable, accepted_one, result, returned, Move, move, move_at, on_event,
  on_accept, on_hand, on_result, on_statement, System, pick, Reach, start, later,
}
use byron0416_mp.Server.Lock.Exclusion.{unlocks, Reach-exclusive}
use byron0416_mp.Server.Lock.Moves.{holds_at}

record Run (deletes : Bool) : Type 0 where
  last : System
  reach : Reach deletes last

next :
    {deletes : Bool} (r : Run deletes) (i : ℕ) (input : Input) (m : Move)
    → move deletes i input r.last.owner (r.last.engins i) ≡ m
    → Run deletes
next r i input none e = r
next r i input (some (owner, l)) e = record {
  last = _;
  reach = later r.reach (pick i input owner l e);
}

turn : {deletes : Bool} → Run deletes → ℕ × Input → Run deletes
unfolding next
turn r (i, input) = next r i input _ refl

turns : {deletes : Bool} → List (ℕ × Input) → Run deletes → Run deletes
unfolding turn
turns [] r = r
turns (m ∷ ms) r = turns ms (turn r m)

abbrev first : {deletes : Bool} → Run deletes
first = record { last = _; reach = start }

abbrev takes_lock : ℕ → List (ℕ × Input) → List (ℕ × Input)
takes_lock i ms =
    (i, timer_fires) ∷ (i, result true) ∷ (i, result true) ∷ (i, result true) ∷ (i, readable) ∷ ms

abbrev one_accepts : Run true
one_accepts = turns (takes_lock 0 ((0, accepted_one) ∷ [])) first

one_accepts-last :
    (one_accepts.last.owner ≡ some 0) × ((one_accepts.last.engins 0).pc ≡ Pc.accepting)
unfolding turns move_at on_event on_accept on_result on_statement
one_accepts-last = (refl, refl)

abbrev ended : System
ended = one_accepts.last

Reach-exclusive_example :
    ((i j : ℕ)
      → holds_at (ended.engins i).pc (ended.engins i).added ≡ true
      → holds_at (ended.engins j).pc (ended.engins j).added ≡ true
      → i ≡ j)
    × ((i : ℕ) → unlocks (ended.engins i).pc ≡ true → ended.owner ≡ some i)
    × ((i : ℕ) → ended.owner ≡ some i → holds_at (ended.engins i).pc (ended.engins i).added ≡ true)
    × ((i : ℕ)
        → ended.owner ≡ some i
        → (ended.engins i).pc ≡ Pc.polling
        → ((ended.engins i).added ≡ true) × ((ended.engins i).timer ≡ false))
Reach-exclusive_example = Reach-exclusive ended one_accepts.reach

-- Engine 0 accepts while engine 1 does, behind an Unregister that failed.
abbrev two_accept : Run false
two_accept =
    turns
      (takes_lock 0 (
        (0, result true)
        ∷ (0, result true)
        ∷ (0, result true)
        ∷ (0, result false)
        ∷ (0, returned 0)
        ∷ takes_lock 1 ((0, readable) ∷ [])))
      first

two_accept-last :
    ((two_accept.last.engins 0).pc ≡ Pc.accepting) × ((two_accept.last.engins 1).pc ≡ Pc.accepting)
unfolding turns move_at on_event on_accept on_result on_statement on_hand
two_accept-last = (refl, refl)
