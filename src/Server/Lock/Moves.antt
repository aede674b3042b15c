-- ===== src/Server/Lock/Moves.antt =====
-- Server.cpp: what one statement does to m_Mutex and to its owner.
use byron0416_mp.Prelude.{
  ℕ, ◌≡◌, refl, Bool, true, false, Option, none, some, leb, ◌==◌, arith, if◌then◌else◌, Bool-cases,
  inl, inr,
}
use byron0416_mp.Server.Lock.{
  Pc, Local, Input, timer_fires, readable, session_done, accepted_one, result, returned, Move,
  move_at, on_event, on_accept, on_hand, on_result, on_statement,
}

-- Between TryLock and Unlock: in these statements, and in the event loop while the listener is
-- registered.
abbrev pub holds_at : Pc → Bool → Bool
holds_at Pc.polling added = added
holds_at Pc.trying added = false
holds_at Pc.registering added = true
holds_at Pc.stopping_timer added = true
holds_at Pc.giving_up added = true
holds_at Pc.accepting added = true
holds_at Pc.unlocking added = true
holds_at Pc.arming added = false
holds_at Pc.unregistering added = false
holds_at Pc.handing added = false

-- Whether the listener is registered and whether the timer runs fit the statement.
abbrev pub Fits : Pc → Local → Type 0
Fits Pc.polling l = l.added ≡ true → l.timer ≡ false
Fits Pc.trying l = l.added ≡ false
Fits Pc.registering l = l.added ≡ false
Fits Pc.stopping_timer l = l.added ≡ true
Fits Pc.giving_up l = l.added ≡ false
Fits Pc.accepting l = l.added ≡ true
Fits Pc.unlocking l = l.added ≡ true
Fits Pc.arming l = l.added ≡ true
Fits Pc.unregistering l = l.added ≡ true
Fits Pc.handing l = l.added ≡ false

-- An engine at a statement holds the mutex exactly if it is the owner.
pub record IsHeld (i : ℕ) (pc : Pc) (owner : Option ℕ) (l : Local) : Type 0 where
  pub fits : Fits pc l
  pub held : holds_at pc l.added ≡ true → owner ≡ some i
  pub holds : owner ≡ some i → holds_at pc l.added ≡ true

-- What a move of engine i leaves: the engine still fits the owner, and no other has become or ceased
-- to be the owner.
pub record Passes (i : ℕ) (owner owner' : Option ℕ) (l : Local) : Type 0 where
  pub own : IsHeld i l.pc owner' l
  pub from : (j : ℕ) → (i == j) ≡ false → owner' ≡ some j → owner ≡ some j
  pub to : (j : ℕ) → (i == j) ≡ false → owner ≡ some j → owner' ≡ some j

abbrev pub After : ℕ → Option ℕ → Move → Type 0
After i owner none = Unit
After i owner (some (owner', l)) = Passes i owner owner' l

if-After :
    (i : ℕ) (owner : Option ℕ) (b : Bool) (m : Move)
    → (b ≡ true → After i owner m)
    → After i owner (if b then m else none)
if-After i owner true m h = h refl
if-After i owner false m h = tt

-- The owner stays.
stays : (i : ℕ) (owner : Option ℕ) (l : Local) → IsHeld i l.pc owner l → Passes i owner owner l
stays i owner l h = record { own = h; from = λ j n e. e; to = λ j n e. e }

on_event-After :
    (i : ℕ) (input : Input) (owner : Option ℕ) (l : Local)
    → IsHeld i Pc.polling owner l
    → After i owner (on_event input owner l)
unfolding on_event
on_event-After i timer_fires owner l h = if-After i owner l.timer _ (λ on.
    elim (Bool-cases (leb 1 l.free)) [
      | inl some_free ↦ rw some_free (
          stays i owner _ (record {
            fits = ground (arith, h.fits);
            held = λ e. absurd (cc);
            holds = λ e. absurd (ground (arith, h.holds e, h.fits));
          }))
      | inr full ↦
          rw full (stays i owner _ (record { fits = h.fits; held = h.held; holds = h.holds }))
    ])
on_event-After i readable owner l h =
    if-After i owner l.added _
      (λ on. stays i owner _ (record { fits = on; held = λ e. h.held on; holds = λ e. refl }))
on_event-After i session_done owner l h =
    stays i owner _ (record { fits = h.fits; held = h.held; holds = h.holds })
on_event-After i accepted_one owner l h = tt
on_event-After i (result b) owner l h = tt
on_event-After i (returned n) owner l h = tt

on_accept-After :
    (i : ℕ) (input : Input) (owner : Option ℕ) (l : Local)
    → IsHeld i Pc.accepting owner l
    → After i owner (on_accept input owner l)
unfolding on_accept
on_accept-After i accepted_one owner l h =
    if-After i owner (leb 1 l.free) _
      (λ on. stays i owner _ (record { fits = h.fits; held = h.held; holds = h.holds }))
on_accept-After i (result b) owner l h =
    stays i owner _ (record { fits = h.fits; held = h.held; holds = h.holds })
on_accept-After i timer_fires owner l h = tt
on_accept-After i readable owner l h = tt
on_accept-After i session_done owner l h = tt
on_accept-After i (returned n) owner l h = tt

on_hand-After :
    (i : ℕ) (input : Input) (owner : Option ℕ) (l : Local)
    → IsHeld i Pc.handing owner l
    → After i owner (on_hand input owner l)
unfolding on_hand
on_hand-After i (returned n) owner l h = if-After i owner (leb n l.taken) _ (λ on.
    stays i owner _ (record {
      fits = λ e. absurd (cc (h.fits, e));
      held = λ e. absurd (cc (h.fits, e));
      holds = λ e. absurd (cc (h.holds e));
    }))
on_hand-After i timer_fires owner l h = tt
on_hand-After i readable owner l h = tt
on_hand-After i session_done owner l h = tt
on_hand-After i accepted_one owner l h = tt
on_hand-After i (result b) owner l h = tt

-- The owner gives the mutex up.
frees :
    (i : ℕ) (owner : Option ℕ) (l : Local)
    → owner ≡ some i
    → IsHeld i l.pc none l
    → Passes i owner none l
frees i owner l own h = record {
  own = h;
  from = λ j n e. absurd (cc);
  to = λ j n e. absurd (ground (arith, own, e, n));
}

on_result-After :
    (i : ℕ) (pc : Pc) (b : Bool) (owner : Option ℕ) (l : Local)
    → IsHeld i pc owner l
    → After i owner (on_result true i pc b owner l)
unfolding on_result
on_result-After i Pc.trying b none l h = record {
  own = record { fits = h.fits; held = λ e. refl; holds = λ e. refl };
  from = λ j n e. absurd (ground (arith, e, n));
  to = λ j n e. absurd (cc);
}
on_result-After i Pc.trying b (some j) l h = stays i (some j) _ (record {
  fits = λ e. absurd (cc (h.fits, e));
  held = λ e. absurd (cc (h.fits, e));
  holds = λ e. absurd (cc (h.holds e));
})
on_result-After i Pc.registering true owner l h =
    stays i owner _ (record { fits = refl; held = h.held; holds = h.holds })
on_result-After i Pc.registering false owner l h =
    stays i owner _ (record { fits = h.fits; held = h.held; holds = h.holds })
on_result-After i Pc.stopping_timer b owner l h =
    stays i owner _ (record { fits = λ e. refl; held = λ e. h.held refl; holds = λ e. h.fits })
on_result-After i Pc.giving_up b owner l h = frees i owner _ (h.held refl) (record {
  fits = λ e. absurd (cc (h.fits, e));
  held = λ e. absurd (cc (h.fits, e));
  holds = λ e. absurd (cc);
})
on_result-After i Pc.unlocking b owner l h =
    frees i owner _ (h.held refl)
      (record { fits = h.fits; held = λ e. absurd (cc); holds = λ e. absurd (cc) })
on_result-After i Pc.arming b owner l h =
    stays i owner _ (record { fits = h.fits; held = h.held; holds = h.holds })
on_result-After i Pc.unregistering b owner l h =
    stays i owner _ (record { fits = refl; held = h.held; holds = h.holds })
on_result-After i Pc.polling b owner l h = tt
on_result-After i Pc.accepting b owner l h = tt
on_result-After i Pc.handing b owner l h = tt

on_statement-After :
    (i : ℕ) (pc : Pc) (input : Input) (owner : Option ℕ) (l : Local)
    → IsHeld i pc owner l
    → After i owner (on_statement true i pc input owner l)
unfolding on_statement
on_statement-After i pc (result b) owner l h = on_result-After i pc b owner l h
on_statement-After i pc timer_fires owner l h = tt
on_statement-After i pc readable owner l h = tt
on_statement-After i pc session_done owner l h = tt
on_statement-After i pc accepted_one owner l h = tt
on_statement-After i pc (returned n) owner l h = tt

pub move_at-After :
    (i : ℕ) (pc : Pc) (input : Input) (owner : Option ℕ) (l : Local)
    → IsHeld i pc owner l
    → After i owner (move_at true i pc input owner l)
unfolding move_at
move_at-After i Pc.polling input owner l h = on_event-After i input owner l h
move_at-After i Pc.accepting input owner l h = on_accept-After i input owner l h
move_at-After i Pc.handing input owner l h = on_hand-After i input owner l h
move_at-After i Pc.trying input owner l h = on_statement-After i _ input owner l h
move_at-After i Pc.registering input owner l h = on_statement-After i _ input owner l h
move_at-After i Pc.stopping_timer input owner l h = on_statement-After i _ input owner l h
move_at-After i Pc.giving_up input owner l h = on_statement-After i _ input owner l h
move_at-After i Pc.unlocking input owner l h = on_statement-After i _ input owner l h
move_at-After i Pc.arming input owner l h = on_statement-After i _ input owner l h
move_at-After i Pc.unregistering input owner l h = on_statement-After i _ input owner l h
