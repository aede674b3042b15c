-- ===== src/Server/Lock.antt =====
-- Server.cpp, several CEngin that share m_Mutex: OnTimer and OnRead as the statements that touch the
-- mutex, the registration of the listener, the timer and the free count, run by one thread for each
-- engine in any order. The event loop of an engine calls one handler at a time (Event.cpp, Thread).
pub mod Exclusion
pub mod Moves
mod Tests
use byron0416_mp.Prelude.{
  ℕ, ◌+◌, ◌-◌, ◌≡◌, Bool, true, false, ◌||◌, Option, none, some, leb, ◌==◌, if◌then◌else◌,
}

-- The statement that a thread runs next; in polling it is in the event loop.
pub data Pc : Type 0 where
  polling trying registering stopping_timer giving_up : Pc
  accepting unlocking arming unregistering handing : Pc

-- An engine: m_Free, the descriptors that OnRead has taken, whether the listener is registered, and
-- whether the timer runs.
pub record Local : Type 0 where
  pub pc : Pc
  pub free : ℕ
  pub taken : ℕ
  pub added : Bool
  pub timer : Bool

-- An engine behind Run.
abbrev pub started : Local
started = record { pc = Pc.polling; free = 2; taken = 0; added = false; timer = true }

-- What happens to an engine next: an event in its loop, or the result of the call that its statement
-- makes. accepted_one and returned count a descriptor that accept gave, and sessions that Handle
-- refused.
pub data Input : Type 0 where
  timer_fires readable session_done accepted_one : Input
  result : Bool → Input
  returned : ℕ → Input

-- The owner of the mutex, and the engine.
abbrev pub Move : Type 0
Move = Option (Option ℕ × Local)

abbrev at_pc : Pc → Local → Local
at_pc pc l = record l { pc = pc }

-- In the event loop.
unfoldable pub on_event : Input → Option ℕ → Local → Move
on_event timer_fires owner l =
    if l.timer then some (owner, at_pc (if leb 1 l.free then Pc.trying else Pc.polling) l) else none
on_event readable owner l =
    if l.added then some (owner, record l { pc = Pc.accepting; taken = 0 }) else none
on_event session_done owner l = some (owner, record l { pc = Pc.polling; free = l.free + 1 })
on_event accepted_one owner l = none
on_event (result b) owner l = none
on_event (returned n) owner l = none

-- The loop of OnRead: another descriptor while there are free sessions, and its end.
unfoldable pub on_accept : Input → Option ℕ → Local → Move
on_accept accepted_one owner l =
    if leb 1 l.free
    then some (owner, record l { pc = Pc.accepting; free = l.free - 1; taken = l.taken + 1 })
    else none
on_accept (result b) owner l = some (owner, at_pc Pc.unlocking l)
on_accept timer_fires owner l = none
on_accept readable owner l = none
on_accept session_done owner l = none
on_accept (returned n) owner l = none

-- The loop of OnRead over what it has taken.
unfoldable pub on_hand : Input → Option ℕ → Local → Move
on_hand (returned n) owner l =
    if leb n l.taken then some (owner, record l { pc = Pc.polling; free = l.free + n }) else none
on_hand timer_fires owner l = none
on_hand readable owner l = none
on_hand session_done owner l = none
on_hand accepted_one owner l = none
on_hand (result b) owner l = none

-- A statement whose call has the given result. Where deletes holds, Unregister succeeds.
unfoldable pub on_result : Bool → ℕ → Pc → Bool → Option ℕ → Local → Move
on_result deletes i Pc.trying b none l = some (some i, at_pc Pc.registering l)
on_result deletes i Pc.trying b (some j) l = some (some j, at_pc Pc.polling l)
on_result deletes i Pc.registering true owner l =
    some (owner, record l { pc = Pc.stopping_timer; added = true })
on_result deletes i Pc.registering false owner l = some (owner, at_pc Pc.giving_up l)
on_result deletes i Pc.stopping_timer b owner l =
    some (owner, record l { pc = Pc.polling; timer = false })
on_result deletes i Pc.giving_up b owner l = some (none, at_pc Pc.polling l)
on_result deletes i Pc.unlocking b owner l = some (none, at_pc Pc.arming l)
on_result deletes i Pc.arming b owner l =
    some (owner, record l { pc = Pc.unregistering; timer = b || l.timer })
on_result deletes i Pc.unregistering b owner l =
    some (owner, record l { pc = Pc.handing; added = if deletes || b then false else l.added })
on_result deletes i Pc.polling b owner l = none
on_result deletes i Pc.accepting b owner l = none
on_result deletes i Pc.handing b owner l = none

unfoldable pub on_statement : Bool → ℕ → Pc → Input → Option ℕ → Local → Move
on_statement deletes i pc (result b) owner l = on_result deletes i pc b owner l
on_statement deletes i pc timer_fires owner l = none
on_statement deletes i pc readable owner l = none
on_statement deletes i pc session_done owner l = none
on_statement deletes i pc accepted_one owner l = none
on_statement deletes i pc (returned n) owner l = none

-- One step of the thread of engine i; none where the input is not one that its statement waits for.
unfoldable pub move_at : Bool → ℕ → Pc → Input → Option ℕ → Local → Move
move_at deletes i Pc.polling input owner l = on_event input owner l
move_at deletes i Pc.accepting input owner l = on_accept input owner l
move_at deletes i Pc.handing input owner l = on_hand input owner l
move_at deletes i pc input owner l = on_statement deletes i pc input owner l

abbrev pub move : Bool → ℕ → Input → Option ℕ → Local → Move
move deletes i input owner l = move_at deletes i l.pc input owner l

-- The engines, and which of them owns the mutex.
pub record System : Type 0 where
  pub owner : Option ℕ
  pub engins : ℕ → Local

abbrev pub update : (ℕ → Local) → ℕ → Local → ℕ → Local
update f i l j = if i == j then l else f j

pub data Step (deletes : Bool) (s : System) : System → Type 0 where
  pick :
      (i : ℕ) (input : Input) (owner : Option ℕ) (l : Local)
      → move deletes i input s.owner (s.engins i) ≡ some (owner, l)
      → Step deletes s (record { owner = owner; engins = update s.engins i l })

-- The states that the engines come to.
pub data Reach (deletes : Bool) : System → Type 0 where
  start : Reach deletes (record { owner = none; engins = λ i. started })
  later : {s t : System} → Reach deletes s → Step deletes s t → Reach deletes t
