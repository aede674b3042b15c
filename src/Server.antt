-- ===== src/Server.antt =====
-- Server.h and Server.cpp: CEngin, which keeps a pool of idle sessions, and takes new connections
-- while it has one and holds the lock that is shared with the other engines.
-- Sessions and descriptors are numbers. What accept returns, whether a session takes a descriptor
-- (CRtspSession::Handle), and what the timer, epoll and pthread calls return, are arguments. none is
-- a failed assert or a call of front on an empty list.
pub mod Life
pub mod Lock
pub mod Pool
pub mod Runs
mod Tests
use byron0416_mp.Event.{Epoll, register_priority, unregister}
use byron0416_mp.Event
use byron0416_mp.Prelude.{
  ℕ, zero, suc, ◌+◌, ◌-◌, Bool, true, false, List, [], ◌∷◌, ◌++◌, Option, none, some, leb,
  if◌then◌else◌, replicate,
}

-- One call of m_Listener.Accept: a descriptor, EAGAIN, or another error.
pub data Accepted : Type 0 where
  connection : ℕ → Accepted
  again refused : Accepted

-- m_Sessions, m_Free and m_Done; the descriptors that were closed, and which session took which; the
-- last arguments of SetTimer; m_Mutex; and the event engine, in which the listener is event 0.
pub record Engin (W : Type 0) : Type 0 where
  pub session_count : ℕ
  pub sessions : List ℕ
  pub free : ℕ
  pub done : ℕ
  pub closed : List ℕ
  pub handled : List (ℕ × ℕ)
  pub timer : ℕ × ℕ
  pub locked : Bool
  pub event : Event.Engin W

-- The constructor, and what Run does to the list of sessions: one after the other is created and
-- initialized; the flags say which Initialize succeeds.
unfoldable pub create_sessions : ℕ → List Bool → List ℕ → Bool × List ℕ
create_sessions id [] sessions = (true, sessions)
create_sessions id (good ∷ goods) sessions =
    let rest = create_sessions (id + 1) goods (sessions ++ (id ∷ [])) in
    if good then rest else (false, sessions)

unfoldable pub new_engin : {W : Type 0} → Event.Engin W → Engin W
new_engin event = record {
  session_count = 2;
  sessions = [];
  free = 2;
  done = 0;
  closed = [];
  handled = [];
  timer = (0, 0);
  locked = false;
  event = event;
}

-- Run. The flags are the results of the sessions' Initialize, of m_Engin.Initialize, of Attach and of
-- SetTimer.
unfoldable pub run : {W : Type 0} → Bool × Bool → Bool → Bool → Bool → Engin W → Bool × Engin W
run (first, second) started attached timed e =
    let r = create_sessions 0 (first ∷ second ∷ []) e.sessions in
    let e' = record e { sessions = r.1 } in
    if r.0
    then (if started
        then (if attached then (timed, record e' { timer = (50, 5) }) else (false, e'))
        else (false, e'))
    else (false, e')

-- The loop around accept: the free count that is left, and the descriptors.
unfoldable pub accept_loop : ℕ → List Accepted → ℕ × List ℕ
accept_loop zero backlog = (zero, [])
accept_loop (suc free) (connection fd ∷ backlog) =
    let r = accept_loop free backlog in (r.0, fd ∷ r.1)
accept_loop (suc free) (again ∷ backlog) = (suc free, [])
accept_loop (suc free) (refused ∷ backlog) = (suc free, [])
accept_loop (suc free) [] = (suc free, [])

-- One descriptor for the session that stood in front of the others.
unfoldable pub hand_one : {W : Type 0} → (ℕ → ℕ → Bool) → ℕ → ℕ → List ℕ → Engin W → Engin W
hand_one handle fd session rest e =
    if handle session fd
    then record e {
      sessions = rest;
      done = e.done + 1;
      handled = e.handled ++ ((session, fd) ∷ []);
    }
    else record e {
      sessions = rest ++ (session ∷ []);
      free = e.free + 1;
      closed = e.closed ++ (fd ∷ []);
    }

-- The loop over the descriptors.
unfoldable pub hand_out : {W : Type 0} → (ℕ → ℕ → Bool) → List ℕ → Engin W → Option (Engin W)
hand_out handle [] e = some e
hand_out handle (fd ∷ fds) e = elim e.sessions [
  | [] ↦ none
  | session ∷ rest ↦ hand_out handle fds (hand_one handle fd session rest e)
]

module _ (ep : Epoll) where
  -- OnRead.
  unfoldable pub on_read : (ℕ → ℕ → Bool) → List Accepted → Engin ep.World → Option (Engin ep.World)
  on_read handle backlog e =
      let r = accept_loop e.free backlog in
      hand_out handle r.1 (record e {
        free = r.0;
        locked = false;
        timer = (40, 5);
        event = (unregister ep 0 e.event).1;
      })

  -- OnTimer; whether SetTimer(0, 0) succeeds is only logged.
  unfoldable pub on_timer : Engin ep.World → Engin ep.World
  on_timer e =
      let r = register_priority ep 0 e.event in
      if leb 1 e.free
      then (if e.locked
          then e
          else (if r.0
              then record e { locked = true; event = r.1; timer = (0, 0) }
              else record e { locked = false; event = r.1 }))
      else e

-- OnSubEvent, when a session is done.
unfoldable pub on_sub_event : {W : Type 0} → ℕ → Engin W → Option (Engin W)
on_sub_event session e =
    let e' = record e { sessions = e.sessions ++ (session ∷ []); free = e.free + 1 } in
    if leb e'.free e.session_count then some e' else none
