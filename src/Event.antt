-- ===== src/Event.antt =====
-- core/Event.h and core/Event.cpp: the registration of events (CEvent) with the engine, and the
-- engine itself (CEventEngin) with its round over the events that are ready.
-- An event is named by a number. epoll_ctl is a parameter; the round is given what epoll_wait
-- returned, and the virtual functions of the events. none is a failed assert.
pub mod Life
pub mod Mirror
pub mod Round
pub mod Timer
mod Tests
use byron0416_mp.Prelude.{
  ℕ, Bool, true, false, not, ◌&&◌, ◌||◌, List, [], ◌∷◌, ◌++◌, Option, none, some, ◌==◌,
  if◌then◌else◌,
}

-- The bits of EVENT_TYPE that Add and Mod hand to the kernel.
pub record Interest : Type 0 where
  pub reads : Bool
  pub writes : Bool
  pub edge : Bool

-- epoll_ctl; true is the result 0.
pub record Epoll : Type 1 where
  pub World : Type 0
  pub ctl_add : ℕ → Interest → World → Bool × World
  pub ctl_mod : ℕ → Interest → World → Bool × World
  pub ctl_del : ℕ → World → Bool × World

-- m_Priority (none for NULL), m_Delete and m_Doing of the engine, and for each event whether its
-- m_Engin is set, and its m_Added.
pub record Engin (W : Type 0) : Type 0 where
  pub world : W
  pub priority : Option ℕ
  pub deleted : List ℕ
  pub doing : Bool
  pub has_engin : ℕ → Bool
  pub added : ℕ → Bool

abbrev pub set_flag : (ℕ → Bool) → ℕ → Bool → ℕ → Bool
set_flag f e b x = if x == e then b else f x

module _ (ep : Epoll) where
  abbrev S : Type 0
  S = Engin ep.World

  unfoldable pub add : ℕ → Interest → S → Bool × S
  add e i s = let r = ep.ctl_add e i s.world in (r.0, record s { world = r.1 })

  unfoldable pub modify : ℕ → Interest → S → Bool × S
  modify e i s = let r = ep.ctl_mod e i s.world in (r.0, record s { world = r.1 })

  unfoldable pub del : ℕ → S → Bool × S
  del e s =
      let r = ep.ctl_del e s.world in
      (
        r.0,
        record s { world = r.1; deleted = if s.doing then s.deleted ++ (e ∷ []) else s.deleted },
      )

  unfoldable pub add_priority : ℕ → S → Bool × S
  add_priority e s =
      let r = add e (record { reads = true; writes = false; edge = false }) s in
      if r.0 then (true, record r.1 { priority = some e }) else (false, r.1)

  -- m_Added = added where the call succeeded.
  abbrev mark : ℕ → Bool → Bool × S → Bool × S
  mark e b r = if r.0 then (true, record r.1 { added = set_flag r.1.added e b }) else (false, r.1)

  unfoldable pub unregister : ℕ → S → Bool × S
  unregister e s =
      if s.added e
      then (if s.has_engin e then mark e false (del e s) else (false, s))
      else (true, s)

  unfoldable pub register : ℕ → Bool → Bool → S → Bool × S
  register e reads writes s =
      let i : Interest = record { reads = reads; writes = writes; edge = true } in
      if s.has_engin e
      then (if s.added e then modify e i s else mark e true (add e i s))
      else (false, s)

  unfoldable pub register_rd : ℕ → S → Bool × S
  register_rd e s = register e true false s

  unfoldable pub register_wr : ℕ → S → Bool × S
  register_wr e s = register e false true s

  unfoldable pub register_rw : ℕ → S → Bool × S
  register_rw e s = register e true true s

  unfoldable pub register_priority : ℕ → S → Bool × S
  register_priority e s =
      if s.has_engin e
      then (let r = unregister e s in
          if r.0 then mark e true (add_priority e r.1) else (false, r.1))
      else (false, s)

-- What epoll_wait says of an event.
pub record Ready : Type 0 where
  pub event : ℕ
  pub readable : Bool
  pub writable : Bool
  pub error : Bool
  pub hang_up : Bool

-- The virtual functions of the events.
pub record Handlers (W : Type 0) : Type 0 where
  pub on_read : ℕ → Engin W → Engin W
  pub on_write : ℕ → Engin W → Engin W
  pub on_error : ℕ → Engin W → Engin W

unfoldable pub mem : ℕ → List ℕ → Bool
mem x [] = false
mem x (y ∷ ys) = if x == y then true else mem x ys

-- events == EPOLLIN
abbrev pub only_readable : Ready → Bool
only_readable r = r.readable && (not r.writable && (not r.error && not r.hang_up))

abbrev pub is_priority : Option ℕ → ℕ → Bool
is_priority none e = false
is_priority (some p) e = p == e

module _ {W : Type 0} (h : Handlers W) where
  -- The first loop, which handles the priority event; behind it stand the events that the second
  -- loop goes over, which skips the one that the first stopped at.
  unfoldable pub first_loop : List Ready → Engin W → Option (Engin W × List Ready)
  first_loop [] s = some (s, [])
  first_loop (r ∷ rs) s =
      let rest = first_loop rs s in
      if is_priority s.priority r.event
      then (if only_readable r then some (h.on_read r.event s, rs) else none)
      else elim rest [ none ↦ none | some q ↦ some (q.0, r ∷ q.1) ]

  -- The body of the second loop, for an event that is not in m_Delete.
  unfoldable pub serve : Ready → Engin W → Engin W
  serve r s =
      if r.error || r.hang_up
      then h.on_error r.event s
      else (let t = if r.readable then h.on_read r.event s else s in
          if r.writable then h.on_write r.event t else t)

  unfoldable pub second_loop : List Ready → Engin W → Engin W
  second_loop [] s = s
  second_loop (r ∷ rs) s =
      let t = if mem r.event s.deleted then s else serve r s in second_loop rs t

  -- Thread, behind epoll_wait.
  unfoldable pub thread : List Ready → Engin W → Option (Engin W)
  thread rs s = elim (first_loop rs (record s { doing = true })) [
    | none ↦ none
    | some q ↦ some (record (second_loop q.1 q.0) { deleted = []; doing = false })
  ]
