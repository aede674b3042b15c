-- ===== src/Session/Stream.antt =====
-- RtspSession.cpp: how a session takes its connection, reads from it, writes to it and closes it.
-- What recv and send return is a list of results, one for each call; where the list ends, the call
-- finds nothing to do (EAGAIN).
pub mod Reading
pub mod Framing
pub mod Writing
use byron0416_mp.Error.{ErrorCode, e_ok, e_continue}
use byron0416_mp.Event.{Epoll, register_rd, unregister}
use byron0416_mp.Http.Request
use byron0416_mp.Http.Request.{Request}
use byron0416_mp.Player.{RtpPlayer}
use byron0416_mp.Prelude.{
  ℕ, zero, suc, ◌+◌, ◌-◌, Bool, true, false, List, [], ◌∷◌, ◌++◌, Option, none, some, drop, take,
  if◌then◌else◌, length, leb, ltb, ◌==◌, ◌&&◌, sub64, replicate,
}
use byron0416_mp.Rtcp
use byron0416_mp.Session.{Session, ReadMs, process_request, call_player}
use byron0416_mp.Session
use byron0416_mp.Text.{Text}

-- One call of recv: bytes, the end of the stream, EAGAIN, or another error.
pub data Received : Type 0 where
  bytes : Text → Received
  at_end idle broken : Received

-- One call of send: the kernel has room for so many bytes and takes no more than it is given (none is
-- EAGAIN), the peer is gone, or another error.
pub data Sending : Type 0 where
  room : ℕ → Sending
  gone failed : Sending

-- How a loop leaves the session: it waits for more, it has been closed, a fault, or no fuel.
pub data Progress (S : Type 0) : Type 0 where
  waits : S → Progress S
  closed : S → Progress S
  fault : Progress S
  stuck : Progress S

-- char BUF[1025], filled with zeros and then by recv.
abbrev pub buffer : Text → Text
buffer bs = bs ++ replicate (1025 - length bs) 0

module _ {W M L : Type 0} where
  -- What OnWrite has still to send: of the header, and where that is done, of the body.
  unfoldable pub next_part : Session W M L → Text
  next_part s =
      if ltb s.header_sended (length s.response.header)
      then drop s.header_sended s.response.header
      else drop s.body_sended s.body

  -- m_HeaderSended += len, or m_BodySended += len.
  unfoldable pub count_sent : ℕ → Session W M L → Session W M L
  count_sent n s =
      if ltb s.header_sended (length s.response.header)
      then record s { header_sended = s.header_sended + n }
      else record s { body_sended = s.body_sended + n }

module _ (ep : Epoll) (event : ℕ) (mp4_ops live_ops : RtpPlayer) (read_ms : ReadMs) where
  abbrev S : Type 0
  S = Session ep.World mp4_ops.State live_ops.State

  -- Handle. Attach fails an assert when there is a descriptor already.
  unfoldable pub handle : ℕ → S → Option S
  handle fd s = elim s.fd [
    | some old ↦ none
    | none ↦ some (record s { fd = some fd; event = (register_rd ep event s.event).1 })
  ]

  -- Close and SendError.
  unfoldable pub after_teardown : Option (Unit {0} × S) → Progress S
  after_teardown none = fault
  after_teardown (some (_, s)) = closed (record s { returned = true })

  unfoldable pub close : S → Progress S
  close s = after_teardown (
      call_player ep event mp4_ops live_ops read_ms (λ p t. some (tt, p.teardown t))
        (record s { event = (unregister ep event s.event).1; fd = none }))

  -- A round of the loop in OnRead with m_Type 0, 1 and 2, which goes on with again.
  unfoldable pub first_byte : (S → Text → ℕ → Progress S) → S → Text → ℕ → Progress S
  first_byte again s [] l = fault
  first_byte again s (c ∷ cs) l =
      if c == b'$'
      then again (record s { type = 2 }) (drop 1 cs) (sub64 l 2)
      else again (record s { type = 1 }) (c ∷ cs) l

  -- What follows from the code of m_Request.Parse, once the buffer has moved on.
  unfoldable pub after_request : (S → Text → ℕ → Progress S) → ErrorCode → S → Text → ℕ → Progress S
  after_request again e_ok s buf l =
      elim (process_request ep event mp4_ops live_ops read_ms (record s { type = 0 })) [
        | none ↦ fault
        | some s' ↦ again s' buf l
      ]
  after_request again e_continue s buf l = waits s
  after_request again code s buf l = close s

  unfoldable pub request_bytes : (S → Text → ℕ → Progress S) → S → Text → ℕ → Progress S
  request_bytes again s [] l = fault
  request_bytes again s (c ∷ cs) l =
      let p = Request.parse s.request (c ∷ cs) l in
      after_request again p.code (record s { request = p.request }) (drop p.len (c ∷ cs))
        (sub64 l p.len)

  unfoldable pub after_frame : (S → Text → ℕ → Progress S) → ErrorCode → S → Text → ℕ → Progress S
  after_frame again e_ok s buf l = again (record s { type = 0 }) buf l
  after_frame again e_continue s buf l = waits s
  after_frame again code s buf l = close s

  -- m_Rtcp.Parse is given l, which it sets to what it used; n is what l was. At the start of a frame
  -- it reads two bytes.
  unfoldable pub frame_bytes : ℕ → (S → Text → ℕ → Progress S) → S → Text → ℕ → Progress S
  frame_bytes fuel again s buf n =
      if (s.rtcp_left == 0) && ltb (length buf) 2
      then fault
      else elim (Rtcp.parse fuel s.rtcp_left buf n) [
        | none ↦ stuck
        | some p ↦
            after_frame again p.code (record s { rtcp_left = p.left }) (drop n buf) (sub64 p.len n)
      ]

  unfoldable pub round : ℕ → (S → Text → ℕ → Progress S) → S → Text → ℕ → Progress S
  round fuel again s buf l =
      if s.type == 0
      then first_byte again s buf l
      else if s.type == 1
      then request_bytes again s buf l
      else if s.type == 2
      then frame_bytes fuel again s buf l
      else again s buf l

  -- while(l > 0)
  unfoldable pub read_loop : ℕ → S → Text → ℕ → Progress S
  read_loop zero s buf l = stuck
  read_loop (suc fuel) s buf zero = waits s
  read_loop (suc fuel) s buf (suc l) =
      round (suc (suc fuel)) (λ t b m. read_loop fuel t b m) s buf (suc l)

  -- OnRead.
  unfoldable pub on_read : ℕ → List Received → S → Progress S
  on_read fuel [] s = waits s
  on_read fuel (idle ∷ rs) s = waits s
  on_read fuel (at_end ∷ rs) s = close s
  on_read fuel (broken ∷ rs) s = close s
  on_read fuel (bytes bs ∷ rs) s = elim (read_loop fuel s (buffer bs) (length bs)) [
    | waits s' ↦ on_read fuel rs s'
    | closed s' ↦ closed s'
    | fault ↦ fault
    | stuck ↦ stuck
  ]

  -- A round of the loop in OnWrite, with the bytes that it hands to the connection; the part is what
  -- it has still to send, and rest goes on.
  unfoldable pub write_round : (S → Text × Progress S) → Sending → Text → S → Text × Progress S
  write_round rest r [] s = ([], waits (record s { event = (register_rd ep event s.event).1 }))
  write_round rest gone (c ∷ cs) s = ([], close s)
  write_round rest failed (c ∷ cs) s = ([], close s)
  write_round rest (room zero) (c ∷ cs) s = ([], waits s)
  write_round rest (room (suc n)) (c ∷ cs) s =
      let sent = take (suc n) (c ∷ cs) in
      let more = rest (count_sent (length sent) s) in (sent ++ more.0, more.1)

  unfoldable pub on_write : List Sending → S → Text × Progress S
  on_write [] s = write_round (λ t. ([], waits t)) (room 0) (next_part s) s
  on_write (r ∷ rs) s = write_round (on_write rs) r (next_part s) s

  unfoldable pub on_error : S → Progress S
  on_error s = close s
