-- ===== src/Session.antt =====
-- RtspSession.h and RtspSession.cpp: CRtspSession, which answers the requests of one connection and
-- drives a player. Here is its state and how it handles a request; the reading and the writing of the
-- connection are in Stream. none is a fault: m_Player is used before it is set, a number is used
-- before it is set, or substr is called behind the end.
pub mod Stream
pub mod Answers
pub mod Handlers
mod Tests
use byron0416_mp.Error.{ErrorCode, e_ok, e_notfound, e_unsupportedtransport, e_error}
use byron0416_mp.Event.{Epoll, register_wr}
use byron0416_mp.Event
use byron0416_mp.Http.Request.{Request, empty_request, get_field}
use byron0416_mp.Http.Response.{Response, empty_response, add_field, respond}
use byron0416_mp.Player.{RtpPlayer}
use byron0416_mp.Prelude.{
  ℕ, ◌+◌, Bool, true, false, List, [], ◌∷◌, Option, none, some, add64, drop, if◌then◌else◌, length,
  ltb,
}
use byron0416_mp.Text.{Text, text, text_eq, find_text}
use byron0416_mp.Text.Numbers.{decimal, hexadecimal, read_number}

-- m_Player: not set by the constructor, or the address of one of the two players.
pub data Pointer : Type 0 where
  wild mp4 live : Pointer

-- fd is m_Connect's, none for -1; next_id is the static m_Session; rtcp_left is m_Rtcp's m_Len;
-- returned is whether ReturnEvent has been called. The request, the response and the flags are named
-- as in the source.
pub record Session (W M L : Type 0) : Type 0 where
  pub fd : Option ℕ
  pub request : Request
  pub response : Response
  pub rtcp_left : ℕ
  pub mp4_player : M
  pub live_player : L
  pub player : Pointer
  pub pause : Bool
  pub type : ℕ
  pub header_sended : ℕ
  pub body : Text
  pub body_sended : ℕ
  pub next_id : ℕ
  pub returned : Bool
  pub event : Event.Engin W

-- What the standard library makes of a text behind npt=: the number of milliseconds, or none where
-- it leaves the float as it was, which OnPlay has not initialized.
abbrev pub ReadMs : Type 0
ReadMs = Text → Option ℕ

module _ {W M L : Type 0} where
  -- m_Response.AddField.
  abbrev pub put : Text → Text → Session W M L → Session W M L
  put name value s = record s { response = add_field s.response name value }

  -- m_Request.GetField.
  abbrev pub field : Session W M L → Text → Text
  field s name = (get_field s.request name).1

  -- GetField and AddField of the same name.
  abbrev pub echo : Text → Session W M L → Session W M L
  echo name s = put name (field s name) s

  -- ProcessRequest up to the tests of the method.
  unfoldable pub begin_response : Session W M L → Session W M L
  begin_response s = put (text "Server") (text "SS") (
      put (text "Content-Length") (text "0") (
        echo (text "CSeq")
          (record s { response = empty_response; header_sended = 0; body = []; body_sended = 0 })))

  -- The session that the request names, or a new one by GetSessionID.
  unfoldable pub put_session : Text → Session W M L → Session W M L
  put_session [] s =
      let id = add64 s.next_id 1 in
      put (text "Session") (hexadecimal id) (record s { next_id = id })
  put_session (c ∷ cs) s = put (text "Session") (c ∷ cs) s

  unfoldable pub put_range : Text → Session W M L → Session W M L
  put_range [] s = s
  put_range (c ∷ cs) s = put (text "Range") (c ∷ cs) s

  unfoldable pub put_transport : ErrorCode → Session W M L → Session W M L
  put_transport e_ok s = echo (text "Transport") s
  put_transport _ s = s

-- The number behind a key; the outer none stands for a key that is not there.
unfoldable pub number_behind : Text → Text → Option (Option ℕ)
number_behind key s = elim (find_text key s) [
  | none ↦ none
  | some pos ↦ some (read_number (drop (pos + length key) s))
]

module _ (ep : Epoll) (event : ℕ) (mp4_ops live_ops : RtpPlayer) (read_ms : ReadMs) where
  abbrev pub S : Type 0
  S = Session ep.World mp4_ops.State live_ops.State

  -- A call through m_Player.
  unfoldable pub call_player :
      {A : Type 0} → ((p : RtpPlayer) → p.State → Option (A × p.State)) → S → Option (A × S)
  call_player f s = elim s.player [
    | wild ↦ none
    | mp4 ↦ elim (f mp4_ops s.mp4_player) [
      | none ↦ none
      | some (a, p) ↦ some (a, record s { mp4_player = p })
    ]
    | live ↦ elim (f live_ops s.live_player) [
      | none ↦ none
      | some (a, p) ↦ some (a, record s { live_player = p })
    ]
  ]

  -- m_Body = m_Player->GetSdp().
  unfoldable pub describe_body : Pointer → S → Text
  describe_body wild s = []
  describe_body mp4 s = mp4_ops.get_sdp s.mp4_player
  describe_body live s = live_ops.get_sdp s.live_player

  -- OnDescribe, once a player has been set up.
  unfoldable pub choose : Pointer → S → Option (ErrorCode × S)
  choose p s = some (e_ok, record s { player = p; body = describe_body p s })

  unfoldable pub on_describe : S → Option (ErrorCode × S)
  on_describe s = elim (live_ops.setup s.request.file s.live_player) [
    | none ↦ none
    | some (true, l) ↦ choose live (record s { live_player = l })
    | some (false, l) ↦
        let s' = record s { live_player = l } in
        elim (mp4_ops.setup s.request.file s.mp4_player) [
          | none ↦ none
          | some (true, m) ↦ choose mp4 (record s' { mp4_player = m })
          | some (false, m) ↦ some (e_notfound, record s' { mp4_player = m })
        ]
  ]

  -- OnSetup. The call of substr on the track has no effect, since its result is dropped.
  unfoldable pub on_setup : S → Option (ErrorCode × S)
  on_setup s = elim (number_behind (text "trackID=") s.request.file) [
    | none ↦ some (e_unsupportedtransport, s)
    | some id ↦ elim (number_behind (text "interleaved=") (field s (text "Transport"))) [
      | none ↦ some (e_unsupportedtransport, s)
      | some none ↦ none
      | some (some interleaved) ↦ elim id [
        | none ↦ none
        | some i ↦ elim (call_player (λ p. p.set_interleaved i interleaved) s) [
          | none ↦ none
          | some (done, s') ↦ some (e_ok, s')
        ]
      ]
    ]
  ]

  -- The float that has been read; one that was not read is a fault.
  unfoldable pub at_ms : S → Option ℕ → Option (ℕ × S)
  at_ms s none = none
  at_ms s (some ms) = some (ms, s)

  -- The position that OnPlay seeks to: value.substr(value.find("npt=")+4), where npos+4 is 3.
  unfoldable pub play_pos : Text → S → Option (ℕ × S)
  play_pos [] s = call_player (λ p t. some (p.current_pos t, t)) s
  play_pos (c ∷ cs) s = elim (find_text (text "npt=") (c ∷ cs)) [
    | some i ↦ at_ms s (read_ms (drop (i + 4) (c ∷ cs)))
    | none ↦ if ltb (length (c ∷ cs)) 3 then none else at_ms s (read_ms (drop 3 (c ∷ cs)))
  ]

  -- The call of Play. GetFd is m_Connect's descriptor.
  unfoldable pub playing : S → Option (ErrorCode × S)
  playing s = elim (call_player (λ p. p.play s.fd) s) [
    | none ↦ none
    | some (true, s') ↦ some (e_ok, s')
    | some (false, s') ↦ some (e_error, s')
  ]

  unfoldable pub on_play : S → Option (ErrorCode × S)
  on_play s = elim (play_pos (field s (text "Range")) s) [
    | none ↦ none
    | some (pos, s₁) ↦ elim (call_player (λ p. p.seek pos) s₁) [
      | none ↦ none
      | some (_, s₂) ↦ playing s₂
    ]
  ]

  unfoldable pub on_pause : S → Option (ErrorCode × S)
  on_pause s = elim (call_player (λ p. p.pause) s) [
    | none ↦ none
    | some (_, s') ↦ some (e_ok, record s' { pause = true })
  ]

  unfoldable pub teardown : S → Option (ErrorCode × S)
  teardown s = elim (call_player (λ p t. some (tt, p.teardown t)) s) [
    | none ↦ none
    | some (_, s') ↦ some (e_ok, s')
  ]

  -- What is done behind a handler that gave a code.
  abbrev pub and_put : (ErrorCode → S → S) → Option (ErrorCode × S) → Option (ErrorCode × S)
  and_put f r = elim r [ none ↦ none | some (code, s) ↦ some (code, f code s) ]

  unfoldable pub answer_describe : S → Option (ErrorCode × S)
  answer_describe s =
      and_put
        (λ code t.
          put (text "Content-Length") (decimal (length t.body))
            (put (text "Content-Type") (text "application/sdp") t))
        (on_describe s)

  unfoldable pub answer_setup : S → Option (ErrorCode × S)
  answer_setup s =
      and_put (λ code t. put_transport code (put_session (field t (text "Session")) t)) (on_setup s)

  unfoldable pub answer_play : S → Option (ErrorCode × S)
  answer_play s =
      and_put (λ code t. put_range (field t (text "Range")) (echo (text "Session") t)) (on_play s)

  unfoldable pub answer_pause : S → Option (ErrorCode × S)
  answer_pause s = and_put (λ code t. echo (text "Session") t) (on_pause s)

  unfoldable pub answer_teardown : S → Option (ErrorCode × S)
  answer_teardown s = and_put (λ code t. echo (text "Session") t) (teardown s)

  unfoldable pub by_method : Text → S → Option (ErrorCode × S)
  by_method m s =
      if text_eq m (text "OPTIONS")
      then some (
        e_ok,
        put (text "Public") (text "OPTIONS, DESCRIBE, SETUP, TEARDOWN, PLAY, PAUSE, GET_PARAMETER")
            s,
      )
      else if text_eq m (text "DESCRIBE")
      then answer_describe s
      else if text_eq m (text "SETUP")
      then answer_setup s
      else if text_eq m (text "PLAY")
      then answer_play s
      else if text_eq m (text "GET_PARAMETER")
      then some (e_ok, echo (text "Session") s)
      else if text_eq m (text "PAUSE")
      then answer_pause s
      else if text_eq m (text "TEARDOWN")
      then answer_teardown s
      else some (e_ok, s)

  -- The end of ProcessRequest.
  unfoldable pub end_response : ErrorCode → S → S
  end_response code s = record s {
    request = empty_request;
    response = respond s.response (text "RTSP/1.0") code;
    event = (register_wr ep event s.event).1;
  }

  unfoldable pub process_request : S → Option S
  process_request s = elim (by_method s.request.method (begin_response s)) [
    | none ↦ none
    | some (code, s') ↦ some (end_response code s')
  ]
