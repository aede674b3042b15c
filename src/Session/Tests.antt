-- ===== src/Session/Tests.antt =====
-- A session with two players that have nothing but a position.
use byron0416_mp.Event.{Epoll, register_rd}
use byron0416_mp.Event
use byron0416_mp.Http.Request.{Request, empty_request, get_field}
use byron0416_mp.Http.Response.{empty_response}
use byron0416_mp.Prelude.OrderedMap.{find, insert}
use byron0416_mp.Player.{RtpPlayer}
use byron0416_mp.Prelude.{
  ℕ, suc, ◌≡◌, refl, true, false, [], ◌∷◌, none, some, arith, inl, map, be_value,
}
use byron0416_mp.Session.{
  Session, ReadMs, wild, process_request, begin_response, by_method, answer_describe, on_describe,
  choose,
}
use byron0416_mp.Session.Answers.{process_request-IsAnswer, IsAnswer}
use byron0416_mp.Session.Stream.{waits, room, gone, read_loop, on_write, buffer}
use byron0416_mp.Session.Stream.Framing.{read_loop-frame}
use byron0416_mp.Session.Stream.Reading.{read_loop-Ends, Ends}
use byron0416_mp.Session.Stream.Writing.{on_write-TakesOff, on_write-all, TakesOff, pending}
use byron0416_mp.Text.{text, text_eq, text_key, find_text, starts_with}

abbrev silent : Epoll
silent = record {
  World = ℕ;
  ctl_add = λ e i w. (true, w);
  ctl_mod = λ e i w. (true, w);
  ctl_del = λ e w. (true, w);
}

abbrev idle : Event.Engin ℕ
idle = record {
  world = 0;
  priority = none;
  deleted = [];
  doing = false;
  has_engin = λ x. true;
  added = λ x. true;
}

-- A player of every file, whose state is its position.
abbrev any_file : RtpPlayer
any_file = record {
  State = ℕ;
  setup = λ file s. some (true, s);
  get_sdp = λ s. text "v=0";
  set_interleaved = λ id n s. some (true, s);
  seek = λ pos s. some (true, pos);
  play = λ fd s. some (true, s);
  current_pos = λ s. s;
  pause = λ s. some (true, s);
  teardown = λ s. 0;
}

-- A player of no file.
abbrev no_file : RtpPlayer
no_file = record any_file { setup = λ file s. some (false, s) }

abbrev no_number : ReadMs
no_number = λ s. none

abbrev asked : Request
asked = record empty_request { method = text "DESCRIBE"; fields = (text "CSeq", text "7") ∷ [] }

abbrev fresh : Session ℕ ℕ ℕ
fresh = record {
  fd = some 9;
  request = empty_request;
  response = empty_response;
  rtcp_left = 0;
  mp4_player = 0;
  live_player = 0;
  player = wild;
  pause = false;
  type = 0;
  header_sended = 0;
  body = [];
  body_sended = 0;
  next_id = 16;
  returned = false;
  event = idle;
}

abbrev asking : Session ℕ ℕ ℕ
asking = record fresh { request = asked }

abbrev answering : Session ℕ ℕ ℕ
answering = record fresh {
  response = record empty_response { header = text "RTSP" };
  body = text "v=0";
}

-- What becomes of a session when it has handled its request.
abbrev handled : Session ℕ ℕ ℕ → Session ℕ ℕ ℕ
handled s = elim (process_request silent 3 any_file no_file no_number s) [ none ↦ s | some t ↦ t ]

process_request-IsAnswer_example :
    IsAnswer (record { cseq = text "7"; kind = 0; left = 0; conn = some 9 }) (handled asking)
unfolding process_request by_method begin_response text_eq find insert get_field answer_describe
    on_describe choose
process_request-IsAnswer_example =
    process_request-IsAnswer silent 3 any_file no_file no_number asking (handled asking) refl

-- A request line in two parts, the first of which is read.
read_loop-Ends_example :
    Ends silent 3 any_file no_file no_number fresh
      (text "OPTIONS")
      (read_loop silent 3 any_file no_file no_number 20 fresh (buffer (text "OPTIONS")) 7)
unfolding find_text starts_with
read_loop-Ends_example =
    read_loop-Ends silent 3 any_file no_file no_number 20 fresh (text "OPTIONS")
      (record { kind = inl refl; unfinished = refl }) (ground arith) (omega arith) (omega arith)

-- A frame of one byte, with the start of a request behind it.
read_loop-frame_example :
    read_loop silent 3 any_file no_file no_number 4 fresh
      (buffer (b'$' ∷ 1 ∷ 0 ∷ 1 ∷ 9 ∷ text "OPTIONS"))
      12
    ≡ waits (record fresh { type = 1 })
unfolding find_text starts_with be_value
read_loop-frame_example =
    read_loop-frame silent 3 any_file no_file no_number 4 fresh 1 0 1 (9 ∷ text "OPTIONS") refl refl
      (omega arith) refl (omega arith) (omega arith) (omega arith) (omega arith)

on_write-TakesOff_example :
    TakesOff
      (text "RTSPv=0")
      (on_write silent 3 any_file no_file no_number (room 3 ∷ gone ∷ []) answering).0
      (on_write silent 3 any_file no_file no_number (room 3 ∷ gone ∷ []) answering).1
on_write-TakesOff_example =
    on_write-TakesOff silent 3 any_file no_file no_number (room 3 ∷ gone ∷ []) answering

on_write-all_example :
    ((on_write silent 3 any_file no_file no_number
        (map (λ k. room (suc k)) (3 ∷ 0 ∷ 0 ∷ 5 ∷ 0 ∷ 1 ∷ 1 ∷ []))
        answering).0
      ≡ pending answering)
    × (s' : Session ℕ ℕ ℕ) × ((on_write silent 3 any_file no_file no_number
          (map (λ k. room (suc k)) (3 ∷ 0 ∷ 0 ∷ 5 ∷ 0 ∷ 1 ∷ 1 ∷ []))
          answering).1
        ≡ waits s')
    × (pending s' ≡ [])
    × (s'.event ≡ (register_rd silent 3 idle).1)
on_write-all_example =
    on_write-all silent 3 any_file no_file no_number (3 ∷ 0 ∷ 0 ∷ 5 ∷ 0 ∷ 1 ∷ 1 ∷ []) answering
      (omega arith)
