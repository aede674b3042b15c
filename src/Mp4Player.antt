-- ===== src/Mp4Player.antt =====
-- Mp4Player.h and Mp4Player.cpp: CMp4Player, which plays a file: it takes samples from the source when
-- their time has come, and sends their packets over the RTSP connection. The clock, the printing of
-- the duration in seconds and what stands in a new sample's m_Timestamp are parameters.
pub mod Frames
pub mod Pacing
pub mod Ends
mod Tests
use byron0416_mp.Error.{ErrorCode, e_error}
use byron0416_mp.Player.{RtpPlayer}
use byron0416_mp.Prelude.OrderedMap.{find, insert, assign, nat_key}
use byron0416_mp.Prelude.{
  ℕ, zero, suc, ◌%◌, Bool, true, false, List, [], ◌∷◌, ◌++◌, Option, none, some, ltb, if◌then◌else◌,
  length, be16, sub64,
}
use byron0416_mp.Rtp.{RtpPacket, RtpSample, RtpSource}
use byron0416_mp.Socket.{Net, Socket, tcp}
use byron0416_mp.Socket
use byron0416_mp.Text.{Text, text, crlf}

-- timer is the value of the last SetTimer, 0 for a timer that has been stopped; ended is what
-- ReturnEvent has reported.
pub record Mp4Player (T W : Type 0) : Type 0 where
  pub mp4 : T
  pub rtsp : Socket W
  pub start_time : ℕ
  pub interleaved : List (ℕ × ℕ)
  pub samples : List (ℕ × RtpSample)
  pub timer : ℕ
  pub ended : Option ErrorCode

-- How a turn of OnTimer's loops ends: on to what follows, a return, a fault, or no fuel.
pub data Turn (S : Type 0) : Type 0 where
  goes_on : S → Turn S
  returns : S → Turn S
  fault : Turn S
  stuck : Turn S

module _ {T W : Type 0} where
  -- m_StartTime of a play whose first time stamp is pos.
  unfoldable pub start_at : ℕ → ℕ → Mp4Player T W → Mp4Player T W
  start_at now pos s = record s { start_time = sub64 now pos }

  unfoldable pub get_current_pos : Mp4Player T W → ℕ
  get_current_pos s = elim s.samples [ [] ↦ 0 | (id, x) ∷ rest ↦ x.timestamp ]

  unfoldable pub set_interleaved : ℕ → ℕ → Mp4Player T W → Bool × Mp4Player T W
  set_interleaved id n s = (true, record s { interleaved = insert id n s.interleaved })

  unfoldable pub pause : Mp4Player T W → Bool × Mp4Player T W
  pause s = (true, record s { timer = 0 })

  unfoldable pub resume : ℕ → Mp4Player T W → Bool × Mp4Player T W
  resume now s = elim s.samples [
    | [] ↦ (false, s)
    | (id, x) ∷ rest ↦ (true, record (start_at now x.timestamp s) { timer = 1 })
  ]

module _ (net : Net) (src : RtpSource) (now : net.World → ℕ) (print_seconds : ℕ → Text)
    (unset : ℕ) where
  abbrev pub S : Type 0
  S = Mp4Player src.State net.World

  unfoldable pub setup : Text → S → Option (Bool × S)
  setup path s = elim (src.parse path s.mp4) [
    | none ↦ none
    | some (ok, m) ↦ some (ok, record s { start_time = 0; mp4 = m })
  ]

  unfoldable pub get_track_id : S → Bool × List ℕ
  get_track_id s = let ids = src.get_track_id s.mp4 in (ltb 0 (length ids), ids)

  -- The loop of GetSdp.
  unfoldable pub track_sdps : Text → List ℕ → src.State → Text
  track_sdps range [] m = []
  track_sdps range (id ∷ ids) m = src.get_sdp id m ++ (range ++ track_sdps range ids m)

  unfoldable pub get_sdp : S → Text
  get_sdp s =
      let range = text "a=range:npt=0-" ++ (print_seconds (src.get_duration s.mp4) ++ crlf) in
      range ++ track_sdps range (src.get_track_id s.mp4) s.mp4

  unfoldable pub seek : ℕ → S → Option (Bool × S)
  seek pos s = elim (src.seek pos s.mp4) [
    | none ↦ none
    | some (ok, m) ↦ some (ok, record s { samples = []; mp4 = m })
  ]

  -- if(m_Rtsp.GetFd() <= 0) m_Rtsp.Attach(fd);
  unfoldable pub attach_rtsp : Option ℕ → S → Option S
  attach_rtsp fd s = elim s.rtsp.fd [
    | some _ ↦ some s
    | none ↦ elim (Socket.attach net tcp fd s.rtsp) [
      | none ↦ none
      | some (_, rtsp) ↦ some (record s { rtsp = rtsp })
    ]
  ]

  -- The loop of Play, with the time stamp of the last sample.
  unfoldable pub first_samples : List ℕ → ℕ → S → Option (ℕ × S)
  first_samples [] pos s = some (pos, s)
  first_samples (id ∷ ids) pos s =
      elim (src.get_rtp_sample id (record { timestamp = unset; packets = [] }) s.mp4) [
        | none ↦ none
        | some (none, m) ↦ first_samples ids pos (record s { mp4 = m })
        | some (some x, m) ↦
            first_samples ids x.timestamp (record s { mp4 = m; samples = insert id x s.samples })
      ]

  unfoldable pub play_tracks : List ℕ → S → Option (Bool × S)
  play_tracks [] s = some (false, s)
  play_tracks (id ∷ ids) s = elim (first_samples (id ∷ ids) 0 s) [
    | none ↦ none
    | some (pos, t) ↦ some (true, record (start_at (now t.rtsp.world) pos t) { timer = 1000 })
  ]

  unfoldable pub play : Option ℕ → S → Option (Bool × S)
  play fd s = elim (attach_rtsp fd s) [
    | none ↦ none
    | some t ↦ play_tracks (src.get_track_id t.mp4) t
  ]

  unfoldable pub teardown : S → S
  teardown s = record s {
    timer = 0;
    mp4 = src.close s.mp4;
    rtsp = Socket.detach net s.rtsp;
    interleaved = [];
    samples = [];
  }

  -- m_Rtsp.Send.
  unfoldable pub send : Text → S → Option ℕ × S
  send bs s = let r = Socket.send net bs s.rtsp in (r.0, record s { rtsp = r.1 })

  -- Whether ret > 0.
  abbrev pub has_sent : Option ℕ → Bool
  has_sent none = false
  has_sent (some n) = ltb 0 n

  unfoldable pub send_packet : ℕ → RtpPacket → S → Bool × S
  send_packet il p s =
      let s₁ = (send (0x24 ∷ (il % 256) ∷ []) s).1 in
      let s₂ = (send (be16 (length p)) s₁).1 in let r = send p s₂ in (has_sent r.0, r.1)

  unfoldable pub unless_failed : (S → Bool × S) → Bool × S → Bool × S
  unless_failed f (true, s) = f s
  unless_failed f (false, s) = (false, s)

  unfoldable pub send_packets : ℕ → List RtpPacket → S → Bool × S
  send_packets il [] s = (true, s)
  send_packets il (p ∷ ps) s = unless_failed (send_packets il ps) (send_packet il p s)

  -- What follows GetRtpSample. A sample without packets is erased, and then its iterator is used.
  unfoldable pub with_next : (RtpSample → S → Turn S) → ℕ → RtpSample → S → Turn S
  with_next again id x s = elim x.packets [
    | [] ↦ fault
    | p ∷ ps ↦ again x (record s { samples = assign id x s.samples })
  ]

  unfoldable pub next_sample : (RtpSample → S → Turn S) → ℕ → RtpSample → S → Turn S
  next_sample again id x s = elim (src.get_rtp_sample id (record x { packets = [] }) s.mp4) [
    | none ↦ fault
    | some (none, m) ↦ returns (record (teardown (record s { mp4 = m })) { ended = some e_error })
    | some (some y, m) ↦ with_next again id y (record s { mp4 = m })
  ]

  unfoldable pub after_packets : (RtpSample → S → Turn S) → ℕ → RtpSample → Bool × S → Turn S
  after_packets again id x (false, s) = returns (record s { ended = some e_error })
  after_packets again id x (true, s) = next_sample again id x s

  -- The timer that a sample which is not due sets.
  unfoldable pub wait_for : ℕ → ℕ → ℕ
  wait_for elapsed ts = if ltb elapsed ts then sub64 ts elapsed else 1

  -- while(true) over the samples of a track; elapsed is now-m_StartTime.
  unfoldable pub track_loop : ℕ → ℕ → ℕ → ℕ → RtpSample → S → Turn S
  track_loop zero id il elapsed x s = stuck
  track_loop (suc fuel) id il elapsed x s =
      let again : RtpSample → S → Turn S = track_loop fuel id il elapsed in
      if ltb x.timestamp elapsed
      then after_packets again id x (send_packets il x.packets s)
      else goes_on (record s { timer = wait_for elapsed x.timestamp })

  unfoldable pub and_then : (S → Turn S) → Turn S → Turn S
  and_then f (goes_on s) = f s
  and_then f t = t

  -- The loop over m_Samples. A track without an entry in m_Interleaved is erased, and then its
  -- iterator is used.
  unfoldable pub tracks_loop : ℕ → ℕ → List (ℕ × RtpSample) → S → Turn S
  tracks_loop fuel elapsed [] s = goes_on s
  tracks_loop fuel elapsed ((id, x) ∷ rest) s = elim (find id s.interleaved) [
    | none ↦ fault
    | some il ↦ and_then (tracks_loop fuel elapsed rest) (track_loop fuel id il elapsed x s)
  ]

  unfoldable pub end_of_play : S → Turn S
  end_of_play s = elim s.samples [ [] ↦ goes_on (teardown s) | e ∷ es ↦ goes_on s ]

  unfoldable pub on_timer : ℕ → S → Turn S
  on_timer fuel s =
      and_then end_of_play (tracks_loop fuel (sub64 (now s.rtsp.world) s.start_time) s.samples s)

  -- The player, as a session drives it.
  unfoldable pub mp4_player : RtpPlayer
  mp4_player = record {
    State = S;
    setup = setup;
    get_sdp = get_sdp;
    set_interleaved = λ id n s. some (set_interleaved id n s);
    seek = seek;
    play = play;
    current_pos = get_current_pos;
    pause = λ s. some (pause s);
    teardown = teardown;
  }
