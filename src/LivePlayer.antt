-- ===== src/LivePlayer.antt =====
-- LivePlayer.h and LivePlayer.cpp: CLivePlayer, which passes on what comes from the multicast groups of
-- a live channel over the RTSP connection. The channels that CLiveChannels keeps are a parameter, a
-- function of the world. none is a failed assert.
pub mod Relay
pub mod Replay
mod Tests
use byron0416_mp.LiveServer.{
  Host, LiveChannel, channel_sdp, channel_track_id, channel_port, multicast_group,
}
use byron0416_mp.Player.{RtpPlayer}
use byron0416_mp.Prelude.{
  ℕ, ◌+◌, ◌%◌, Bool, true, false, List, [], ◌∷◌, ◌++◌, Option, none, some, ◌==◌, if◌then◌else◌,
  length, be16,
}
use byron0416_mp.Socket.{Net, Socket, tcp}
use byron0416_mp.Socket
use byron0416_mp.Text.{Text}

-- CLiveTrack: m_Fd of m_Rtsp and of m_Server, and the members.
pub record LiveTrack : Type 0 where
  pub rtsp : Option ℕ
  pub server : Option ℕ
  pub port : ℕ
  pub id : ℕ
  pub interleaved : ℕ

abbrev pub new_track : LiveTrack
new_track = record { rtsp = none; server = none; port = 0; id = 0; interleaved = 0 }

pub record LivePlayer (W : Type 0) : Type 0 where
  pub name : Text
  pub sdp : Text
  pub tracks : List LiveTrack
  pub world : W

-- The loop of Setup over the tracks and the numbers that the channel has; port_of is GetPort.
unfoldable pub set_tracks : (ℕ → ℕ) → List ℕ → List LiveTrack → List LiveTrack
set_tracks port_of [] ts = ts
set_tracks port_of (id ∷ ids) [] = []
set_tracks port_of (id ∷ ids) (t ∷ ts) =
    record t { id = id; port = port_of id } ∷ set_tracks port_of ids ts

-- The first track with the number; m_Interleaved is a char.
unfoldable pub interleave : ℕ → ℕ → List LiveTrack → Bool × List LiveTrack
interleave id n [] = (false, [])
interleave id n (t ∷ ts) =
    let rest = interleave id n ts in
    if t.id == id then (true, record t { interleaved = n % 256 } ∷ ts) else (rest.0, t ∷ rest.1)

module _ (net : Net) (host : Host net.World)
    (channels : net.World → List (Text × LiveChannel)) where
  abbrev pub W : Type 0
  W = net.World

  abbrev pub S : Type 0
  S = LivePlayer net.World

  -- The constructor.
  abbrev pub new_player : W → S
  new_player w = record { name = []; sdp = []; tracks = new_track ∷ new_track ∷ []; world = w }

  -- SetFd: the number that Attach returns becomes a bool, which is true for -1 as well.
  unfoldable pub set_fd : Option ℕ → LiveTrack → W → Option (Bool × LiveTrack × W)
  set_fd fd t w = elim (Socket.attach net tcp fd (record { fd = t.rtsp; world = w })) [
    | none ↦ none
    | some (_, v) ↦ some (true, record t { rtsp = v.fd }, v.world)
  ]

  unfoldable pub run_track : LiveTrack → W → Option (Bool × LiveTrack × W)
  run_track t w =
      elim (Socket.bind net multicast_group t.port (record { fd = t.server; world = w })) [
        | none ↦ none
        | some (false, v) ↦ some (false, record t { server = v.fd }, v.world)
        | some (true, v) ↦
            let r = host.register_rd v.fd v.world in some (r.0, record t { server = v.fd }, r.1)
      ]

  unfoldable pub stop_track : LiveTrack → W → LiveTrack × W
  stop_track t w =
      let v : Socket W =
        Socket.close net (record { fd = t.server; world = host.unregister t.server w }) in
      (record t { rtsp = none; server = v.fd }, v.world)

  -- m_Rtsp.Send.
  unfoldable pub send : LiveTrack → Text → W → W
  send t bs w = (Socket.send net bs (record { fd = t.rtsp; world = w })).1.world

  unfoldable pub relay : LiveTrack → Text → W → W
  relay t d w = send t d (send t (be16 (length d)) (send t (0x24 ∷ t.interleaved ∷ []) w))

  -- OnRead of a track: the list is what recv gives, an empty entry for its end.
  unfoldable pub on_read : LiveTrack → List Text → W → W
  on_read t [] w = w
  on_read t ([] ∷ ds) w = w
  on_read t ((b ∷ bs) ∷ ds) w = on_read t ds (relay t (b ∷ bs) w)

  unfoldable pub set_channel : Text → Text → S → Bool × S
  set_channel name [] s = (false, record s { sdp = [] })
  set_channel name (c ∷ cs) s =
      let chs = channels s.world in
      (
        true,
        record s {
          sdp = c ∷ cs;
          name = name;
          tracks = set_tracks (channel_port chs name) (channel_track_id chs name).1 s.tracks;
        },
      )

  unfoldable pub setup : Text → S → Bool × S
  setup name s = set_channel name (channel_sdp (channels s.world) name) s

  unfoldable pub get_track_id : S → Bool × List ℕ
  get_track_id s = channel_track_id (channels s.world) s.name

  unfoldable pub set_interleaved : ℕ → ℕ → S → Bool × S
  set_interleaved id n s = let r = interleave id n s.tracks in (r.0, record s { tracks = r.1 })

  -- The body of the loop of Play.
  unfoldable pub play_track : Option ℕ → LiveTrack → W → Option (Bool × LiveTrack × W)
  play_track fd t w = elim (set_fd fd t w) [
    | none ↦ none
    | some (false, u, v) ↦ some (false, u, v)
    | some (true, u, v) ↦ run_track u v
  ]

  -- A track in front of those that the loop goes on to.
  unfoldable pub with_track :
      LiveTrack → Option (Bool × List LiveTrack × W) → Option (Bool × List LiveTrack × W)
  with_track t none = none
  with_track t (some (b, ts, w)) = some (b, t ∷ ts, w)

  unfoldable pub play_tracks : Option ℕ → List LiveTrack → W → Option (Bool × List LiveTrack × W)
  play_tracks fd [] w = some (true, [], w)
  play_tracks fd (t ∷ ts) w = elim (play_track fd t w) [
    | none ↦ none
    | some (false, u, v) ↦ some (false, u ∷ ts, v)
    | some (true, u, v) ↦ with_track u (play_tracks fd ts v)
  ]

  unfoldable pub play : Option ℕ → S → Option (Bool × S)
  play fd s = elim (play_tracks fd s.tracks s.world) [
    | none ↦ none
    | some (ok, ts, w) ↦ some (ok, record s { tracks = ts; world = w })
  ]

  unfoldable pub stop_tracks : List LiveTrack → W → List LiveTrack × W
  stop_tracks [] w = ([], w)
  stop_tracks (t ∷ ts) w =
      let r = stop_track t w in let rest = stop_tracks ts r.1 in (r.0 ∷ rest.0, rest.1)

  unfoldable pub teardown : S → S
  teardown s = let r = stop_tracks s.tracks s.world in record s { tracks = r.0; world = r.1 }

  -- The player, as a session drives it; Seek does nothing, and Pause fails.
  unfoldable pub live_player : RtpPlayer
  live_player = record {
    State = S;
    setup = λ name s. some (setup name s);
    get_sdp = λ s. s.sdp;
    set_interleaved = λ id n s. some (set_interleaved id n s);
    seek = λ pos s. some (true, s);
    play = play;
    current_pos = λ s. 0;
    pause = λ s. some (false, s);
    teardown = teardown;
  }
