-- ===== src/LiveServer.antt =====
-- LiveServer.h and LiveServer.cpp: the live channels. A channel is a directory with two SDP files; its
-- tracks copy what comes to a UDP port into a multicast group. The directory, the files and the engines
-- of the channels are a parameter (Host); its world is the network's. none is a failed assert.
pub mod Channels
pub mod Ledger
pub mod Life
pub mod Sdp
mod Tests
use byron0416_mp.Prelude.OrderedMap.{find, insert, erase, nat_key}
use byron0416_mp.Prelude.{
  ℕ, ◌+◌, Bool, true, false, not, ◌&&◌, ◌||◌, List, [], ◌∷◌, ◌++◌, Option, none, some, ltb, ◌==◌,
  if◌then◌else◌, length, take, drop, map,
}
use byron0416_mp.Socket.{Net, Socket, udp}
use byron0416_mp.Socket
use byron0416_mp.Text.{
  Text, text, text_eq, text_key, find_text, rfind_byte, behind_pos, before_pos, c_prefix, lines_of,
}
use byron0416_mp.Text.Numbers.{read_number}

-- opendir and readdir (the names, and whether each is a directory), stat's success, the text of a file;
-- RegisterRD and Unregister for a descriptor, and Initialize, Stop and Uninitialize of an engine.
pub record Host (W : Type 0) : Type 0 where
  pub read_dir : Text → W → Option (List (Text × Bool))
  pub exists : Text → W → Bool
  pub read_file : Text → W → Text
  pub register_rd : Option ℕ → W → Bool × W
  pub unregister : Option ℕ → W → W
  pub start_engine : W → Bool × W
  pub stop_engine : W → W
  pub close_engine : W → W

-- m_Fd of the two sockets of a track.
pub record ChannelTrack : Type 0 where
  pub server : Option ℕ
  pub client : Option ℕ

-- m_TrackID gives the port of each track. The tracks are in the order in which they were found.
pub record LiveChannel : Type 0 where
  pub sdp : Text
  pub track_id : List (ℕ × ℕ)
  pub tracks : List ChannelTrack

abbrev pub new_channel : LiveChannel
new_channel = record { sdp = []; track_id = []; tracks = [] }

abbrev pub multicast_group : Text
multicast_group = text "239.9.9.9"

-- The port of an m= line, which is behind its first space, and what is left of the line.
unfoldable pub media_line : Text → ℕ → Text × ℕ
media_line line port = elim (find_text (text "m=") line) [
  | none ↦ (line, port)
  | some _ ↦
      let rest = behind_pos (find_text (text " ") line) line in
      (rest, elim (read_number rest) [ none ↦ port | some p ↦ p ])
]

unfoldable pub track_line : Text → ℕ → ℕ
track_line line id = elim (find_text (text "trackID=") line) [
  | none ↦ id
  | some pos ↦ elim (read_number (drop (pos + 8) line)) [ none ↦ id | some i ↦ i ]
]

-- The number of the track and the port, 0 where they are still missing, behind a line.
unfoldable pub read_line : Text → ℕ × ℕ → ℕ × ℕ
read_line line (id, port) = let r = media_line (c_prefix line) port in (track_line r.0 id, r.1)

module _ (net : Net) (host : Host net.World) (ip : Text) where
  abbrev pub W : Type 0
  W = net.World

  -- CChannelTrack::Run, from its sockets as they are.
  unfoldable pub bind_track : ℕ → Bool × Socket W → Socket W → Option (Bool × ChannelTrack × W)
  bind_track port (false, c) v = some (false, record { server = v.fd; client = c.fd }, c.world)
  bind_track port (true, c) v = elim (Socket.bind net ip port (record v { world = c.world })) [
    | none ↦ none
    | some (false, u) ↦ some (false, record { server = u.fd; client = c.fd }, u.world)
    | some (true, u) ↦
        let r = host.register_rd u.fd u.world in
        some (r.0, record { server = u.fd; client = c.fd }, r.1)
  ]

  unfoldable pub run_track : ℕ → ChannelTrack → W → Option (Bool × ChannelTrack × W)
  run_track port t w =
      elim (Socket.connect net udp multicast_group port (record { fd = t.client; world = w })) [
        | none ↦ none
        | some r ↦ bind_track port r (record { fd = t.server; world = w })
      ]

  unfoldable pub stop_track : ChannelTrack → W → W
  stop_track t w =
      let v : Socket W =
        Socket.close net (record { fd = t.server; world = host.unregister t.server w }) in
      let c : Socket W = Socket.close net (record { fd = t.client; world = v.world }) in c.world

  -- OnRead of a track: each list of results is what recv gives, up to the first that is not a datagram.
  unfoldable pub copy_datagrams : ChannelTrack → List Text → W → W
  copy_datagrams t [] w = w
  copy_datagrams t ([] ∷ ds) w = w
  copy_datagrams t ((b ∷ bs) ∷ ds) w =
      copy_datagrams t ds (Socket.send net (b ∷ bs) (record { fd = t.client; world = w })).1.world

  -- A track for a line that has completed the pair.
  unfoldable pub add_track : ℕ → ℕ → LiveChannel → W → Option (Bool × LiveChannel × W)
  add_track id port ch w = elim (run_track port (record { server = none; client = none }) w) [
    | none ↦ none
    | some (false, t, u) ↦ some (false, ch, u)
    | some (true, t, u) ↦ some (
      true,
      record ch { tracks = ch.tracks ++ (t ∷ []); track_id = insert id port ch.track_id },
      u,
    )
  ]

  -- What a line does: rest goes on with the pair, which is empty behind a track that runs.
  unfoldable pub after_line :
      (ℕ × ℕ → LiveChannel → W → Option (Bool × LiveChannel × W))
      → ℕ × ℕ
      → LiveChannel
      → W
      → Option (Bool × LiveChannel × W)
  after_line rest (id, port) ch w =
      if not (id == 0) && not (port == 0)
      then elim (add_track id port ch w) [
        | none ↦ none
        | some (false, c, u) ↦ some (false, c, u)
        | some (true, c, u) ↦ rest (0, 0) c u
      ]
      else rest (id, port) ch w

  -- The loop of Parse. A line of 256 bytes or more is cut, and is the last.
  unfoldable pub parse_lines : List Text → ℕ × ℕ → LiveChannel → W → Option (Bool × LiveChannel × W)
  parse_lines [] pair ch w = some (true, ch, w)
  parse_lines (l ∷ ls) pair ch w =
      after_line (λ p c u. if ltb 255 (length l) then some (true, c, u) else parse_lines ls p c u)
        (read_line (take 255 l) pair) ch w

  unfoldable pub parse : Text → LiveChannel → W → Option (Bool × LiveChannel × W)
  parse file ch w = parse_lines (lines_of (host.read_file file w)) (0, 0) ch w

  -- The first entry that is an SDP file other than the channel's own.
  unfoldable pub track_file : Text → List (Text × Bool) → Option Text
  track_file own [] = none
  track_file own ((name, is_dir) ∷ es) = elim (find_text (text ".sdp") name) [
    | none ↦ track_file own es
    | some _ ↦ if text_eq name own then track_file own es else some name
  ]

  unfoldable pub parse_some : Text → Option Text → LiveChannel → W → Option (LiveChannel × W)
  parse_some path none ch w = some (ch, w)
  parse_some path (some name) ch w = elim (parse (path ++ text "/" ++ name) ch w) [
    | none ↦ none
    | some (_, c, u) ↦ some (c, u)
  ]

  -- The channel's own file.
  unfoldable pub read_own : Text → Text → LiveChannel → W → Bool × LiveChannel × W
  read_own path own ch w =
      let name = path ++ text "/" ++ own in
      if host.exists name w
      then (true, record ch { sdp = host.read_file name w }, w)
      else (false, ch, w)

  -- CLiveChannel::Run behind the start of its engine.
  unfoldable pub run_started : Text → LiveChannel → W → Option (Bool × LiveChannel × W)
  run_started path ch w =
      let own = behind_pos (rfind_byte b'/' path) path ++ text ".sdp" in
      elim (host.read_dir path w) [
        | none ↦ some (false, ch, w)
        | some entries ↦ elim (parse_some path (track_file own entries) ch w) [
          | none ↦ none
          | some (c, u) ↦ some (read_own path own c u)
        ]
      ]

  unfoldable pub run_channel : Text → LiveChannel → W → Option (Bool × LiveChannel × W)
  run_channel path ch w =
      let (started, u) = host.start_engine w in
      if started then run_started path ch u else some (false, ch, u)

  unfoldable pub stop_tracks : List ChannelTrack → W → W
  stop_tracks [] w = w
  stop_tracks (t ∷ ts) w = stop_tracks ts (stop_track t w)

  -- CLiveChannel::Stop.
  unfoldable pub stop_channel : LiveChannel → W → LiveChannel × W
  stop_channel ch w = (new_channel, host.close_engine (stop_tracks ch.tracks (host.stop_engine w)))

  -- CLiveChannels::OnTimer, for an entry of the directory.
  unfoldable pub add_channel :
      Text
      → Text
      → Option (Bool × LiveChannel × W)
      → List (Text × LiveChannel)
      → Option (List (Text × LiveChannel) × W)
  add_channel path name none chs = none
  add_channel path name (some (true, ch, w)) chs = some (insert name ch chs, w)
  add_channel path name (some (false, ch, w)) chs = some (chs, (stop_channel ch w).1)

  unfoldable pub visit_entry :
      Text → Text × Bool → List (Text × LiveChannel) → W → Option (List (Text × LiveChannel) × W)
  visit_entry path (d_name, is_dir) chs w =
      let name = d_name ++ text ".sdp" in
      if not is_dir || (text_eq name (text "..sdp") || text_eq name (text "...sdp"))
      then some (chs, w)
      else elim (find name chs) [
        | some _ ↦ some (chs, w)
        | none ↦ add_channel path name (run_channel (path ++ d_name) new_channel w) chs
      ]

  unfoldable pub visit_entries :
      Text
      → List (Text × Bool)
      → List (Text × LiveChannel)
      → W
      → Option (List (Text × LiveChannel) × W)
  visit_entries path [] chs w = some (chs, w)
  visit_entries path (e ∷ es) chs w = elim (visit_entry path e chs w) [
    | none ↦ none
    | some (c, u) ↦ visit_entries path es c u
  ]

  -- The first channel whose directory is gone.
  unfoldable pub gone_channel : Text → List (Text × LiveChannel) → W → Option (Text × LiveChannel)
  gone_channel path [] w = none
  gone_channel path ((name, ch) ∷ chs) w =
      let rest = gone_channel path chs w in
      if host.exists (path ++ before_pos (find_text (text ".sdp") name) name) w
      then rest
      else some (name, ch)

  unfoldable pub drop_gone : Text → List (Text × LiveChannel) → W → List (Text × LiveChannel) × W
  drop_gone path chs w = elim (gone_channel path chs w) [
    | none ↦ (chs, w)
    | some (name, ch) ↦ (erase name chs, (stop_channel ch w).1)
  ]

  unfoldable pub on_timer :
      Text → List (Text × LiveChannel) → W → Option (List (Text × LiveChannel) × W)
  on_timer path chs w = elim (host.read_dir path w) [
    | none ↦ some (drop_gone path chs w)
    | some es ↦ elim (visit_entries path es chs w) [
      | none ↦ none
      | some (c, u) ↦ some (drop_gone path c u)
    ]
  ]

  -- CLiveChannels::Uninitialize, for the channels.
  unfoldable pub stop_channels : List (Text × LiveChannel) → W → W
  stop_channels [] w = w
  stop_channels ((name, ch) ∷ chs) w = stop_channels chs (stop_channel ch w).1

-- GetSdp, GetTrackID and GetPort of the channels.
unfoldable pub channel_sdp : List (Text × LiveChannel) → Text → Text
channel_sdp chs name = elim (find name chs) [ none ↦ [] | some ch ↦ ch.sdp ]

unfoldable pub channel_track_id : List (Text × LiveChannel) → Text → Bool × List ℕ
channel_track_id chs name = elim (find name chs) [
  | none ↦ (false, [])
  | some ch ↦ (true, map (λ e. e.0) ch.track_id)
]

unfoldable pub channel_port : List (Text × LiveChannel) → Text → ℕ → ℕ
channel_port chs name id = elim (find name chs) [
  | none ↦ 0
  | some ch ↦ elim (find id ch.track_id) [ none ↦ 0 | some port ↦ port ]
]
