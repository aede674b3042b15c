-- ===== src/LiveServer/Ledger.antt =====
-- CChannelTrack and CLiveChannel: the sockets of the tracks.
pub mod Channel
use byron0416_mp.LiveServer.{
  Host, ChannelTrack, LiveChannel, new_channel, multicast_group, bind_track, run_track, stop_track,
  add_track, after_line, parse_lines, parse, track_file, parse_some, read_own, run_started,
  run_channel, stop_tracks, stop_channel,
}
use byron0416_mp.Prelude.{
  ℕ, ◌+◌, ◌-◌, ◌≡◌, ◌⊎◌, refl, ap, sym, subst, ◌∙◌, Bool, true, false, not, ◌&&◌, List, [], ◌∷◌,
  ◌++◌, Option, none, some, arith, ltb, ◌==◌, if◌then◌else◌, Option-cases, Bool-cases, inl, inr,
  length, take, some-inj,
}
use byron0416_mp.Process.{Resource, descriptor, one, Keeps}
use byron0416_mp.Socket.{Net, Socket, udp}
use byron0416_mp.Socket
use byron0416_mp.Socket.Ledger.{IsLedger, Holds, IsGone, Returns, servers-Returns, connect-Leaves}
use byron0416_mp.Text.{Text, text, lines_of, rfind_byte, behind_pos}

-- A new track.
abbrev pub no_sockets : ChannelTrack
no_sockets = record { server = none; client = none }

-- The sockets of tracks.
unfoldable pub held : Resource → Option ℕ → ℕ
held x none = 0
held x (some fd) = one (descriptor fd) x

unfoldable pub owned : Resource → List ChannelTrack → ℕ
owned x [] = 0
owned x (t ∷ ts) = held x t.server + held x t.client + owned x ts

pub owned-append :
    (x : Resource) (ts : List ChannelTrack) (t : ChannelTrack)
    → owned x (ts ++ t ∷ []) ≡ owned x ts + held x t.server + held x t.client
unfolding owned
owned-append x [] t = omega arith
owned-append x (u ∷ ts) t = omega (arith, owned-append x ts t)

-- The host's calls leave alone what the process has; what the engines of the channels take is not
-- counted.
pub record IsApart (net : Net) (uses : net.World → Resource → ℕ) (host : Host net.World)
    : Type 0 where
  pub register_keeps : (fd : Option ℕ) (w : net.World) → Keeps uses w (host.register_rd fd w).1
  pub unregister_keeps : (fd : Option ℕ) (w : net.World) → Keeps uses w (host.unregister fd w)
  pub start_keeps : (w : net.World) → Keeps uses w (host.start_engine w).1
  pub stop_keeps : (w : net.World) → Keeps uses w (host.stop_engine w)
  pub close_keeps : (w : net.World) → Keeps uses w (host.close_engine w)

module _ (net : Net) (host : Host net.World) (ip : Text) (uses : net.World → Resource → ℕ)
    (law : IsLedger net uses) (apart : IsApart net uses host) where
  abbrev W : Type 0
  W = net.World

  close-held :
      (x : Resource) (fd : Option ℕ) (w : W)
      → uses (Socket.close net (record { fd = fd; world = w })).world x ≡ uses w x - held x fd
  unfolding held Socket.close
  close-held x none w = omega arith
  close-held x (some fd) w = law.close_gives fd w x

  stop_track-gives :
      (x : Resource) (t : ChannelTrack) (w : W)
      → uses (stop_track net host ip t w) x ≡ uses w x - (held x t.server + held x t.client)
  unfolding stop_track
  stop_track-gives x t w =
      let left : W = host.unregister t.server w in
      let v : Socket W = Socket.close net (record { fd = t.server; world = left }) in
      omega (
        arith,
        close-held x t.client v.world,
        close-held x t.server left,
        apart.unregister_keeps t.server w x,
      )

  pub stop_tracks-gives :
      (x : Resource) (ts : List ChannelTrack) (w : W)
      → uses (stop_tracks net host ip ts w) x ≡ uses w x - owned x ts
  unfolding stop_tracks owned
  stop_tracks-gives x [] w = omega arith
  stop_tracks-gives x (t ∷ ts) w =
      omega (arith, stop_tracks-gives x ts (stop_track net host ip t w), stop_track-gives x t w)

  -- A track that could not be run behind those that the channel has, which Parse drops; or none.
  abbrev pub IsLost : W → LiveChannel → ChannelTrack → Type 0
  IsLost before ch t =
      (t ≡ no_sockets)
      ⊎ ((port : ℕ) × (v : W) × (u : W) × (run_track net host ip port no_sockets v
            ≡ some (false, t, u))
          × ((x : Resource) → uses v x ≡ uses before x + owned x ch.tracks))

  -- The process has the sockets of the channel, and of the track that was dropped, besides what it had.
  abbrev pub Accounts : ChannelTrack → W → LiveChannel → W → Type 0
  Accounts lost before ch w =
      (x : Resource)
      → uses w x ≡ uses before x + owned x ch.tracks + (held x lost.server + held x lost.client)

  pub stop_channel-gives :
      (lost : ChannelTrack) (before : W) (ch : LiveChannel) (w : W)
      → Accounts lost before ch w
      → (x : Resource)
      → uses (stop_channel net host ip ch w).1 x
        ≡ uses before x + (held x lost.server + held x lost.client)
  unfolding stop_channel
  stop_channel-gives lost before ch w h x =
      let down : W = host.stop_engine w in
      omega (
        arith,
        apart.close_keeps (stop_tracks net host ip ch.tracks down) x,
        stop_tracks-gives x ch.tracks down,
        apart.stop_keeps w x,
        h x,
      )

  Holds-takes :
      (x : Resource) (before : W) (s : Socket W)
      → Holds net uses law before s
      → uses s.world x ≡ uses before x + held x s.fd
  unfolding held
  Holds-takes x before s h = simp h.is_fd (omega (arith, h.is_open x))

  IsGone-takes :
      (x : Resource) (before : W) (s : Socket W)
      → IsGone net uses law before s
      → uses s.world x ≡ uses before x + held x s.fd
  unfolding held
  IsGone-takes x before s h = simp h.no_fd (omega (arith, h.as_before x))

  bind_track-takes :
      (port : ℕ) (b : Bool) (c v : Socket W)
      → v.fd ≡ none
      → (ok : Bool) × (t : ChannelTrack) × (u : W) × (bind_track net host ip port (b, c) v
          ≡ some (ok, t, u))
        × (t.client ≡ c.fd)
        × ((x : Resource) → uses u x ≡ uses c.world x + held x t.server)
  unfolding bind_track held
  bind_track-takes port false c v closed =
      (_, _, _, refl, refl, λ x. omega (arith, ap (held x) closed))
  bind_track-takes port true c v closed =
      let from : Socket W = record v { world = c.world } in
      go (Socket.bind net ip port from) refl (servers-Returns net uses law ip port from closed).1
    where
      go :
          (o : Option (Bool × Socket W))
          → Socket.bind net ip port (record v { world = c.world }) ≡ o
          → Returns net uses law c.world o
          → (ok : Bool) × (t : ChannelTrack) × (u : W) × (bind_track net host ip port (true, c) v
              ≡ some (ok, t, u))
            × (t.client ≡ c.fd)
            × ((x : Resource) → uses u x ≡ uses c.world x + held x t.server)
      go none e h = elim h [ ]
      go (some (false, s)) e h = (
        false,
        record { server = s.fd; client = c.fd },
        s.world,
        rw (e, bind_track) refl,
        refl,
        λ x. IsGone-takes x c.world s h,
      )
      go (some (true, s)) e h = (
        (host.register_rd s.fd s.world).0,
        record { server = s.fd; client = c.fd },
        (host.register_rd s.fd s.world).1,
        rw (e, bind_track) refl,
        refl,
        λ x. apart.register_keeps s.fd s.world x ∙ Holds-takes x c.world s h,
      )

  -- Run of a track, on every path.
  pub run_track-takes :
      (port : ℕ) (w : W)
      → (ok : Bool) × (t : ChannelTrack) × (u : W) × (run_track net host ip port no_sockets w
          ≡ some (ok, t, u))
        × ((x : Resource) → uses u x ≡ uses w x + (held x t.server + held x t.client))
  unfolding run_track
  run_track-takes port w =
      let from : Socket W = record { fd = none; world = w } in
      let ((b, c), connects, leaves) =
        connect-Leaves net uses law udp multicast_group port from refl in
      let (ok, t, u, bound, client, takes) = bind_track-takes port b c from refl in
      let at_client : (x : Resource) → uses c.world x ≡ uses w x + held x c.fd =
        λ x. elim leaves [ inl h ↦ Holds-takes x w c h | inr h ↦ IsGone-takes x w c h ] in
      (
        ok,
        t,
        u,
        rw (connects, run_track) bound,
        λ x. omega (arith, takes x, at_client x, ap (held x) client),
      )
