-- ===== src/LiveServer/Life.antt =====
-- CLiveChannels::Initialize and Uninitialize.
use byron0416_mp.LiveServer.{Host, LiveChannel, stop_channel, stop_tracks, stop_channels}
use byron0416_mp.LiveServer.Ledger.{owned, IsApart, stop_tracks-gives}
use byron0416_mp.Prelude.{ℕ, ◌+◌, ◌-◌, ◌≡◌, Bool, true, false, List, [], ◌∷◌, arith, if◌then◌else◌}
use byron0416_mp.Process.{Resource}
use byron0416_mp.Socket.{Net}
use byron0416_mp.Socket.Ledger.{IsLedger}
use byron0416_mp.Text.{Text}

-- m_Channels, and the last arguments of SetTimer.
pub record LiveChannels : Type 0 where
  pub channels : List (Text × LiveChannel)
  pub timer : ℕ × ℕ

module _ (net : Net) (host : Host net.World) (ip : Text) where
  -- Initialize, where path is m_Path; the result of SetTimer is ignored.
  unfoldable pub initialize : Text → LiveChannels → net.World → Bool × LiveChannels × net.World
  initialize path c w =
      let r = host.start_engine w in
      if host.exists path w
      then (if r.0 then (true, record c { timer = (100, 5000) }, r.1) else (false, c, r.1))
      else (false, c, w)

  unfoldable pub uninitialize : LiveChannels → net.World → LiveChannels × net.World
  uninitialize c w = (
    record { channels = []; timer = (0, 0) },
    host.close_engine (stop_channels net host ip c.channels (host.stop_engine w)),
  )

-- The sockets of all channels.
unfoldable pub owned_all : Resource → List (Text × LiveChannel) → ℕ
owned_all x [] = 0
owned_all x ((name, ch) ∷ chs) = owned x ch.tracks + owned_all x chs

module _ (net : Net) (host : Host net.World) (ip : Text) (uses : net.World → Resource → ℕ)
    (law : IsLedger net uses) (apart : IsApart net uses host) where
  stop_channels-gives :
      (x : Resource) (chs : List (Text × LiveChannel)) (w : net.World)
      → uses (stop_channels net host ip chs w) x ≡ uses w x - owned_all x chs
  unfolding stop_channels stop_channel owned_all
  stop_channels-gives x [] w = omega arith
  stop_channels-gives x ((name, ch) ∷ chs) w =
      let down : net.World = host.stop_engine w in
      let closed : net.World = stop_tracks net host ip ch.tracks down in
      omega (
        arith,
        stop_channels-gives x chs (host.close_engine closed),
        apart.close_keeps closed x,
        stop_tracks-gives net host ip uses law apart x ch.tracks down,
        apart.stop_keeps w x,
      )

  -- Uninitialize closes the sockets of all tracks of all channels, and no others.
  pub uninitialize-gives :
      (x : Resource) (c : LiveChannels) (w : net.World)
      → uses (uninitialize net host ip c w).1 x ≡ uses w x - owned_all x c.channels
  unfolding uninitialize
  uninitialize-gives x c w =
      let down : net.World = host.stop_engine w in
      omega (
        arith,
        apart.close_keeps (stop_channels net host ip c.channels down) x,
        stop_channels-gives x c.channels down,
        apart.stop_keeps w x,
      )
