-- ===== src/LivePlayer/Relay.antt =====
-- CLiveTrack::OnRead: what the client of a live channel is sent.
use mathlib.Core.List.{append_assoc, append-nil}
use byron0416_mp.LivePlayer.{LiveTrack, send, relay, on_read}
use byron0416_mp.LiveServer.{Host, LiveChannel}
use byron0416_mp.Mp4Player.Frames.{deframe, IsShort, deframe-frames}
use byron0416_mp.Mp4Player.Pacing.{IsFull, frame, frames}
use byron0416_mp.Prelude.{
  ℕ, ◌<◌, ◌%◌, ◌≡◌, ap, sym, ◌∙◌, List, [], ◌∷◌, ◌++◌, some, arith, length, map, be16, All,
}
use byron0416_mp.Socket.{Net}
use byron0416_mp.Socket.Line.{TakesAll}
use byron0416_mp.Socket
use byron0416_mp.Text.{Text}

module _ (net : Net) (host : Host net.World) (channels : net.World → List (Text × LiveChannel))
    (wire : net.World → Text) (law : TakesAll net wire) where
  send-wire :
      (t : LiveTrack) (bs : Text) (w : net.World)
      → wire (send net host channels t bs w) ≡ wire w ++ bs
  unfolding send Socket.send
  send-wire t bs w = law.delivers t.rtsp bs w

  relay-wire :
      (t : LiveTrack) (d : Text) (w : net.World)
      → t.interleaved < 256
      → wire (relay net host channels t d w) ≡ wire w ++ frame t.interleaved d
  unfolding relay
  relay-wire t d w small =
      let channel : t.interleaved % 256 ≡ t.interleaved = omega (arith, small) in
      send-wire t d _
      ∙ ap (λ l. l ++ d) (send-wire t (be16 (length d)) _)
      ∙ ap (λ l. (l ++ be16 (length d)) ++ d) (send-wire t (0x24 ∷ t.interleaved ∷ []) w)
      ∙ append_assoc (wire w ++ (0x24 ∷ t.interleaved ∷ [])) (be16 (length d)) d
      ∙ append_assoc (wire w) (0x24 ∷ t.interleaved ∷ []) (be16 (length d) ++ d)
      ∙ ap (λ c. wire w ++ (0x24 ∷ c ∷ be16 (length d) ++ d)) (sym channel)

  on_read-wire :
      (t : LiveTrack) (ds : List Text) (w : net.World)
      → t.interleaved < 256
      → All IsFull ds
      → wire (on_read net host channels t ds w) ≡ wire w ++ frames t.interleaved ds
  unfolding on_read
  on_read-wire t [] w small full = sym (append-nil _)
  on_read-wire t ([] ∷ ds) w small full = absurd (omega (arith, full.0))
  on_read-wire t ((b ∷ bs) ∷ ds) w small full =
      on_read-wire t ds _ small full.1
      ∙ ap (λ l. l ++ frames t.interleaved ds) (relay-wire t (b ∷ bs) w small)
      ∙ append_assoc (wire w) (frame t.interleaved (b ∷ bs)) (frames t.interleaved ds)

  -- The datagrams that come for a track of a live channel, on a connection that takes all and has been
  -- given nothing yet: a reader of interleaved data gets each of them back, in order, on the track's
  -- channel. The datagrams are not empty and shorter than 2^16.
  pub on_read-deframe :
      (fuel : ℕ) (t : LiveTrack) (ds : List Text) (w : net.World)
      → wire w ≡ []
      → t.interleaved < 256
      → All IsFull ds
      → All IsShort ds
      → length ds < fuel
      → deframe fuel (wire (on_read net host channels t ds w))
        ≡ some (map (λ d. (t.interleaved, d)) ds)
  on_read-deframe fuel t ds w empty small full short enough =
      ap (deframe fuel)
        (on_read-wire t ds w small full ∙ ap (λ l. l ++ frames t.interleaved ds) empty)
      ∙ deframe-frames fuel t.interleaved ds small short enough
