-- ===== src/LiveServer/Sdp.antt =====
-- CLiveChannel::Parse: the tracks that an SDP file describes.
use byron0416_mp.LiveServer.{Host, ChannelTrack, LiveChannel, run_track}
use byron0416_mp.Prelude.OrderedMap.{insert, nat_key}
use byron0416_mp.Prelude.{
  ℕ, ◌^◌, ◌<◌, ◌≡◌, Bool, true, false, List, [], ◌∷◌, ◌++◌, Option, none, some,
}
use byron0416_mp.Socket.{Net}
use byron0416_mp.Text.{Text, text}
use byron0416_mp.Text.Numbers.{decimal}

-- The two lines of a track, of video or of audio.
abbrev pub avp : Bool → Text
avp true = text " RTP/AVP 96"
avp false = text " RTP/AVP 97"

abbrev pub media_text : Bool → ℕ → Text
media_text true port = text "m=video " ++ (decimal port ++ avp true)
media_text false port = text "m=audio " ++ (decimal port ++ avp false)

abbrev pub track_text : ℕ → Text
track_text id = text "a=control:trackID=" ++ decimal id

-- A track as an SDP file describes it: whether it is video, its number and its port.
pub record Media : Type 0 where
  pub video : Bool
  pub id : ℕ
  pub port : ℕ

-- The two numbers are there, and fit into a size_t.
abbrev pub IsMedia : Media → Type 0
IsMedia m = (0 < m.id) × (m.id < 2 ^ 64) × (0 < m.port) × (m.port < 2 ^ 64)

abbrev pub sdp_lines : List Media → List Text
sdp_lines [] = []
sdp_lines (m ∷ ms) = media_text m.video m.port ∷ track_text m.id ∷ sdp_lines ms

abbrev pub add_all : List Media → List (ℕ × ℕ) → List (ℕ × ℕ)
add_all [] ids = ids
add_all (m ∷ ms) ids = add_all ms (insert m.id m.port ids)

module _ (net : Net) (host : Host net.World) (ip : Text)
    (run : ℕ → net.World → ChannelTrack × net.World)
    (runs : (port : ℕ) (w : net.World)
      → run_track net host ip port (record { server = none; client = none }) w
        ≡ some (true, (run port w).0, (run port w).1)) where
  abbrev W : Type 0
  W = net.World

  abbrev Lines : Type 0
  Lines = ℕ × ℕ → LiveChannel → W → Option (Bool × LiveChannel × W)
