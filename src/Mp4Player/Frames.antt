-- ===== src/Mp4Player/Frames.antt =====
-- The frames that CMp4Player sends, as a client reads them.
use byron0416_mp.Mp4Player.{Mp4Player, send_packets}
use byron0416_mp.Mp4Player.Pacing.{IsFull, frames, send_packets-Sends}
use byron0416_mp.Prelude.{
  ℕ, zero, suc, ◌≤◌, ◌<◌, ◌%◌, ◌^◌, ◌≡◌, refl, ap, ◌∙◌, List, [], ◌∷◌, ◌++◌, Option, none, some,
  arith, length, map, be_value, be_value-be16, take, drop, take-append, drop-append, length-append,
  leb, le→leb, ◌==◌, All, if◌then◌else◌,
}
use byron0416_mp.Rtp.{RtpPacket, RtpSource}
use byron0416_mp.Socket.{Net}
use byron0416_mp.Socket.Line.{TakesAll}
use byron0416_mp.Text.{Text}

-- One frame in front of what rest reads.
unfoldable pub read_payload :
    (Text → Option (List (ℕ × RtpPacket))) → ℕ → ℕ → Text → Option (List (ℕ × RtpPacket))
read_payload rest il n bs =
    if leb n (length bs)
    then elim (rest (drop n bs)) [ none ↦ none | some fs ↦ some ((il, take n bs) ∷ fs) ]
    else none

-- A reader of interleaved data by RFC 2326 (10.12): a dollar sign, the channel, the length of the
-- packet in network order, and the packet. none is data of another form.
unfoldable pub deframe : ℕ → Text → Option (List (ℕ × RtpPacket))
deframe zero bs = none
deframe (suc fuel) [] = some []
deframe (suc fuel) (c ∷ il ∷ hi ∷ lo ∷ bs) =
    if c == 0x24 then read_payload (λ l. deframe fuel l) il (be_value 0 (hi ∷ lo ∷ [])) bs else none
deframe (suc fuel) _ = none

-- A packet whose length has two bytes.
abbrev pub IsShort : RtpPacket → Type 0
IsShort p = length p < 2 ^ 16

read_payload-front :
    (rest : Text → Option (List (ℕ × RtpPacket))) (il : ℕ) (p : RtpPacket) (bs : Text)
    (fs : List (ℕ × RtpPacket))
    → rest bs ≡ some fs
    → read_payload rest il (length p) (p ++ bs) ≡ some ((il, p) ∷ fs)
unfolding read_payload
read_payload-front rest il p bs fs e =
    let fits : length p ≤ length (p ++ bs) = omega (arith, length-append p bs) in
    rw (le→leb (length p) (length (p ++ bs)) fits, drop-append p bs, e)
      (ap (λ q. some ((il, q) ∷ fs)) (take-append p bs))

pub deframe-frames :
    (fuel il : ℕ) (ps : List RtpPacket)
    → il < 256
    → All IsShort ps
    → length ps < fuel
    → deframe fuel (frames il ps) ≡ some (map (λ p. (il, p)) ps)
unfolding deframe
deframe-frames zero il ps small short enough = absurd (omega arith)
deframe-frames (suc fuel) il [] small short enough = refl
deframe-frames (suc fuel) il (p ∷ ps) small short enough =
    let channel : il % 256 ≡ il = omega (arith, small) in
    rw (channel, be_value-be16 (length p) short.0)
      (read_payload-front (λ l. deframe fuel l) il p (frames il ps) (map (λ q. (il, q)) ps)
        (deframe-frames fuel il ps small short.1 (omega (arith, enough))))

module _ (net : Net) (src : RtpSource) (now : net.World → ℕ) (print_seconds : ℕ → Text) (unset : ℕ)
    (wire : net.World → Text) (law : TakesAll net wire) where
  -- Packets that a player sends on a connection that takes all and has been given nothing yet: a
  -- reader of interleaved data gets them back, each on its channel, with no more and no less in it.
  pub send_packets-deframe :
      (fuel il : ℕ) (ps : List RtpPacket) (s : Mp4Player src.State net.World)
      → wire s.rtsp.world ≡ []
      → il < 256
      → All IsFull ps
      → All IsShort ps
      → length ps < fuel
      → deframe fuel (wire (send_packets net src now print_seconds unset il ps s).1.rtsp.world)
        ≡ some (map (λ p. (il, p)) ps)
  send_packets-deframe fuel il ps s empty small full short enough =
      let sends = (send_packets-Sends net src now print_seconds unset wire law il ps s full).1 in
      ap (deframe fuel) (sends.on_wire ∙ ap (λ l. l ++ frames il ps) empty)
      ∙ deframe-frames fuel il ps small short enough
