-- ===== src/Mp4Player/Pacing.antt =====
-- CMp4Player::OnTimer: which samples are sent when, and what the client reads.
use mathlib.Core.List.{append_assoc, append-nil}
use byron0416_mp.Mp4Player.{
  Mp4Player, Turn, goes_on, send, send_packet, unless_failed, send_packets, with_next, next_sample,
  after_packets, wait_for, track_loop,
}
use byron0416_mp.Prelude.OrderedMap.{assign, find, nat_key, find-assign, beq_refl}
use byron0416_mp.Prelude.{
  ℕ, zero, suc, ◌≤◌, ◌<◌, ◌%◌, ◌≡◌, refl, ap, sym, ◌∙◌, Bool, true, false, List, [], ◌∷◌, ◌++◌,
  some, arith, length, be16, All, lt→ltb, le→ltb-false,
}
use byron0416_mp.Rtp.{RtpPacket, RtpSample, RtpSource}
use byron0416_mp.Socket.{Net}
use byron0416_mp.Socket.Line.{TakesAll}
use byron0416_mp.Socket
use byron0416_mp.Text.{Text}

-- What RFC 2326 (10.12) puts on the connection for a packet, and for the packets of some samples.
abbrev pub frame : ℕ → RtpPacket → Text
frame il p = 0x24 ∷ (il % 256) ∷ be16 (length p) ++ p

abbrev pub frames : ℕ → List RtpPacket → Text
frames il [] = []
frames il (p ∷ ps) = frame il p ++ frames il ps

abbrev pub sample_frames : ℕ → List RtpSample → Text
sample_frames il [] = []
sample_frames il (x ∷ xs) = frames il x.packets ++ sample_frames il xs

-- A packet is not empty.
abbrev pub IsFull : RtpPacket → Type 0
IsFull p = 0 < length p

-- From the sample x on, what the source gives for a track up to the first sample that is not due: xs
-- are due at elapsed, y is not.
pub data Due (src : RtpSource) (id elapsed : ℕ)
    : RtpSample → src.State → List RtpSample → RtpSample → src.State → Type 0 where
  waits : (x : RtpSample) (m : src.State) → elapsed ≤ x.timestamp → Due src id elapsed x m [] x m
  is_due :
      (x x' y : RtpSample) (p : RtpPacket) (ps : List RtpPacket) (m m' m'' : src.State)
      (xs : List RtpSample)
      → x.timestamp < elapsed
      → All IsFull x.packets
      → src.get_rtp_sample id (record x { packets = [] }) m ≡ some (some x', m')
      → x'.packets ≡ p ∷ ps
      → Due src id elapsed x' m' xs y m''
      → Due src id elapsed x m (x ∷ xs) y m''

module _ (net : Net) (src : RtpSource) (now : net.World → ℕ) (print_seconds : ℕ → Text) (unset : ℕ)
    (wire : net.World → Text) (law : TakesAll net wire) where
  abbrev S : Type 0
  S = Mp4Player src.State net.World

  -- Sending changes what is on the wire, and nothing else of the player.
  pub record Sends (bs : Text) (s t : S) : Type 0 where
    pub on_wire : wire t.rtsp.world ≡ wire s.rtsp.world ++ bs
    pub same_source : t.mp4 ≡ s.mp4
    pub same_samples : t.samples ≡ s.samples

  Sends-trans : (a b : Text) (s t u : S) → Sends a s t → Sends b t u → Sends (a ++ b) s u
  Sends-trans a b s t u f g = record {
    on_wire = g.on_wire ∙ ap (λ l. l ++ b) f.on_wire ∙ append_assoc (wire s.rtsp.world) a b;
    same_source = g.same_source ∙ f.same_source;
    same_samples = g.same_samples ∙ f.same_samples;
  }

  send-Sends : (bs : Text) (s : S) → Sends bs s (send net src now print_seconds unset bs s).1
  unfolding send Socket.send
  send-Sends bs s = record {
    on_wire = law.delivers s.rtsp.fd bs s.rtsp.world;
    same_source = refl;
    same_samples = refl;
  }

  send_packet-Sends :
      (il : ℕ) (p : RtpPacket) (s : S)
      → Sends (frame il p) s (send_packet net src now print_seconds unset il p s).1
  unfolding send_packet
  send_packet-Sends il p s =
      Sends-trans (0x24 ∷ (il % 256) ∷ []) (be16 (length p) ++ p) s _ _ (send-Sends _ s)
        (Sends-trans (be16 (length p)) p _ _ _ (send-Sends _ _) (send-Sends p _))

  send_packet-true :
      (il : ℕ) (p : RtpPacket) (s : S)
      → IsFull p
      → (send_packet net src now print_seconds unset il p s).0 ≡ true
  unfolding send_packet send Socket.send
  send_packet-true il p s full = rw (law.takes _ p _) (lt→ltb 0 (length p) full)

  unless_failed-true :
      (f : S → Bool × S) (r : Bool × S)
      → r.0 ≡ true
      → unless_failed net src now print_seconds unset f r ≡ f r.1
  unfolding unless_failed
  unless_failed-true f (true, s) h = refl
  unless_failed-true f (false, s) h = absurd (cc)

  pub after_packets-true :
      (again : RtpSample → S → Turn S) (id : ℕ) (x : RtpSample) (r : Bool × S)
      → r.0 ≡ true
      → after_packets net src now print_seconds unset again id x r
        ≡ next_sample net src now print_seconds unset again id x r.1
  unfolding after_packets
  after_packets-true again id x (true, s) h = refl
  after_packets-true again id x (false, s) h = absurd (cc)

  -- The packets of a sample, all of which are sent.
  pub send_packets-Sends :
      (il : ℕ) (ps : List RtpPacket) (s : S)
      → All IsFull ps
      → ((send_packets net src now print_seconds unset il ps s).0 ≡ true)
        × Sends (frames il ps) s (send_packets net src now print_seconds unset il ps s).1
  unfolding send_packets
  send_packets-Sends il [] s full =
      (refl, record { on_wire = sym (append-nil _); same_source = refl; same_samples = refl })
  send_packets-Sends il (p ∷ ps) s full =
      let first = send_packet net src now print_seconds unset il p s in
      let more = send_packets-Sends il ps first.1 full.1 in
      let all =
        unless_failed-true (send_packets net src now print_seconds unset il ps) first
          (send_packet-true il p s full.0) in
      rw all
        (more.0, Sends-trans (frame il p) (frames il ps) s _ _ (send_packet-Sends il p s) more.1)

  next_sample-some :
      (again : RtpSample → S → Turn S) (id : ℕ) (x x' : RtpSample) (p : RtpPacket)
      (ps : List RtpPacket) (s : S) (m : src.State)
      → src.get_rtp_sample id (record x { packets = [] }) s.mp4 ≡ some (some x', m)
      → x'.packets ≡ p ∷ ps
      → next_sample net src now print_seconds unset again id x s
        ≡ again x' (record s { mp4 = m; samples = assign id x' s.samples })
  unfolding next_sample with_next
  next_sample-some again id x x' p ps s m e some_packets =
      simp (e, some_packets, next_sample, with_next)

  -- What a turn over a track comes to: the frames xs are on the wire, the source has moved to m, y is
  -- the track's next sample, and the timer is set for it.
  pub record Played (id il elapsed : ℕ) (xs : List RtpSample) (y : RtpSample) (m : src.State)
      (s t : S) : Type 0 where
    pub on_wire : wire t.rtsp.world ≡ wire s.rtsp.world ++ sample_frames il xs
    pub source : t.mp4 ≡ m
    pub next : find id t.samples ≡ some y
    pub timer : t.timer ≡ wait_for net src now print_seconds unset elapsed y.timestamp

  Played-after :
      (id il elapsed : ℕ) (xs : List RtpSample) (x y : RtpSample) (m : src.State) (s t u : S)
      → wire t.rtsp.world ≡ wire s.rtsp.world ++ frames il x.packets
      → Played id il elapsed xs y m t u
      → Played id il elapsed (x ∷ xs) y m s u
  Played-after id il elapsed xs x y m s t u first more = record {
    on_wire =
        more.on_wire
        ∙ ap (λ l. l ++ sample_frames il xs) first
        ∙ append_assoc (wire s.rtsp.world) (frames il x.packets) (sample_frames il xs);
    source = more.source;
    next = more.next;
    timer = more.timer;
  }

  find-assign_self :
      (id : ℕ) (x x' : RtpSample) (ms : List (ℕ × RtpSample))
      → find id ms ≡ some x
      → find id (assign id x' ms) ≡ some x'
  find-assign_self id x x' ms h = find-assign id id x' x ms h ∙ rw (beq_refl id) refl

  -- OnTimer's loop over a track, on a connection that takes all: it ends, with one unit of fuel more
  -- than there are samples that are due; the client is sent the frames of exactly those, in order,
  -- and none of the sample that is not due, for which the timer is set.
  pub track_loop-Played :
      (fuel id il elapsed : ℕ) (x y : RtpSample) (m m' : src.State) (xs : List RtpSample) (s : S)
      → Due src id elapsed x m xs y m'
      → s.mp4 ≡ m
      → find id s.samples ≡ some x
      → length xs < fuel
      → (t : S) × (track_loop net src now print_seconds unset fuel id il elapsed x s ≡ goes_on t)
        × Played id il elapsed xs y m' s t
  unfolding track_loop
  track_loop-Played zero id il elapsed x y m m' xs s due at_m at_x enough = absurd (omega arith)
  track_loop-Played (suc fuel) id il elapsed _ _ _ _ _ s (waits x m late) at_m at_x enough = (
    record s { timer = wait_for net src now print_seconds unset elapsed x.timestamp },
    rw (le→ltb-false x.timestamp elapsed late, track_loop) refl,
    record { on_wire = sym (append-nil _); source = at_m; next = at_x; timer = refl },
  )
  track_loop-Played (suc fuel) id il elapsed _ _ _ _ _ s
        (is_due x x' y p ps m m' m'' xs early full gives some_packets due) at_m at_x enough =
      let sent = send_packets net src now print_seconds unset il x.packets s in
      let (all, sends) = send_packets-Sends il x.packets s full in
      let u : S = record sent.1 { mp4 = m'; samples = assign id x' sent.1.samples } in
      let gives_there : src.get_rtp_sample id (record x { packets = [] }) sent.1.mp4
          ≡ some (some x', m') =
        ap (λ k. src.get_rtp_sample id (record x { packets = [] }) k) (sends.same_source ∙ at_m)
        ∙ gives in
      let at_x' : find id u.samples ≡ some x' =
        find-assign_self id x x' sent.1.samples (ap (find id) sends.same_samples ∙ at_x) in
      let (t, ends, played) =
        track_loop-Played fuel id il elapsed x' y m' m'' xs u due refl at_x'
          (omega (arith, enough)) in
      (
        t,
        rw (lt→ltb x.timestamp elapsed early, track_loop)
            (after_packets-true _ id x sent all
              ∙ next_sample-some _ id x x' p ps sent.1 m' gives_there some_packets
              ∙ ends),
        Played-after id il elapsed xs x y m'' s u t sends.on_wire played,
      )
