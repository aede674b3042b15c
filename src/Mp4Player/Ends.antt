-- ===== src/Mp4Player/Ends.antt =====
-- CMp4Player: how playing begins and how it ends.
use byron0416_mp.FileSystem.{FileSystem}
use byron0416_mp.Mp4.Hint.{get_rtp_sample}
use byron0416_mp.Mp4.State.{Demuxer, Track}
use byron0416_mp.Mp4.Source.{demuxer, as_option}
use byron0416_mp.Mp4Player.{
  Mp4Player, Turn, fault, send_packets, with_next, next_sample, and_then, track_loop, tracks_loop,
  end_of_play, on_timer, start_at, resume,
}
use byron0416_mp.Mp4Player.Pacing.{IsFull, send_packets-Sends, after_packets-true}
use byron0416_mp.Prelude.OrderedMap.{find, nat_key}
use byron0416_mp.Prelude.{
  ℕ, suc, ◌+◌, ◌-◌, ◌≤◌, ◌<◌, ◌^◌, ◌≡◌, refl, ap, ◌∙◌, true, List, [], ◌∷◌, some, arith, length,
  get_elem?-none, All, lt→ltb, sub64,
}
use byron0416_mp.Rtp.{RtpSample}
use byron0416_mp.Socket.{Net}
use byron0416_mp.Socket.Line.{TakesAll}
use byron0416_mp.Text.{Text}

module _ (net : Net) (fs : FileSystem) (parse_fuel : ℕ) (now : net.World → ℕ)
    (print_seconds : ℕ → Text) (unset : ℕ) (wire : net.World → Text) (law : TakesAll net wire) where
  abbrev S : Type 0
  S = Mp4Player (Demuxer fs.World) net.World

  -- Behind the last sample of a track, GetRtpSample succeeds and gives no packets.
  get_rtp_sample-end :
      (id : ℕ) (x : RtpSample) (t : Track) (m : Demuxer fs.World)
      → find id m.tracks ≡ some t
      → length t.samples ≤ t.sample_readed
      → as_option (get_rtp_sample fs id x m) ≡ some (some x, m)
  unfolding get_rtp_sample as_option
  get_rtp_sample-end id x t m found over =
      simp (found, get_elem?-none t.samples t.sample_readed over, get_rtp_sample, as_option)

  next_sample-end :
      (again : RtpSample → S → Turn S) (id : ℕ) (x : RtpSample) (t : Track) (s : S)
      → find id s.mp4.tracks ≡ some t
      → length t.samples ≤ t.sample_readed
      → next_sample net (demuxer fs parse_fuel) now print_seconds unset again id x s ≡ fault
  unfolding next_sample with_next
  next_sample-end again id x t s found over =
      simp (
        get_rtp_sample-end id (record x { packets = [] }) t s.mp4 found over,
        next_sample,
        with_next,
      )

  track_loop-end :
      (fuel id il elapsed : ℕ) (x : RtpSample) (t : Track) (s : S)
      → find id s.mp4.tracks ≡ some t
      → length t.samples ≤ t.sample_readed
      → All IsFull x.packets
      → x.timestamp < elapsed
      → track_loop net (demuxer fs parse_fuel) now print_seconds unset (suc fuel) id il elapsed x s
        ≡ fault
  unfolding track_loop
  track_loop-end fuel id il elapsed x t s found over full early =
      let sent = send_packets net (demuxer fs parse_fuel) now print_seconds unset il x.packets s in
      let (all, sends) =
        send_packets-Sends net (demuxer fs parse_fuel) now print_seconds unset wire law il x.packets
          s full in
      rw (lt→ltb x.timestamp elapsed early, track_loop)
        (after_packets-true net (demuxer fs parse_fuel) now print_seconds unset wire law _ id x sent
            all
          ∙ next_sample-end _ id x t sent.1 (ap (λ m. find id m.tracks) sends.same_source ∙ found)
              over)

  -- The end of a file: when the first track's last sample is due, and the connection takes it, OnTimer
  -- erases the track's entry and then advances the iterator that it has erased, which is a fault.
  pub on_timer-end :
      (fuel id il : ℕ) (x : RtpSample) (rest : List (ℕ × RtpSample)) (t : Track) (s : S)
      → s.samples ≡ (id, x) ∷ rest
      → find id s.interleaved ≡ some il
      → find id s.mp4.tracks ≡ some t
      → length t.samples ≤ t.sample_readed
      → All IsFull x.packets
      → x.timestamp < sub64 (now s.rtsp.world) s.start_time
      → on_timer net (demuxer fs parse_fuel) now print_seconds unset (suc fuel) s ≡ fault
  unfolding on_timer tracks_loop and_then
  on_timer-end fuel id il x rest t s first chosen found over full early =
      let elapsed = sub64 (now s.rtsp.world) s.start_time in
      ap
        (λ l.
          and_then net (demuxer fs parse_fuel) now print_seconds unset
            (end_of_play net (demuxer fs parse_fuel) now print_seconds unset)
            (tracks_loop net (demuxer fs parse_fuel) now print_seconds unset (suc fuel) elapsed l
              s))
        first
      ∙ rw (chosen, tracks_loop, track_loop-end fuel id il elapsed x t s found over full early) refl

-- From Resume on, the time that OnTimer compares with is that of the first sample when it is resumed,
-- and runs with the clock, without a wrap-around that shows, even where the position is later than
-- the clock's start.
pub resume-elapsed :
    {T W : Type 0} (now later id : ℕ) (x : RtpSample) (rest : List (ℕ × RtpSample))
    (s : Mp4Player T W)
    → s.samples ≡ (id, x) ∷ rest
    → now ≤ later
    → later < 2 ^ 63
    → x.timestamp < 2 ^ 63
    → ((resume now s).0 ≡ true)
      × (sub64 later (resume now s).1.start_time ≡ x.timestamp + (later - now))
unfolding resume start_at
resume-elapsed now later id x rest s first order small fits =
    (rw (first, resume) refl, rw (first, resume) (omega (arith, order, small, fits)))
