-- ===== src/Mp4Player/Tests.antt =====
-- A player on a connection that takes all, over a list of samples and over a demuxer at its end.
use byron0416_mp.FileSystem.InMemory.{in_memory}
use byron0416_mp.Mp4.Source.{demuxer}
use byron0416_mp.Mp4.State.{Demuxer, new_track}
use byron0416_mp.Mp4Player.{Mp4Player, goes_on, fault, track_loop, on_timer, send_packets}
use byron0416_mp.Mp4Player.Ends.{on_timer-end}
use byron0416_mp.Mp4Player.Frames.{deframe, send_packets-deframe}
use byron0416_mp.Mp4Player.Pacing.{Due, waits, is_due, Played, track_loop-Played}
use byron0416_mp.Prelude.OrderedMap.{find, nat_key}
use byron0416_mp.Prelude.{ℕ, ◌≡◌, refl, true, List, [], ◌∷◌, Option, none, some, arith}
use byron0416_mp.Rtp.{RtpSample, RtpSource}
use byron0416_mp.Socket.Line.{line, wire, line-TakesAll}
use byron0416_mp.Text.{Text}

-- A source that gives the samples of a list.
abbrev next_of : List RtpSample → Option (Option RtpSample × List RtpSample)
next_of [] = some (none, [])
next_of (x ∷ xs) = some (some x, xs)

abbrev listed : RtpSource
listed = record {
  State = List RtpSample;
  parse = λ path m. some (true, m);
  get_duration = λ m. 0;
  get_track_id = λ m. 1 ∷ [];
  get_sdp = λ id m. [];
  seek = λ pos m. some (true, m);
  get_rtp_sample = λ id x m. next_of m;
  close = λ m. m;
}

abbrev clock : List ℕ → ℕ
clock w = 1000

abbrev no_range : ℕ → Text
no_range n = []

abbrev at : ℕ → RtpSample
at ts = record { timestamp = ts; packets = (ts ∷ 9 ∷ []) ∷ [] }

abbrev player : {T : Type 0} → T → Mp4Player T (List ℕ)
player m = record {
  mp4 = m;
  rtsp = record { fd = some 7; world = [] };
  start_time = 900;
  interleaved = (1, 2) ∷ [];
  samples = (1, at 0) ∷ [];
  timer = 0;
  ended = none;
}

-- Two samples are due at 100, and the third is not.
two-Due : Due listed 1 100 (at 0) (at 40 ∷ at 140 ∷ []) (at 0 ∷ at 40 ∷ []) (at 140) []
two-Due =
    is_due (at 0) (at 40) (at 140) (40 ∷ 9 ∷ []) [] (at 40 ∷ at 140 ∷ []) (at 140 ∷ []) []
      (at 40 ∷ []) (omega arith) (omega arith, tt) refl refl
      (is_due (at 40) (at 140) (at 140) (140 ∷ 9 ∷ []) [] (at 140 ∷ []) [] [] [] (omega arith)
        (omega arith, tt) refl refl (waits (at 140) [] (omega arith)))

track_loop-Played_example :
    (t : Mp4Player (List RtpSample) (List ℕ)) × (track_loop line listed clock no_range 0 3 1 2 100
        (at 0)
        (player (at 40 ∷ at 140 ∷ []))
      ≡ goes_on t)
    × Played line listed clock no_range 0 wire line-TakesAll 1 2 100
        (at 0 ∷ at 40 ∷ [])
        (at 140)
        []
        (player (at 40 ∷ at 140 ∷ []))
        t
unfolding find
track_loop-Played_example =
    track_loop-Played line listed clock no_range 0 wire line-TakesAll 3 1 2 100 (at 0) (at 140)
      (at 40 ∷ at 140 ∷ []) [] (at 0 ∷ at 40 ∷ []) (player (at 40 ∷ at 140 ∷ [])) two-Due refl refl
      (omega arith)

send_packets-deframe_example :
    deframe 3 (
      wire
        (send_packets line listed clock no_range 0 2
          ((1 ∷ []) ∷ (36 ∷ 2 ∷ []) ∷ [])
          (player [])).1.rtsp.world)
    ≡ some ((2, 1 ∷ []) ∷ (2, 36 ∷ 2 ∷ []) ∷ [])
send_packets-deframe_example =
    send_packets-deframe line listed clock no_range 0 wire line-TakesAll 3 2
      ((1 ∷ []) ∷ (36 ∷ 2 ∷ []) ∷ []) (player []) refl (omega arith)
      (omega arith, (omega arith, tt)) (omega arith, (omega arith, tt)) (omega arith)

-- A track all of whose samples have been read.
abbrev ended : Demuxer ℕ
ended = record {
  world = 0;
  fd = some 3;
  duration = 0;
  tracks = (1, record (new_track 7) { id = 1; timescale = 1000 }) ∷ [];
  track = none;
}

on_timer-end_example :
    on_timer line (demuxer (in_memory []) 9) clock no_range 0 5 (player ended) ≡ fault
unfolding find
on_timer-end_example =
    on_timer-end line (in_memory []) 9 clock no_range 0 wire line-TakesAll 4 1 2 (at 0) []
      (record (new_track 7) { id = 1; timescale = 1000 }) (player ended) refl refl refl
      (omega arith) (omega arith, tt) (omega arith)
