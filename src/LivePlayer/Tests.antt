-- ===== src/LivePlayer/Tests.antt =====
-- A live player with two tracks.
use byron0416_mp.LivePlayer.{
  LiveTrack, LivePlayer, new_track, play, play_tracks, play_track, with_track, set_fd, run_track,
  on_read,
}
use byron0416_mp.LivePlayer.Relay.{on_read-deframe}
use byron0416_mp.LivePlayer.Replay.{play-again}
use byron0416_mp.LiveServer.{Host, LiveChannel}
use byron0416_mp.Mp4Player.Frames.{deframe}
use byron0416_mp.Prelude.{ℕ, ◌≡◌, refl, true, false, List, [], ◌∷◌, none, some, arith}
use byron0416_mp.Socket.Line.{line, wire, line-TakesAll}
use byron0416_mp.Socket
use byron0416_mp.Text.{Text}

abbrev machine : Host (List ℕ)
machine = record {
  read_dir = λ path w. none;
  exists = λ path w. false;
  read_file = λ path w. [];
  register_rd = λ fd w. (true, w);
  unregister = λ fd w. w;
  start_engine = λ w. (true, w);
  stop_engine = λ w. w;
  close_engine = λ w. w;
}

abbrev no_channels : List ℕ → List (Text × LiveChannel)
no_channels w = []

abbrev two : LivePlayer (List ℕ)
two = record { name = []; sdp = []; tracks = new_track ∷ new_track ∷ []; world = [] }

abbrev on_channel : LiveTrack
on_channel = record new_track { rtsp = some 7; interleaved = 2 }

on_read-deframe_example :
    deframe 3
      (wire (on_read line machine no_channels on_channel ((1 ∷ []) ∷ (36 ∷ 2 ∷ []) ∷ []) []))
    ≡ some ((2, 1 ∷ []) ∷ (2, 36 ∷ 2 ∷ []) ∷ [])
on_read-deframe_example =
    on_read-deframe line machine no_channels wire line-TakesAll 3 on_channel
      ((1 ∷ []) ∷ (36 ∷ 2 ∷ []) ∷ []) [] refl (omega arith) (omega arith, (omega arith, tt))
      (omega arith, (omega arith, tt)) (omega arith)

abbrev joined : LiveTrack
joined = record new_track { rtsp = some 7; server = some 8 }

abbrev playing : LivePlayer (List ℕ)
playing = record two { tracks = joined ∷ joined ∷ [] }

play-again_example : play line machine no_channels (some 7) playing ≡ none
unfolding play play_tracks play_track with_track set_fd run_track Socket.attach Socket.take_fd
    Socket.make_non_block Socket.set_non_block Socket.bind Socket.with_socket Socket.after_attach
    Socket.or_close Socket.set_option Socket.bind_to Socket.is_multicast
play-again_example =
    play-again line machine no_channels 7 7 new_track (new_track ∷ []) true two playing refl refl
