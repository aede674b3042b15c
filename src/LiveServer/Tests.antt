-- ===== src/LiveServer/Tests.antt =====
-- A channel on a machine with one directory.
use byron0416_mp.LiveServer.{
  Host, LiveChannel, new_channel, on_timer, visit_entries, visit_entry, drop_gone, gone_channel,
  ChannelTrack, run_channel, stop_channel,
}
use byron0416_mp.LiveServer.Channels.{on_timer-Keeps}
use byron0416_mp.LiveServer.Ledger.{IsApart, IsLost, held}
use byron0416_mp.LiveServer.Ledger.Channel.{run-stop}
use byron0416_mp.Prelude.OrderedMap.{find}
use byron0416_mp.Prelude.{ℕ, ◌+◌, ◌≡◌, refl, Bool, true, false, List, [], ◌∷◌, ◌++◌, some}
use byron0416_mp.LiveServer.Sdp.{Media}
use byron0416_mp.Process.{Resource, descriptor, one}
use byron0416_mp.Socket
use byron0416_mp.Socket.{Net, connected}
use byron0416_mp.Socket.Lending.{Lent, lent, lending, lending-IsLedger}
use byron0416_mp.Socket.Line.{line}
use byron0416_mp.Text.{Text, text, text_key, text_eq, find_text, starts_with}

abbrev machine : Host (List ℕ)
machine = record {
  read_dir = λ path w. some ((text "a", true) ∷ []);
  exists = λ path w. true;
  read_file = λ path w. [];
  register_rd = λ fd w. (true, w);
  unregister = λ fd w. w;
  start_engine = λ w. (true, w);
  stop_engine = λ w. w;
  close_engine = λ w. w;
}

abbrev running : List (Text × LiveChannel)
running = (text "a.sdp", new_channel) ∷ []

on_timer-Keeps_example : find (text "a.sdp") running ≡ some new_channel
unfolding on_timer visit_entries visit_entry drop_gone gone_channel find text_eq find_text
    starts_with
on_timer-Keeps_example =
    on_timer-Keeps line machine (text "1.1.1.1") (text "/") (text "a.sdp") running running
      new_channel [] [] refl (λ u. refl) refl

-- A system on which every socket can be had.
abbrev open_net : Net
open_net = record line { connect = λ fd ip port w. (connected, w) }

abbrev run : ℕ → List ℕ → ChannelTrack × List ℕ
run port w = (record { server = some 8; client = some 8 }, w)

abbrev movie : List Media
movie =
    record { video = true; id = 1; port = 5004 }
    ∷ record { video = false; id = 2; port = 5006 }
    ∷ []

-- A directory with an SDP file of one track.
abbrev disk : Host Lent
disk = record {
  read_dir = λ path w. some ((text "b_5004.sdp", false) ∷ []);
  exists = λ path w. true;
  read_file = λ path w. text "m=video 5004 RTP/AVP 96" ++ (10 ∷ text "a=control:trackID=1");
  register_rd = λ fd w. (true, w);
  unregister = λ fd w. w;
  start_engine = λ w. (true, w);
  stop_engine = λ w. w;
  close_engine = λ w. w;
}

disk-IsApart : IsApart lending lent disk
disk-IsApart = record {
  register_keeps = λ fd w x. refl;
  unregister_keeps = λ fd w x. refl;
  start_keeps = λ w x. refl;
  stop_keeps = λ w x. refl;
  close_keeps = λ w x. refl;
}

run-stop_example :
    (b : Bool) × (ch : LiveChannel) × (u : Lent) × (run_channel lending disk
        (text "1.1.1.1")
        (text "/live/b")
        new_channel
        (one (descriptor 3), 4)
      ≡ some (b, ch, u))
    × (lost : ChannelTrack) × IsLost lending disk
        (text "1.1.1.1")
        lent
        lending-IsLedger
        disk-IsApart
        (one (descriptor 3), 4)
        ch
        lost
    × ((x : Resource)
        → lent (stop_channel lending disk (text "1.1.1.1") ch u).1 x
          ≡ one (descriptor 3) x + (held x lost.server + held x lost.client))
run-stop_example =
    run-stop lending disk (text "1.1.1.1") lent lending-IsLedger disk-IsApart (text "/live/b")
      (one (descriptor 3), 4)
