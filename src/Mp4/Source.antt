-- ===== src/Mp4/Source.antt =====
-- Mp4.h: CMp4Demuxer as a CRtpSource.
use byron0416_mp.FileSystem.{FileSystem}
use byron0416_mp.Mp4.Hint.{get_rtp_sample}
use byron0416_mp.Mp4.State.{Demuxer, Run, ok, fail}
use byron0416_mp.Mp4.Walk.{parse, close_demuxer, get_track_id, get_sdp, seek_demuxer}
use byron0416_mp.Prelude.{ℕ, Bool, true, false, [], Option, none, some}
use byron0416_mp.Rtp.{RtpSource}

-- The results of the demuxer as the player sees them.
unfoldable pub as_bool : {S A : Type 0} → Run S A → Option (Bool × S)
as_bool (ok a s) = some (true, s)
as_bool (fail s) = some (false, s)
as_bool _ = none

unfoldable pub as_option : {S A : Type 0} → Run S A → Option (Option A × S)
as_option (ok a s) = some (some a, s)
as_option (fail s) = some (none, s)
as_option _ = none

-- CMp4Demuxer as a source. fuel is for Parse's walk over the boxes.
abbrev pub demuxer : FileSystem → ℕ → RtpSource
demuxer fs fuel = record {
  State = Demuxer fs.World;
  parse = λ path m. as_bool (parse fs fuel path m);
  get_duration = λ m. m.duration;
  get_track_id = λ m. (get_track_id m []).0;
  get_sdp = λ id m. get_sdp m id;
  seek = λ pos m. as_bool (seek_demuxer pos m);
  get_rtp_sample = λ id x m. as_option (get_rtp_sample fs id x m);
  close = λ m. close_demuxer fs m;
}
