-- ===== src/Rtcp/Tests.antt =====
-- CRtcp::Parse on concrete frames.
use byron0416_mp.Error.{e_ok, e_continue}
use byron0416_mp.Prelude.{ℕ, ◌+◌, ◌≤◌, ◌<◌, ◌≡◌, ◌⊎◌, [], ◌∷◌, List, some, arith, be_value}
use byron0416_mp.Rtcp.{Parsed, parse}
use byron0416_mp.Rtcp.Frames.{parse_new_frame}

-- A frame of three bytes, of which two have come.
abbrev frame : List ℕ
frame = 0 ∷ 3 ∷ 7 ∷ 7 ∷ []

parse_new_frame_example :
    (r : Parsed) × (parse 2 0 frame 4 ≡ some r)
    × (r.len ≤ 4)
    × (r.len + r.left ≡ 5)
    × ((r.code ≡ e_ok) × (r.left ≡ 0) × (5 ≤ 4) ⊎ (r.code ≡ e_continue) × (r.len ≡ 4) × (4 < 5))
unfolding be_value
parse_new_frame_example =
    parse_new_frame 2 4 frame (omega arith) (omega arith) (omega arith) (omega arith) (omega arith)
