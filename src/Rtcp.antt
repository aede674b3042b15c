-- ===== src/Rtcp.antt =====
-- Rtcp.h and Rtcp.cpp: CRtcp::Parse, which skips the length and the payload of an interleaved frame.
-- The loop takes one unit of fuel for each round; none means that the fuel ran out.
pub mod Frames
mod Tests
use byron0416_mp.Error.{ErrorCode, e_ok, e_continue}
use byron0416_mp.Prelude.{
  ℕ, zero, suc, ◌+◌, ◌-◌, List, [], ◌∷◌, Option, none, some, leb, ◌==◌, if◌then◌else◌, be_value,
  take, sub64, add64,
}

-- What a call leaves: its code, the length that it reports through its argument, and m_Len.
pub record Parsed : Type 0 where
  pub code : ErrorCode
  pub len : ℕ
  pub left : ℕ

-- ntohs of the two bytes at buf. The receive buffer is filled up with zeros behind what was read.
abbrev pub frame_length : List ℕ → ℕ
frame_length [] = be_value 0 (0 ∷ 0 ∷ [])
frame_length (a ∷ []) = be_value 0 (a ∷ 0 ∷ [])
frame_length (a ∷ b ∷ _) = be_value 0 (a ∷ b ∷ [])

-- The branch m_Len > 0.
unfoldable pub take_payload : ℕ → ℕ → ℕ → Parsed
take_payload m_len len used =
    let least = if leb m_len len then m_len else len in
    record {
      code = if m_len - least == 0 then e_ok else e_continue;
      len = add64 used least;
      left = m_len - least;
    }

unfoldable pub parse_loop : ℕ → List ℕ → ℕ → ℕ → ℕ → Option Parsed
parse_loop zero buf m_len len used = none
parse_loop (suc fuel) buf m_len len used =
    let again = parse_loop fuel buf (frame_length buf) (sub64 len 2) (add64 used 2) in
    if m_len == 0 then again else some (take_payload m_len len used)

-- CRtcp::Parse, from the value of m_Len.
unfoldable pub parse : ℕ → ℕ → List ℕ → ℕ → Option Parsed
parse fuel m_len buf len = parse_loop fuel buf m_len len 0
