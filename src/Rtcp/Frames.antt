-- ===== src/Rtcp/Frames.antt =====
-- What CRtcp::Parse consumes.
use byron0416_mp.Error.{e_ok, e_continue}
use byron0416_mp.Prelude.{
  ℕ, zero, suc, ◌+◌, ◌-◌, ◌^◌, ◌<◌, ◌≤◌, ◌≡◌, ◌⊎◌, refl, List, none, some, arith, sub64, add64,
}
use byron0416_mp.Rtcp.{Parsed, frame_length, take_payload, parse_loop, parse}

-- A frame that begins in a buffer of at least two bytes, with its length not zero: two rounds are
-- enough; the call consumes the length field and as much of the payload as there is, reports E_OK
-- exactly when that is all of it, and keeps count of what is still to come.
pub parse_new_frame :
    (fuel len : ℕ) (buf : List ℕ)
    → 2 ≤ fuel
    → 2 ≤ len
    → len < 2 ^ 63
    → 0 < frame_length buf
    → frame_length buf < 2 ^ 16
    → (r : Parsed) × (parse fuel 0 buf len ≡ some r)
      × (r.len ≤ len)
      × (r.len + r.left ≡ 2 + frame_length buf)
      × ((r.code ≡ e_ok) × (r.left ≡ 0) × (2 + frame_length buf ≤ len)
          ⊎ (r.code ≡ e_continue) × (r.len ≡ len) × (len < 2 + frame_length buf))
unfolding parse parse_loop take_payload
parse_new_frame zero len buf two lo hi pos small = absurd (omega arith)
parse_new_frame (suc zero) len buf two lo hi pos small = absurd (omega arith)
parse_new_frame (suc (suc fuel)) len buf two lo hi pos small = (
  take_payload (frame_length buf) (len - 2) 2,
  ground arith,
  ground arith,
  ground arith,
  ground arith,
)

-- A frame whose rest is still to come: one round is enough, the call consumes bytes of the rest
-- only, and reports E_OK exactly when it has them all.
pub parse_continues :
    (fuel m_len len : ℕ) (buf : List ℕ)
    → 1 ≤ fuel
    → 0 < m_len
    → len < 2 ^ 63
    → (r : Parsed) × (parse fuel m_len buf len ≡ some r)
      × (r.len ≤ len)
      × (r.len + r.left ≡ m_len)
      × ((r.code ≡ e_ok) × (r.left ≡ 0) × (m_len ≤ len)
          ⊎ (r.code ≡ e_continue) × (r.len ≡ len) × (len < m_len))
unfolding parse parse_loop take_payload
parse_continues zero m_len len buf one pos hi = absurd (omega arith)
parse_continues (suc fuel) m_len len buf one pos hi =
    (take_payload m_len len 0, ground arith, ground arith, ground arith, ground arith)

parse_loop-stuck :
    (fuel len used : ℕ) (buf : List ℕ)
    → frame_length buf ≡ 0
    → parse_loop fuel buf (frame_length buf) len used ≡ none
unfolding parse_loop
parse_loop-stuck zero len used buf e = refl
parse_loop-stuck (suc fuel) len used buf e =
    ground (arith, parse_loop-stuck fuel (sub64 len 2) (add64 used 2) buf e)

-- A frame whose length field is zero is never left: the loop reads the same two bytes again, and
-- uses up any fuel.
pub zero_frame-stuck :
    (fuel len : ℕ) (buf : List ℕ) → frame_length buf ≡ 0 → parse fuel 0 buf len ≡ none
unfolding parse parse_loop
zero_frame-stuck zero len buf e = refl
zero_frame-stuck (suc fuel) len buf e = parse_loop-stuck fuel _ _ buf e

-- A frame that is there as a whole.
pub parse-whole :
    (fuel len : ℕ) (buf : List ℕ)
    → 2 ≤ fuel
    → 0 < frame_length buf
    → 2 + frame_length buf ≤ len
    → len < 2 ^ 63
    → parse fuel 0 buf len ≡ some (record { code = e_ok; len = 2 + frame_length buf; left = 0 })
unfolding parse parse_loop take_payload
parse-whole zero len buf two pos whole hi = absurd (omega arith)
parse-whole (suc zero) len buf two pos whole hi = absurd (omega arith)
parse-whole (suc (suc fuel)) len buf two pos whole hi = ground arith
