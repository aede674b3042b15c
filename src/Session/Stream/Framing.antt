-- ===== src/Session/Stream/Framing.antt =====
-- The loop of CRtspSession::OnRead over an interleaved RTCP frame and the bytes behind it.
use mathlib.Core.List.{append-nil}
use byron0416_mp.Error.{e_ok, e_continue}
use byron0416_mp.Event.{Epoll}
use byron0416_mp.Http.Request.{Request, parse, parse_whole}
use byron0416_mp.Player.{RtpPlayer}
use byron0416_mp.Prelude.{
  ℕ, suc, ◌+◌, ◌-◌, ◌≤◌, ◌<◌, ◌^◌, ◌≡◌, refl, ap, ◌∙◌, true, false, [], ◌∷◌, ◌++◌, ◌==◌, ◌&&◌, none,
  some, arith, inl, inr, Bool-cases, length, drop-append, replicate, sub64, ltb, be_value,
  le→ltb-false, if◌then◌else◌,
}
use byron0416_mp.Rtcp
use byron0416_mp.Rtcp.Frames.{parse-whole}
use byron0416_mp.Session.{Session, ReadMs}
use byron0416_mp.Session.Stream.{
  Progress, waits, after_frame, after_request, first_byte, request_bytes, frame_bytes, round,
  read_loop, buffer,
}
use byron0416_mp.Text.{Text, crlf, find_text, c_prefix}

-- Parse of a buffer of zeros.
parse-zeros :
    (r : Request) (z : Text) (len : ℕ)
    → length r.request ≤ 2048
    → find_text (crlf ++ crlf) r.request ≡ none
    → parse r (0 ∷ z) len ≡ record { code = e_continue; len = len; request = r }
unfolding parse c_prefix
parse-zeros r z len small absent =
    rw (append-nil r.request)
      (unfold parse_whole in rw (le→ltb-false 2048 (length r.request) small, absent) refl)

module _ (ep : Epoll) (event : ℕ) (mp4_ops live_ops : RtpPlayer) (read_ms : ReadMs) where
  abbrev S : Type 0
  S = Session ep.World mp4_ops.State live_ops.State

  -- A whole frame in what is left of the read: all that is left is taken off the buffer, and the
  -- length that is left is the frame's less what there was.
  frame_bytes-whole :
      (fuel : ℕ) (again : S → Text → ℕ → Progress S) (s : S) (hi lo : ℕ) (body z : Text)
      → 2 ≤ fuel
      → s.rtcp_left ≡ 0
      → 0 < be_value 0 (hi ∷ lo ∷ [])
      → be_value 0 (hi ∷ lo ∷ []) ≤ length body
      → length body < 2 ^ 16
      → frame_bytes ep event mp4_ops live_ops read_ms fuel again s
          (hi ∷ lo ∷ body ++ z)
          (length (hi ∷ lo ∷ body))
        ≡ again
            (record s { type = 0; rtcp_left = 0 })
            z
            (sub64 (2 + be_value 0 (hi ∷ lo ∷ [])) (length (hi ∷ lo ∷ body)))
  unfolding frame_bytes
  frame_bytes-whole fuel again s hi lo body z two at_start pos whole small =
      let buf : Text = hi ∷ lo ∷ body ++ z in
      let there : ((s.rtcp_left == 0) && ltb (length buf) 2) ≡ false = ground (arith, at_start) in
      let parsed : Rtcp.parse fuel s.rtcp_left buf (length (hi ∷ lo ∷ body))
          ≡ some (record { code = e_ok; len = 2 + be_value 0 (hi ∷ lo ∷ []); left = 0 }) =
        ap (λ m. Rtcp.parse fuel m buf (length (hi ∷ lo ∷ body))) at_start
        ∙ parse-whole fuel (length (hi ∷ lo ∷ body)) buf two pos (omega (arith, whole))
            (omega (arith, small)) in
      rw (there, parsed, frame_bytes)
        (unfold after_frame in
          ap
            (λ t.
              again (record s { type = 0; rtcp_left = 0 }) t
                (sub64 (2 + be_value 0 (hi ∷ lo ∷ [])) (length (hi ∷ lo ∷ body))))
            (drop-append (hi ∷ lo ∷ body) z))

  -- Where the loop goes on with zeros, the session waits for the end of a request.
  zeros-waits :
      (fuel left : ℕ) (s : S) (z : Text)
      → s.type ≡ 0
      → length s.request.request ≤ 2048
      → find_text (crlf ++ crlf) s.request.request ≡ none
      → read_loop ep event mp4_ops live_ops read_ms (suc (suc fuel)) s (0 ∷ z) (suc left)
        ≡ waits (record s { type = 1 })
  unfolding read_loop round first_byte request_bytes
  zeros-waits fuel left s z nought small absent =
      let is : (s.type == 0) ≡ true = ground (arith, nought) in
      rw (is, round, parse-zeros s.request z (suc left) small absent) (unfold after_request in refl)

  -- With m of n bytes taken, the length that is left is nothing, or about 2^64.
  left-waits :
      (fuel m n : ℕ) (s : S) (z : Text)
      → s.type ≡ 0
      → length s.request.request ≤ 2048
      → find_text (crlf ++ crlf) s.request.request ≡ none
      → m ≤ n
      → n < 2 ^ 16
      → read_loop ep event mp4_ops live_ops read_ms
          (suc (suc fuel))
          s
          (0 ∷ z)
          (sub64 (2 + m) (suc (suc n)))
        ≡ waits (record s { type = if m == n then 0 else 1 })
  left-waits fuel m n s z nought short absent le small = elim (Bool-cases (m == n)) [
    | inl same ↦
        let nothing : sub64 (2 + m) (suc (suc n)) ≡ 0 = ground (arith, same, small) in
        rw (nothing, same) (unfold read_loop in ap (λ k. waits (record s { type = k })) nought)
    | inr other ↦
        let lt : m < n = ground (arith, other, le) in
        let much : sub64 (2 + m) (suc (suc n)) ≡ suc (2 ^ 64 - (n - m) - 1) =
          omega (arith, lt, small) in
        rw (much, other) (zeros-waits fuel (2 ^ 64 - (n - m) - 1) s z nought short absent)
  ]

  -- The two rounds that take a frame.
  frame-taken :
      (fuel : ℕ) (s : S) (ch hi lo : ℕ) (body z : Text)
      → s.type ≡ 0
      → s.rtcp_left ≡ 0
      → 0 < be_value 0 (hi ∷ lo ∷ [])
      → be_value 0 (hi ∷ lo ∷ []) ≤ length body
      → length body < 2 ^ 16
      → read_loop ep event mp4_ops live_ops read_ms
          (suc (suc fuel))
          s
          (b'$' ∷ ch ∷ hi ∷ lo ∷ body ++ z)
          (length (b'$' ∷ ch ∷ hi ∷ lo ∷ body))
        ≡ read_loop ep event mp4_ops live_ops read_ms fuel
            (record s { type = 0; rtcp_left = 0 })
            z
            (sub64 (2 + be_value 0 (hi ∷ lo ∷ [])) (length (hi ∷ lo ∷ body)))
  unfolding read_loop round first_byte
  frame-taken fuel s ch hi lo body z nought at_start pos whole small =
      let is : (s.type == 0) ≡ true = ground (arith, nought) in
      let off : sub64 (length (b'$' ∷ ch ∷ hi ∷ lo ∷ body)) 2 ≡ length (hi ∷ lo ∷ body) =
        omega (arith, small) in
      rw (is, round, off)
        (frame_bytes-whole _ _ (record s { type = 2 }) hi lo body z (omega arith) at_start pos whole
          small)

  -- A read that begins with a whole RTCP frame: the frame is skipped, and the session is as before
  -- where the read ends with the frame. But where more bytes follow in the same read, none of them is
  -- looked at: they are dropped, whatever they are, and the session takes what comes next for the rest
  -- of a request.
  pub read_loop-frame :
      (fuel : ℕ) (s : S) (ch hi lo : ℕ) (body : Text)
      → s.type ≡ 0
      → s.rtcp_left ≡ 0
      → length s.request.request ≤ 2048
      → find_text (crlf ++ crlf) s.request.request ≡ none
      → 0 < be_value 0 (hi ∷ lo ∷ [])
      → be_value 0 (hi ∷ lo ∷ []) ≤ length body
      → length body ≤ 1020
      → 4 ≤ fuel
      → read_loop ep event mp4_ops live_ops read_ms fuel s
          (buffer (b'$' ∷ ch ∷ hi ∷ lo ∷ body))
          (length (b'$' ∷ ch ∷ hi ∷ lo ∷ body))
        ≡ waits (record s {
          type = if be_value 0 (hi ∷ lo ∷ []) == length body then 0 else 1;
          rtcp_left = 0;
        })
  read_loop-frame (suc (suc (suc (suc fuel)))) s ch hi lo body nought at_start short absent pos
        whole small four =
      let zeros : 1025 - length (b'$' ∷ ch ∷ hi ∷ lo ∷ body) ≡ suc (1020 - length body) =
        omega (arith, small) in
      rw zeros (
        frame-taken (suc (suc fuel)) s ch hi lo body (0 ∷ replicate (1020 - length body) 0) nought
          at_start pos whole (omega (arith, small))
        ∙ left-waits fuel (be_value 0 (hi ∷ lo ∷ [])) (length body)
            (record s { type = 0; rtcp_left = 0 }) (replicate (1020 - length body) 0) refl short
            absent whole (omega (arith, small)))
  read_loop-frame _ s ch hi lo body nought at_start short absent pos whole small four =
      absurd (omega arith)
