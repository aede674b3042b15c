-- ===== src/Session/Stream/Reading.antt =====
-- The loop of CRtspSession::OnRead over what came in one read: RTSP requests without frames.
use byron0416_mp.Error.{ErrorCode, e_ok, e_continue, e_entitytoolarge}
use byron0416_mp.Event.{Epoll}
use byron0416_mp.Http.Request.{Parsed, Request, parse, parse_whole}
use byron0416_mp.Http.Request.Consumed.{IsCString}
use byron0416_mp.Http.Request.Cases.{parse-Cases}
use byron0416_mp.Player.{RtpPlayer}
use byron0416_mp.Prelude.{
  ℕ, zero, suc, ◌+◌, ◌-◌, ◌*◌, ◌^◌, ◌≤◌, ◌<◌, ◌≡◌, ◌≢◌, ◌⊎◌, refl, ap, ◌∙◌, true, false, [], ◌∷◌,
  ◌++◌, ◌==◌, replicate, none, some, arith, inl, inr, Option-cases, drop, length, All, sub64,
  length-drop,
}
use byron0416_mp.Session.{Session, ReadMs, process_request}
use byron0416_mp.Session.Answers.{process_request-IsAnswer, process_request-empty}
use byron0416_mp.Session.Stream.{
  Progress, waits, fault, close, first_byte, after_request, request_bytes, round, read_loop, buffer,
}
use byron0416_mp.Text.{Text, crlf, find_text, c_prefix, starts_with}

drop-front : (n : ℕ) (a b : Text) → n ≤ length a → drop n (a ++ b) ≡ drop n a ++ b
drop-front zero a b h = refl
drop-front (suc n) [] b h = absurd (omega arith)
drop-front (suc n) (c ∷ cs) b h = drop-front n cs b (omega arith)

All-drop : (P : ℕ → Type 0) (n : ℕ) (a : Text) → All P a → All P (drop n a)
All-drop P zero a h = h
All-drop P (suc n) [] h = h
All-drop P (suc n) (c ∷ cs) h = All-drop P n cs h.1

-- Parse sees what stands in front of the first zero.
c_prefix-zero : (a z : Text) → IsCString a → c_prefix (a ++ 0 ∷ z) ≡ c_prefix a
unfolding c_prefix
c_prefix-zero [] z h = refl
c_prefix-zero (c ∷ cs) z h = ground (arith, c_prefix-zero cs z h.1)

parse-zero : (r : Request) (a z : Text) (l : ℕ) → IsCString a → parse r (a ++ 0 ∷ z) l ≡ parse r a l
unfolding parse
parse-zero r a z l h = ap (λ t. parse_whole r (r.request ++ t) l) (c_prefix-zero a z h)

-- A byte of a request, where no frame begins.
abbrev pub IsPlain : ℕ → Type 0
IsPlain c = (0 < c) × (c ≢ b'$')

plain-IsCString : (a : Text) → All IsPlain a → IsCString a
plain-IsCString [] h = tt
plain-IsCString (c ∷ cs) h = (h.0.0, plain-IsCString cs h.1)

module _ (ep : Epoll) (event : ℕ) (mp4_ops live_ops : RtpPlayer) (read_ms : ReadMs) where
  abbrev S : Type 0
  S = Session ep.World mp4_ops.State live_ops.State

  -- No frame is being read, and the request that has begun lacks its end.
  pub record IsReady (s : S) : Type 0 where
    pub kind : (s.type ≡ 0) ⊎ (s.type ≡ 1)
    pub unfinished : find_text (crlf ++ crlf) s.request.request ≡ none

  processed-IsReady :
      (s s' : S)
      → process_request ep event mp4_ops live_ops read_ms s ≡ some s'
      → s.type ≡ 0
      → IsReady s'
  unfolding find_text starts_with
  processed-IsReady s s' e h = record {
    kind = inl ((process_request-IsAnswer ep event mp4_ops live_ops read_ms s s' e).kept_type ∙ h);
    unfinished =
        ap (λ q. find_text (crlf ++ crlf) q.request)
          (process_request-empty ep event mp4_ops live_ops read_ms s s' e);
  }

  -- A session behind the call of Parse on the bytes that are left.
  abbrev parsed : S → Text → Parsed
  parsed t a = parse t.request a (length a)

  abbrev pub asked : S → Text → S
  asked t a = record t { request = (parsed t a).request }

  -- The sessions, with the bytes that are left, that the loop comes to from s₀ with the bytes bs: a
  -- request begins, or one that is complete is answered.
  pub data Comes (s₀ : S) (bs : Text) : S → Text → Type 0 where
    here : Comes s₀ bs s₀ bs
    begins :
        (t : S) (a : Text) → Comes s₀ bs t a → t.type ≡ 0 → Comes s₀ bs (record t { type = 1 }) a
    answered :
        (t u : S) (a : Text)
        → Comes s₀ bs t a
        → t.type ≡ 1
        → (parsed t a).code ≡ e_ok
        → process_request ep event mp4_ops live_ops read_ms (record (asked t a) { type = 0 })
          ≡ some u
        → Comes s₀ bs u (drop (parsed t a).len a)

  -- How the loop may end, at a session that it has come to: with no byte left; with the beginning of
  -- a request in m_Request; with what Close does behind a bad one; or with the fault of a handler.
  pub data Ends (s₀ : S) (bs : Text) : Progress S → Type 0 where
    rests : (t : S) → Comes s₀ bs t [] → IsReady t → Ends s₀ bs (waits t)
    pauses :
        (t : S) (a : Text)
        → Comes s₀ bs t a
        → t.type ≡ 1
        → (parsed t a).code ≡ e_continue
        → IsReady (asked t a)
        → Ends s₀ bs (waits (asked t a))
    shuts :
        (t : S) (a : Text)
        → Comes s₀ bs t a
        → t.type ≡ 1
        → (parsed t a).code ≢ e_ok
        → (parsed t a).code ≢ e_continue
        → Ends s₀ bs (close ep event mp4_ops live_ops read_ms (asked t a))
    breaks :
        (t : S) (a : Text)
        → Comes s₀ bs t a
        → t.type ≡ 1
        → (parsed t a).code ≡ e_ok
        → process_request ep event mp4_ops live_ops read_ms (record (asked t a) { type = 0 }) ≡ none
        → Ends s₀ bs fault

  module _ (s₀ : S) (bs : Text) where
    -- What the rest of the loop does with the bytes that are left, whatever the session is then.
    abbrev Goes : (S → Text → ℕ → Progress S) → ℕ → Type 0
    Goes again least =
        (t : S) (a z : Text)
        → Comes s₀ bs t a
        → IsReady t
        → All IsPlain a
        → length a < 2 ^ 63
        → 2 * length a + 2 ≤ least + t.type
        → Ends s₀ bs (again t (a ++ 0 ∷ z) (length a))

    after_request-Ends :
        (again : S → Text → ℕ → Progress S) (least : ℕ) (code : ErrorCode) (s : S) (a z : Text)
        → Goes again least
        → ((t : S)
            → code ≡ e_ok
            → process_request ep event mp4_ops live_ops read_ms (record s { type = 0 }) ≡ some t
            → Comes s₀ bs t a)
        → (code ≡ e_ok
            → process_request ep event mp4_ops live_ops read_ms (record s { type = 0 }) ≡ none
            → Ends s₀ bs fault)
        → (code ≢ e_ok → code ≢ e_continue → Ends s₀ bs (close ep event mp4_ops live_ops read_ms s))
        → code ≢ e_continue
        → 2 * length a + 2 ≤ least
        → All IsPlain a
        → length a < 2 ^ 63
        → Ends s₀ bs
            (after_request ep event mp4_ops live_ops read_ms again code s (a ++ 0 ∷ z) (length a))
    unfolding after_request
    after_request-Ends again least e_ok s a z goes comes faulty shut final enough plain small =
        elim (Option-cases
          (process_request ep event mp4_ops live_ops read_ms (record s { type = 0 }))) [
            | inl fails ↦ rw (fails, after_request) (faulty refl fails)
            | inr (t, done) ↦
                rw (done, after_request)
                  (goes t a z (comes t refl done) (processed-IsReady _ t done refl) plain small
                    (omega (arith, enough)))
          ]
    after_request-Ends again least e_continue s a z goes comes faulty shut final enough plain
          small =
        absurd (final refl)
    after_request-Ends again least _ s a z goes comes faulty shut final enough plain small =
        shut (λ e. absurd (cc e)) (λ e. absurd (cc e))

    parsed-Ends :
        (again : S → Text → ℕ → Progress S) (least : ℕ) (s : S) (a z : Text)
        → Goes again least
        → Comes s₀ bs s a
        → s.type ≡ 1
        → All IsPlain a
        → length a < 2 ^ 63
        → 2 * length a ≤ least
        → (((parsed s a).code ≡ e_entitytoolarge)
            ⊎ ((parsed s a).code ≡ e_continue)
              × (find_text (crlf ++ crlf) (parsed s a).request.request ≡ none))
          ⊎ ((parsed s a).code ≢ e_continue)
            × (0 < (parsed s a).len)
            × ((parsed s a).len ≤ length a)
        → Ends s₀ bs (
            after_request ep event mp4_ops live_ops read_ms again
              (parsed s a).code
              (asked s a)
              (drop (parsed s a).len (a ++ 0 ∷ z))
              (sub64 (length a) (parsed s a).len))
    parsed-Ends again least s a z goes come one plain small enough (inl (inl large)) = rw large (
        unfold after_request in
        shuts s a come one (λ e. absurd (cc (e, large))) (λ e. absurd (cc (e, large))))
    parsed-Ends again least s a z goes come one plain small enough (inl (inr (more, absent))) =
        rw more (
          unfold after_request in
          pauses s a come one more (record { kind = inr one; unfinished = absent }))
    parsed-Ends again least s a z goes come one plain small enough
          (inr (final, some_used, within)) =
        let len : ℕ = (parsed s a).len in
        let rest = length-drop len a in
        let left : sub64 (length a) len ≡ length (drop len a) =
          omega (arith, rest, small, within) in
        rw (left, drop-front len a (0 ∷ z) within)
          (after_request-Ends again least (parsed s a).code (asked s a) (drop len a) z goes
            (λ t good done. answered s t a come one good done)
            (λ good fails. breaks s a come one good fails)
            (λ bad whole. shuts s a come one bad whole) final
            (omega (arith, rest, enough, some_used, within)) (All-drop IsPlain len a plain)
            (omega (arith, rest, small)))

    request_bytes-Ends :
        (again : S → Text → ℕ → Progress S) (least : ℕ) (s : S) (a z : Text)
        → Goes again least
        → Comes s₀ bs s a
        → IsReady s
        → s.type ≡ 1
        → All IsPlain a
        → 0 < length a
        → length a < 2 ^ 63
        → 2 * length a ≤ least
        → Ends s₀ bs
            (request_bytes ep event mp4_ops live_ops read_ms again s (a ++ 0 ∷ z) (length a))
    unfolding request_bytes
    request_bytes-Ends again least s [] z goes come ready one plain pos small enough =
        absurd (omega arith)
    request_bytes-Ends again least s (c ∷ cs) z goes come ready one plain pos small enough =
        let a : Text = c ∷ cs in
        rw (parse-zero s.request a z (length a) (plain-IsCString a plain), request_bytes)
          (parsed-Ends again least s a z goes come one plain small enough
            (parse-Cases s.request a (plain-IsCString a plain) ready.unfinished))

    first_byte-Ends :
        (again : S → Text → ℕ → Progress S) (least : ℕ) (s : S) (a z : Text)
        → Goes again least
        → Comes s₀ bs s a
        → IsReady s
        → s.type ≡ 0
        → All IsPlain a
        → 0 < length a
        → length a < 2 ^ 63
        → 2 * length a + 1 ≤ least
        → Ends s₀ bs (first_byte ep event mp4_ops live_ops read_ms again s (a ++ 0 ∷ z) (length a))
    unfolding first_byte
    first_byte-Ends again least s [] z goes come ready nought plain pos small enough =
        absurd (omega arith)
    first_byte-Ends again least s (c ∷ cs) z goes come ready nought plain pos small enough =
        let other : (c == b'$') ≡ false = ground (arith, plain.0.1) in
        rw (other, first_byte)
          (goes (record s { type = 1 }) (c ∷ cs) z (begins s (c ∷ cs) come nought)
            (record { kind = inr refl; unfinished = ready.unfinished }) plain small
            (omega (arith, enough)))

    round-Ends :
        (fuel : ℕ) (again : S → Text → ℕ → Progress S) (least : ℕ) (s : S) (a z : Text)
        → Goes again least
        → Comes s₀ bs s a
        → IsReady s
        → All IsPlain a
        → 0 < length a
        → length a < 2 ^ 63
        → 2 * length a + 1 ≤ least + s.type
        → Ends s₀ bs (round ep event mp4_ops live_ops read_ms fuel again s (a ++ 0 ∷ z) (length a))
    unfolding round
    round-Ends fuel again least s a z goes come ready plain pos small enough = elim ready.kind [
      | inl nought ↦
          let is : (s.type == 0) ≡ true = ground (arith, nought) in
          rw (is, round)
            (first_byte-Ends again least s a z goes come ready nought plain pos small
              (omega (arith, enough, nought)))
      | inr one ↦
          let is_not : (s.type == 0) ≡ false = ground (arith, one) in
          let is : (s.type == 1) ≡ true = ground (arith, one) in
          rw (is_not, is, round)
            (request_bytes-Ends again least s a z goes come ready one plain pos small
              (omega (arith, enough, one)))
    ]

    read_loop-Goes :
        (fuel : ℕ) → Goes (λ t b m. read_loop ep event mp4_ops live_ops read_ms fuel t b m) fuel
    unfolding read_loop
    read_loop-Goes zero t a z come ready plain small enough = elim ready.kind [
      | inl nought ↦ absurd (omega (arith, enough, nought))
      | inr one ↦ absurd (omega (arith, enough, one))
    ]
    read_loop-Goes (suc fuel) t [] z come ready plain small enough = rests t come ready
    read_loop-Goes (suc fuel) t (c ∷ cs) z come ready plain small enough =
        round-Ends (suc (suc fuel)) _ fuel t (c ∷ cs) z (read_loop-Goes fuel) come ready plain
          (omega arith) small (omega (arith, enough))

  -- OnRead's loop over what one recv gave, no more than 1024 bytes and no frame among them, from a
  -- session that is ready: fuel of twice their number and two is enough for it to end, at a session
  -- that it has come to by answering the complete requests before, in order. There it waits, ready
  -- for the next read, with no byte left or with the beginning of a request in m_Request; or it
  -- closes behind a request that Parse refuses; or the handler of a complete request faults. So no
  -- byte is read behind the buffer.
  pub read_loop-Ends :
      (fuel : ℕ) (s : S) (bs : Text)
      → IsReady s
      → All IsPlain bs
      → length bs ≤ 1024
      → 2 * length bs + 2 ≤ fuel
      → Ends s bs (read_loop ep event mp4_ops live_ops read_ms fuel s (buffer bs) (length bs))
  read_loop-Ends fuel s bs ready plain small enough =
      let zeros : 1025 - length bs ≡ suc (1024 - length bs) = omega (arith, small) in
      rw zeros (
        read_loop-Goes s bs fuel s bs (replicate (1024 - length bs) 0) here ready plain
          (omega (arith, small)) (omega (arith, enough)))
