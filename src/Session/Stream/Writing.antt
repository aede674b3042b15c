-- ===== src/Session/Stream/Writing.antt =====
-- What CRtspSession::OnWrite sends of a response.
use mathlib.Core.List.{append_assoc}
use byron0416_mp.Event.{Epoll, register_rd}
use byron0416_mp.Player.{RtpPlayer}
use byron0416_mp.Prelude.{
  ℕ, zero, suc, ◌+◌, ◌≤◌, ◌<◌, ◌≡◌, refl, sym, ap, ◌∙◌, List, [], ◌∷◌, ◌++◌, arith, length, take,
  drop, drop-drop, take-drop_taken, drop-all, length-drop, length-append, map, ltb, ltb→lt,
  ltb-false→le, Bool-cases, inl, inr, Option, none, some,
}
use byron0416_mp.Session.{Session, ReadMs}
use byron0416_mp.Session.Stream.{
  Sending, room, gone, failed, Progress, waits, closed, fault, stuck, after_teardown, close,
  next_part, count_sent, write_round, on_write,
}
use byron0416_mp.Text.{Text}

-- The bytes of the response that are still to be sent, in order.
abbrev pub pending : {W M L : Type 0} → Session W M L → Text
pending s = drop s.header_sended s.response.header ++ drop s.body_sended s.body

-- An output queue gave the bytes out: they are the first of what was pending, and where the session
-- lives on, what it has pending are the others.
abbrev pub TakesOff : {W M L : Type 0} → Text → Text → Progress (Session W M L) → Type 0
TakesOff before out (waits s) = out ++ pending s ≡ before
TakesOff before out (closed s) = (rest : Text) × (out ++ rest ≡ before)
TakesOff before out fault = (rest : Text) × (out ++ rest ≡ before)
TakesOff before out stuck = ⊥

sent-part :
    (n k : ℕ) (xs : List ℕ)
    → take n (drop k xs) ++ drop (k + length (take n (drop k xs))) xs ≡ drop k xs
sent-part n k xs =
    ap (λ l. take n (drop k xs) ++ l) (sym (drop-drop (length (take n (drop k xs))) k xs))
    ∙ take-drop_taken n (drop k xs)

-- A part is sent, and counted.
pending-count_sent :
    {W M L : Type 0} (n : ℕ) (s : Session W M L)
    → take n (next_part s) ++ pending (count_sent (length (take n (next_part s))) s) ≡ pending s
unfolding next_part count_sent
pending-count_sent n s = elim (Bool-cases (ltb s.header_sended (length s.response.header))) [
  | inl more ↦ rw more (
      sym (append_assoc (take n (drop s.header_sended s.response.header)) _ _)
      ∙ ap (λ l. l ++ drop s.body_sended s.body) (sent-part n s.header_sended s.response.header))
  | inr done ↦
      rw (done, drop-all s.header_sended s.response.header (ltb-false→le _ _ done))
        (sent-part n s.body_sended s.body)
]

next_part-nil : {W M L : Type 0} (s : Session W M L) → next_part s ≡ [] → pending s ≡ []
unfolding next_part
next_part-nil s h = elim (Bool-cases (ltb s.header_sended (length s.response.header))) [
  | inl more ↦ absurd (
      omega (
        arith,
        ap length (rw more at h),
        ltb→lt _ _ more,
        length-drop s.header_sended s.response.header,
      ))
  | inr done ↦
      rw (drop-all s.header_sended s.response.header (ltb-false→le _ _ done)) (rw done at h)
]

-- More bytes were sent before.
TakesOff-front :
    {W M L : Type 0} (front out before left : Text) (r : Progress (Session W M L))
    → front ++ left ≡ before
    → TakesOff left out r
    → TakesOff before (front ++ out) r
TakesOff-front front out before left (waits s) h t =
    append_assoc front out (pending s) ∙ ap (λ l. front ++ l) t ∙ h
TakesOff-front front out before left (closed s) h (rest, t) =
    (rest, append_assoc front out rest ∙ ap (λ l. front ++ l) t ∙ h)
TakesOff-front front out before left fault h (rest, t) =
    (rest, append_assoc front out rest ∙ ap (λ l. front ++ l) t ∙ h)
TakesOff-front front out before left stuck h t = t

next_part-le : {W M L : Type 0} (s : Session W M L) → length (next_part s) ≤ length (pending s)
unfolding next_part
next_part-le s =
    let total =
      length-append (drop s.header_sended s.response.header) (drop s.body_sended s.body) in
    elim (Bool-cases (ltb s.header_sended (length s.response.header))) [
      | inl more ↦ rw more (omega (arith, total))
      | inr done ↦ rw done (omega (arith, total))
    ]

count_sent-event : {W M L : Type 0} (n : ℕ) (s : Session W M L) → (count_sent n s).event ≡ s.event
unfolding count_sent
count_sent-event n s = elim (Bool-cases (ltb s.header_sended (length s.response.header))) [
  | inl more ↦ rw more refl
  | inr done ↦ rw done refl
]

module _ (ep : Epoll) (event : ℕ) (mp4_ops live_ops : RtpPlayer) (read_ms : ReadMs) where
  abbrev S : Type 0
  S = Session ep.World mp4_ops.State live_ops.State

  after_teardown-TakesOff :
      (r : Option (Unit {0} × S)) (before : Text)
      → TakesOff before [] (after_teardown ep event mp4_ops live_ops read_ms r)
  unfolding after_teardown
  after_teardown-TakesOff none before = (before, refl)
  after_teardown-TakesOff (some (_, s)) before = (before, refl)

  close-TakesOff :
      (s : S) (before : Text) → TakesOff before [] (close ep event mp4_ops live_ops read_ms s)
  unfolding close
  close-TakesOff s before = after_teardown-TakesOff _ before

  write_round-TakesOff :
      (rest : S → Text × Progress S) (r : Sending) (part : Text) (s : S)
      → ((t : S) → TakesOff (pending t) (rest t).0 (rest t).1)
      → next_part s ≡ part
      → TakesOff
          (pending s)
          (write_round ep event mp4_ops live_ops read_ms rest r part s).0
          (write_round ep event mp4_ops live_ops read_ms rest r part s).1
  unfolding write_round
  write_round-TakesOff rest r [] s h e = refl
  write_round-TakesOff rest gone (c ∷ cs) s h e = close-TakesOff s (pending s)
  write_round-TakesOff rest failed (c ∷ cs) s h e = close-TakesOff s (pending s)
  write_round-TakesOff rest (room zero) (c ∷ cs) s h e = refl
  write_round-TakesOff rest (room (suc n)) (c ∷ cs) s h e =
      let sent = take (suc n) (c ∷ cs) in
      let t = count_sent (length sent) s in
      TakesOff-front sent (rest t).0 (pending s) (pending t) (rest t).1
        (rw e at (pending-count_sent (suc n) s)) (h t)

  -- OnWrite is an output queue: however the kernel cuts what it is given, and wherever it stops, the
  -- bytes that were handed to the connection are the first of those that were pending, the header
  -- before the body, none twice and none left out, and what is pending afterwards is the rest.
  pub on_write-TakesOff :
      (sends : List Sending) (s : S)
      → TakesOff
          (pending s)
          (on_write ep event mp4_ops live_ops read_ms sends s).0
          (on_write ep event mp4_ops live_ops read_ms sends s).1
  unfolding on_write
  on_write-TakesOff [] s = write_round-TakesOff _ (room 0) (next_part s) s (λ t. refl) refl
  on_write-TakesOff (r ∷ rs) s =
      write_round-TakesOff _ r (next_part s) s (λ t. on_write-TakesOff rs t) refl

  -- All was sent, and the session waits for the next request.
  abbrev AllSent : S → Text × Progress S → Type 0
  AllSent s r =
      (r.0 ≡ pending s)
      × (s' : S) × (r.1 ≡ waits s')
      × (pending s' ≡ [])
      × (s'.event ≡ (register_rd ep event s.event).1)

  end-AllSent :
      (rest : S → Text × Progress S) (r : Sending) (s : S)
      → next_part s ≡ []
      → AllSent s (write_round ep event mp4_ops live_ops read_ms rest r [] s)
  unfolding write_round
  end-AllSent rest r s e = (sym (next_part-nil s e), _, refl, next_part-nil s e, refl)

  on_empty :
      (part : Text) (s : S)
      → next_part s ≡ part
      → length part ≤ 0
      → AllSent s
          (write_round ep event mp4_ops live_ops read_ms (λ t. ([], waits t)) (room 0) part s)
  on_empty [] s e none_left = end-AllSent _ (room 0) s e
  on_empty (c ∷ cs) s e none_left = absurd (omega arith)

  write_round-AllSent :
      (rest : S → Text × Progress S) (k : ℕ) (part : Text) (s : S)
      → next_part s ≡ part
      → ((t : S) → length (pending t) < length (pending s) → AllSent t (rest t))
      → AllSent s (write_round ep event mp4_ops live_ops read_ms rest (room (suc k)) part s)
  write_round-AllSent rest k [] s e h = end-AllSent rest (room (suc k)) s e
  write_round-AllSent rest k (c ∷ cs) s e h =
      let sent = take (suc k) (c ∷ cs) in
      let t = count_sent (length sent) s in
      let splits : sent ++ pending t ≡ pending s = rw e at (pending-count_sent (suc k) s) in
      let (bytes, s', ends, none_left, events) =
        h t (omega (arith, ap length splits, length-append sent (pending t))) in
      unfold write_round in
      (
        ap (λ l. sent ++ l) bytes ∙ splits,
        s',
        ends,
        none_left,
        events ∙ ap (λ v. (register_rd ep event v).1) (count_sent-event (length sent) s),
      )

  -- Where the kernel takes something in each of at least as many calls as there are bytes, OnWrite
  -- sends all that is pending, and registers for the next request.
  pub on_write-all :
      (rooms : List ℕ) (s : S)
      → length (pending s) ≤ length rooms
      → ((on_write ep event mp4_ops live_ops read_ms (map (λ k. room (suc k)) rooms) s).0
          ≡ pending s)
        × (s' : S) × ((on_write ep event mp4_ops live_ops read_ms
              (map (λ k. room (suc k)) rooms)
              s).1
            ≡ waits s')
        × (pending s' ≡ [])
        × (s'.event ≡ (register_rd ep event s.event).1)
  unfolding on_write
  on_write-all [] s enough = on_empty (next_part s) s refl (omega (arith, enough, next_part-le s))
  on_write-all (k ∷ ks) s enough =
      write_round-AllSent _ k (next_part s) s refl
        (λ t less. on_write-all ks t (omega (arith, enough, less)))
