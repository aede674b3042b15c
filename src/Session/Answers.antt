-- ===== src/Session/Answers.antt =====
-- What stands in the response to every request.
use byron0416_mp.Error.{ErrorCode, e_ok}
use byron0416_mp.Event.{Epoll}
use byron0416_mp.Http.Request.{empty_request, get_field}
use byron0416_mp.Http.Response.{respond}
use byron0416_mp.Http.Response.Fields.{add_field_lem}
use byron0416_mp.Player.{RtpPlayer}
use byron0416_mp.Prelude.OrderedMap.{find}
use byron0416_mp.Prelude.{
  some-inj, ℕ, ◌≡◌, refl, ap, sym, subst, ◌∙◌, Bool, true, false, [], ◌∷◌, Option, none, some, inl,
  inr, Option-cases, if◌then◌else◌, length,
}
use byron0416_mp.Session.{
  Session, ReadMs, field, put, echo, begin_response, put_session, put_range, put_transport,
  on_describe, on_setup, on_play, on_pause, teardown, and_put, by_method, end_response,
  process_request, answer_describe, answer_setup, answer_play, answer_pause, answer_teardown,
}
use byron0416_mp.Session.Handlers.{
  SameResponse, on_describe-SameResponse, on_setup-SameResponse, on_play-SameResponse,
  on_pause-SameResponse, teardown-SameResponse,
}
use byron0416_mp.Text.{Text, text, text_eq, text_key}
use byron0416_mp.Text.Numbers.{decimal}

some-snd : {A B : Type 0} {p q : A × B} → some p ≡ some q → p.1 ≡ q.1
some-snd e = cc

-- What an answer is to be: the sequence number it carries, and the state of the reading, which no
-- handler changes.
pub record Wanted : Type 0 where
  pub cseq : Text
  pub kind : ℕ
  pub left : ℕ
  pub conn : Option ℕ

module _ {W M L : Type 0} where
  pub record IsAnswer (v : Wanted) (s : Session W M L) : Type 0 where
    pub numbered : find (text "CSeq") s.response.fields ≡ some v.cseq
    pub header_unsent : s.header_sended ≡ 0
    pub body_unsent : s.body_sended ≡ 0
    pub kept_type : s.type ≡ v.kind
    pub kept_left : s.rtcp_left ≡ v.left
    pub kept_fd : s.fd ≡ v.conn

module _ (ep : Epoll) (event : ℕ) (mp4_ops live_ops : RtpPlayer) (read_ms : ReadMs) where
  abbrev S : Type 0
  S = Session ep.World mp4_ops.State live_ops.State

  put-IsAnswer :
      (name value : Text) (v : Wanted) (s : S)
      → text_eq name (text "CSeq") ≡ false
      → IsAnswer v s
      → IsAnswer v (put name value s)
  put-IsAnswer name value v s other h = record {
    numbered = add_field_lem s.response name value (text "CSeq") ∙ rw other h.numbered;
    header_unsent = h.header_unsent;
    body_unsent = h.body_unsent;
    kept_type = h.kept_type;
    kept_left = h.kept_left;
    kept_fd = h.kept_fd;
  }

  abbrev pub wanted : S → Wanted
  wanted s = record {
    cseq = (get_field s.request (text "CSeq")).1;
    kind = s.type;
    left = s.rtcp_left;
    conn = s.fd;
  }

  begin_response-IsAnswer : (s : S) → IsAnswer (wanted s) (begin_response s)
  unfolding begin_response text_eq
  begin_response-IsAnswer s = put-IsAnswer (text "Server") _ _ _ refl (
      put-IsAnswer (text "Content-Length") _ _ _ refl (record {
        numbered = add_field_lem _ (text "CSeq") _ (text "CSeq");
        header_unsent = refl;
        body_unsent = refl;
        kept_type = refl;
        kept_left = refl;
        kept_fd = refl;
      }))

  SameResponse-IsAnswer : (v : Wanted) (s t : S) → SameResponse s t → IsAnswer v s → IsAnswer v t
  SameResponse-IsAnswer v s t e h = record {
    numbered = ap (λ r. find (text "CSeq") r.fields) e.response ∙ h.numbered;
    header_unsent = e.header ∙ h.header_unsent;
    body_unsent = e.body ∙ h.body_unsent;
    kept_type = e.kind ∙ h.kept_type;
    kept_left = e.left ∙ h.kept_left;
    kept_fd = e.conn ∙ h.kept_fd;
  }

  -- What is put behind a handler.
  put_session-IsAnswer :
      (name : Text) (v : Wanted) (s : S) → IsAnswer v s → IsAnswer v (put_session name s)
  unfolding put_session text_eq
  put_session-IsAnswer [] v s h = put-IsAnswer (text "Session") _ v _ refl (record {
    numbered = h.numbered;
    header_unsent = h.header_unsent;
    body_unsent = h.body_unsent;
    kept_type = h.kept_type;
    kept_left = h.kept_left;
    kept_fd = h.kept_fd;
  })
  put_session-IsAnswer (c ∷ cs) v s h = put-IsAnswer (text "Session") _ v s refl h

  put_range-IsAnswer :
      (value : Text) (v : Wanted) (s : S) → IsAnswer v s → IsAnswer v (put_range value s)
  unfolding put_range text_eq
  put_range-IsAnswer [] v s h = h
  put_range-IsAnswer (c ∷ cs) v s h = put-IsAnswer (text "Range") _ v s refl h

  put_transport-IsAnswer :
      (code : ErrorCode) (v : Wanted) (s : S) → IsAnswer v s → IsAnswer v (put_transport code s)
  unfolding put_transport text_eq
  put_transport-IsAnswer e_ok v s h = put-IsAnswer (text "Transport") _ v s refl h
  put_transport-IsAnswer _ v s h = h

  echo_session-IsAnswer : (v : Wanted) (s : S) → IsAnswer v s → IsAnswer v (echo (text "Session") s)
  unfolding text_eq
  echo_session-IsAnswer v s h = put-IsAnswer (text "Session") _ v s refl h

  -- Where a handler comes to an end, the answer is as before.
  abbrev Answers : Wanted → Option (ErrorCode × S) → Type 0
  Answers v r = (code : ErrorCode) (t : S) → r ≡ some (code, t) → IsAnswer v t

  Answers-some : (v : Wanted) (code : ErrorCode) (s : S) → IsAnswer v s → Answers v (some (code, s))
  Answers-some v code s h code' t e = subst (IsAnswer v) (some-snd e) h

  Answers-if :
      (v : Wanted) (b : Bool) (r q : Option (ErrorCode × S))
      → Answers v r
      → Answers v q
      → Answers v (if b then r else q)
  Answers-if v true r q hr hq = hr
  Answers-if v false r q hr hq = hq

  Answers-and_put :
      (v : Wanted) (f : ErrorCode → S → S) (r : Option (ErrorCode × S))
      → ((code : ErrorCode) (t : S) → IsAnswer v t → IsAnswer v (f code t))
      → Answers v r
      → Answers v (and_put ep event mp4_ops live_ops read_ms f r)
  Answers-and_put v f none hf hr code t e = absurd (cc)
  Answers-and_put v f (some (c, s)) hf hr code t e =
      subst (IsAnswer v) (some-snd e) (hf c s (hr c s refl))

  description-IsAnswer :
      (v : Wanted) (s : S)
      → IsAnswer v s
      → IsAnswer v (
          put
            (text "Content-Length")
            (decimal (length s.body))
            (put (text "Content-Type") (text "application/sdp") s))
  unfolding text_eq
  description-IsAnswer v s h =
      put-IsAnswer (text "Content-Length") (decimal (length s.body)) v _ refl
        (put-IsAnswer (text "Content-Type") (text "application/sdp") v s refl h)

  public-IsAnswer :
      (value : Text) (v : Wanted) (s : S) → IsAnswer v s → IsAnswer v (put (text "Public") value s)
  unfolding text_eq
  public-IsAnswer value v s h = put-IsAnswer (text "Public") value v s refl h

  answer_describe-Answers :
      (v : Wanted) (s : S)
      → IsAnswer v s
      → Answers v (answer_describe ep event mp4_ops live_ops read_ms s)
  unfolding answer_describe
  answer_describe-Answers v s h =
      Answers-and_put v
        (λ code t.
          put (text "Content-Length") (decimal (length t.body))
            (put (text "Content-Type") (text "application/sdp") t))
        (on_describe ep event mp4_ops live_ops read_ms s) (λ code t a. description-IsAnswer v t a)
        (λ code t e.
          SameResponse-IsAnswer v s t
            (on_describe-SameResponse ep event mp4_ops live_ops read_ms s t code e) h)

  answer_setup-Answers :
      (v : Wanted) (s : S)
      → IsAnswer v s
      → Answers v (answer_setup ep event mp4_ops live_ops read_ms s)
  unfolding answer_setup
  answer_setup-Answers v s h =
      Answers-and_put v (λ code t. put_transport code (put_session (field t (text "Session")) t))
        (on_setup ep event mp4_ops live_ops read_ms s)
        (λ code t a.
          put_transport-IsAnswer code v (put_session (field t (text "Session")) t)
            (put_session-IsAnswer (field t (text "Session")) v t a))
        (λ code t e.
          SameResponse-IsAnswer v s t
            (on_setup-SameResponse ep event mp4_ops live_ops read_ms s t code e) h)

  answer_play-Answers :
      (v : Wanted) (s : S)
      → IsAnswer v s
      → Answers v (answer_play ep event mp4_ops live_ops read_ms s)
  unfolding answer_play
  answer_play-Answers v s h =
      Answers-and_put v (λ code t. put_range (field t (text "Range")) (echo (text "Session") t))
        (on_play ep event mp4_ops live_ops read_ms s)
        (λ code t a.
          put_range-IsAnswer (field t (text "Range")) v (echo (text "Session") t)
            (echo_session-IsAnswer v t a))
        (λ code t e.
          SameResponse-IsAnswer v s t
            (on_play-SameResponse ep event mp4_ops live_ops read_ms s t code e) h)

  answer_pause-Answers :
      (v : Wanted) (s : S)
      → IsAnswer v s
      → Answers v (answer_pause ep event mp4_ops live_ops read_ms s)
  unfolding answer_pause
  answer_pause-Answers v s h =
      Answers-and_put v (λ code t. echo (text "Session") t)
        (on_pause ep event mp4_ops live_ops read_ms s) (λ code t a. echo_session-IsAnswer v t a)
        (λ code t e.
          SameResponse-IsAnswer v s t
            (on_pause-SameResponse ep event mp4_ops live_ops read_ms s t code e) h)

  answer_teardown-Answers :
      (v : Wanted) (s : S)
      → IsAnswer v s
      → Answers v (answer_teardown ep event mp4_ops live_ops read_ms s)
  unfolding answer_teardown
  answer_teardown-Answers v s h =
      Answers-and_put v (λ code t. echo (text "Session") t)
        (teardown ep event mp4_ops live_ops read_ms s) (λ code t a. echo_session-IsAnswer v t a)
        (λ code t e.
          SameResponse-IsAnswer v s t
            (teardown-SameResponse ep event mp4_ops live_ops read_ms s t code e) h)

  by_method-Answers :
      (v : Wanted) (m : Text) (s : S)
      → IsAnswer v s
      → Answers v (by_method ep event mp4_ops live_ops read_ms m s)
  unfolding by_method
  by_method-Answers v m s h =
      Answers-if v (text_eq m (text "OPTIONS")) _ _
        (Answers-some v e_ok _ (public-IsAnswer _ v s h))
        (Answers-if v (text_eq m (text "DESCRIBE")) _ _ (answer_describe-Answers v s h) (
          Answers-if v (text_eq m (text "SETUP")) _ _ (answer_setup-Answers v s h) (
            Answers-if v (text_eq m (text "PLAY")) _ _ (answer_play-Answers v s h) (
              Answers-if v (text_eq m (text "GET_PARAMETER")) _ _
                (Answers-some v e_ok _ (echo_session-IsAnswer v s h))
                (Answers-if v (text_eq m (text "PAUSE")) _ _ (answer_pause-Answers v s h) (
                  Answers-if v (text_eq m (text "TEARDOWN")) _ _ (answer_teardown-Answers v s h)
                    (Answers-some v e_ok s h)))))))

  end_response-IsAnswer :
      (v : Wanted) (code : ErrorCode) (s : S)
      → IsAnswer v s
      → IsAnswer v (end_response ep event mp4_ops live_ops read_ms code s)
  unfolding end_response respond
  end_response-IsAnswer v code s h = record {
    numbered = h.numbered;
    header_unsent = h.header_unsent;
    body_unsent = h.body_unsent;
    kept_type = h.kept_type;
    kept_left = h.kept_left;
    kept_fd = h.kept_fd;
  }

  -- Whatever the method, where ProcessRequest comes to an end the response carries the request's
  -- CSeq, none of it has been sent, and the connection and the state of its reading are as before.
  pub process_request-IsAnswer :
      (s s' : S)
      → process_request ep event mp4_ops live_ops read_ms s ≡ some s'
      → IsAnswer (wanted s) s'
  unfolding process_request
  process_request-IsAnswer s s' e = elim (Option-cases handled) [
    | inl nothing ↦ absurd (cc (rw (nothing, process_request) at e))
    | inr ((code, t), handled_so) ↦
        subst (IsAnswer (wanted s)) (some-inj (rw (handled_so, process_request) at e)) (
          end_response-IsAnswer (wanted s) code t (
            by_method-Answers (wanted s) s.request.method (begin_response s)
              (begin_response-IsAnswer s) code t handled_so))
  ]
    where
      handled : Option (ErrorCode × S)
      handled = by_method ep event mp4_ops live_ops read_ms s.request.method (begin_response s)

  -- Behind ProcessRequest the request is empty.
  pub process_request-empty :
      (s s' : S)
      → process_request ep event mp4_ops live_ops read_ms s ≡ some s'
      → s'.request ≡ empty_request
  unfolding process_request end_response
  process_request-empty s s' e = elim (Option-cases handled) [
    | inl nothing ↦ absurd (cc (rw (nothing, process_request) at e))
    | inr ((code, t), handled_so) ↦
        ap (λ q. q.request) (sym (some-inj (rw (handled_so, process_request) at e)))
  ]
    where
      handled : Option (ErrorCode × S)
      handled = by_method ep event mp4_ops live_ops read_ms s.request.method (begin_response s)
