-- ===== src/Session/Handlers.antt =====
-- RtspSession.cpp: what the handlers of the requests leave alone.
use byron0416_mp.Error.{ErrorCode}
use byron0416_mp.Event.{Epoll}
use byron0416_mp.Player.{RtpPlayer}
use byron0416_mp.Prelude.{ℕ, ◌≡◌, ◌∙◌, [], ◌∷◌, Option, some, arith, inl, inr, Option-cases}
use byron0416_mp.Session.{
  Session, ReadMs, field, call_player, choose, on_describe, on_setup, play_pos, at_ms, playing,
  on_play, on_pause, teardown,
}
use byron0416_mp.Text.{Text, text, text_key}

module _ {W M L : Type 0} where
  -- A call leaves the response alone, and what has been sent of it, and the reading.
  pub record SameResponse (s t : Session W M L) : Type 0 where
    pub response : t.response ≡ s.response
    pub header : t.header_sended ≡ s.header_sended
    pub body : t.body_sended ≡ s.body_sended
    pub kind : t.type ≡ s.type
    pub left : t.rtcp_left ≡ s.rtcp_left
    pub conn : t.fd ≡ s.fd

module _ (ep : Epoll) (event : ℕ) (mp4_ops live_ops : RtpPlayer) (read_ms : ReadMs) where
  abbrev S : Type 0
  S = Session ep.World mp4_ops.State live_ops.State

  call_player-SameResponse :
      {A : Type 0} (f : (p : RtpPlayer) → p.State → Option (A × p.State)) (s s' : S) (a : A)
      → call_player ep event mp4_ops live_ops read_ms f s ≡ some (a, s')
      → SameResponse s s'
  unfolding call_player
  call_player-SameResponse f s s' a e = ground arith

  pub on_describe-SameResponse :
      (s s' : S) (code : ErrorCode)
      → on_describe ep event mp4_ops live_ops read_ms s ≡ some (code, s')
      → SameResponse s s'
  unfolding on_describe choose
  on_describe-SameResponse s s' code e = ground arith

  pub on_setup-SameResponse :
      (s s' : S) (code : ErrorCode)
      → on_setup ep event mp4_ops live_ops read_ms s ≡ some (code, s')
      → SameResponse s s'
  unfolding on_setup call_player
  on_setup-SameResponse s s' code e = ground arith

  play_pos-SameResponse :
      (value : Text) (s s' : S) (pos : ℕ)
      → play_pos ep event mp4_ops live_ops read_ms value s ≡ some (pos, s')
      → SameResponse s s'
  unfolding play_pos call_player at_ms
  play_pos-SameResponse [] s s' pos e = ground arith
  play_pos-SameResponse (c ∷ cs) s s' pos e = ground arith

  SameResponse-trans : {s t u : S} → SameResponse s t → SameResponse t u → SameResponse s u
  SameResponse-trans f g = record {
    response = g.response ∙ f.response;
    header = g.header ∙ f.header;
    body = g.body ∙ f.body;
    kind = g.kind ∙ f.kind;
    left = g.left ∙ f.left;
    conn = g.conn ∙ f.conn;
  }

  playing-SameResponse :
      (s s' : S) (code : ErrorCode)
      → playing ep event mp4_ops live_ops read_ms s ≡ some (code, s')
      → SameResponse s s'
  unfolding playing call_player
  playing-SameResponse s s' code e = ground arith

  pub on_play-SameResponse :
      (s s' : S) (code : ErrorCode)
      → on_play ep event mp4_ops live_ops read_ms s ≡ some (code, s')
      → SameResponse s s'
  unfolding on_play
  on_play-SameResponse s s' code e =
      elim (Option-cases (play_pos ep event mp4_ops live_ops read_ms range s)) [
        | inl none_1 ↦ absurd (cc (rw (none_1, on_play) at e))
        | inr ((pos, s₁), at_1) ↦
            let e₁ = rw (at_1, on_play) at e in
            elim (Option-cases
              (call_player ep event mp4_ops live_ops read_ms (λ p. p.seek pos) s₁)) [
                | inl none_2 ↦ absurd (cc (rw none_2 at e₁))
                | inr ((_, s₂), at_2) ↦
                    SameResponse-trans (play_pos-SameResponse range s s₁ pos at_1) (
                      SameResponse-trans (call_player-SameResponse _ s₁ s₂ _ at_2)
                        (playing-SameResponse s₂ s' code (rw at_2 at e₁)))
              ]
      ]
    where
      range : Text
      range = field s (text "Range")

  pub on_pause-SameResponse :
      (s s' : S) (code : ErrorCode)
      → on_pause ep event mp4_ops live_ops read_ms s ≡ some (code, s')
      → SameResponse s s'
  unfolding on_pause call_player
  on_pause-SameResponse s s' code e = ground arith

  pub teardown-SameResponse :
      (s s' : S) (code : ErrorCode)
      → teardown ep event mp4_ops live_ops read_ms s ≡ some (code, s')
      → SameResponse s s'
  unfolding teardown call_player
  teardown-SameResponse s s' code e = ground arith
