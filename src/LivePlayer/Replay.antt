-- ===== src/LivePlayer/Replay.antt =====
-- CLivePlayer::Play when the tracks have their connection already.
use byron0416_mp.LivePlayer.{
  LiveTrack, LivePlayer, set_fd, run_track, play_track, play_tracks, with_track, play,
}
use byron0416_mp.LiveServer.{Host, LiveChannel}
use byron0416_mp.Prelude.{
  some-inj, ℕ, ◌≡◌, refl, ap, sym, ◌∙◌, Bool, true, false, List, [], ◌∷◌, Option, none, some, arith,
  inl, inr, Option-cases,
}
use byron0416_mp.Socket.{Net, tcp}
use byron0416_mp.Socket
use byron0416_mp.Text.{Text}

module _ (net : Net) (host : Host net.World)
    (channels : net.World → List (Text × LiveChannel)) where
  abbrev W : Type 0
  W = net.World

  set_fd-keeps :
      (fd : ℕ) (t u : LiveTrack) (b : Bool) (w v : W)
      → set_fd net host channels (some fd) t w ≡ some (b, u, v)
      → u.rtsp ≡ some fd
  unfolding set_fd Socket.attach Socket.take_fd Socket.make_non_block Socket.set_non_block
  set_fd-keeps fd t u b w v e = ground arith

  run_track-keeps :
      (t u : LiveTrack) (b : Bool) (w v : W)
      → run_track net host channels t w ≡ some (b, u, v)
      → u.rtsp ≡ t.rtsp
  unfolding run_track
  run_track-keeps t u b w v e = ground arith

  set_fd-faults :
      (fd : Option ℕ) (old : ℕ) (t : LiveTrack) (w : W)
      → t.rtsp ≡ some old
      → set_fd net host channels fd t w ≡ none
  unfolding set_fd Socket.attach
  set_fd-faults fd old t w e = ground arith

  play_track-keeps :
      (fd : ℕ) (t u : LiveTrack) (b : Bool) (w v : W)
      → play_track net host channels (some fd) t w ≡ some (b, u, v)
      → u.rtsp ≡ some fd
  unfolding play_track
  play_track-keeps fd t u b w v e = elim (Option-cases (set_fd net host channels (some fd) t w)) [
    | inl failed ↦ absurd (cc (rw (failed, play_track) at e))
    | inr ((false, t₁, w₁), set) ↦
        ground (arith, set_fd-keeps fd t t₁ false w w₁ set, rw (set, play_track) at e)
    | inr ((true, t₁, w₁), set) ↦
        run_track-keeps t₁ u b w₁ v (rw (set, play_track) at e) ∙ set_fd-keeps fd t t₁ true w w₁ set
  ]

  -- The first of some tracks is connected.
  abbrev IsConnected : ℕ → List LiveTrack → Type 0
  IsConnected fd [] = ⊥
  IsConnected fd (t ∷ ts) = t.rtsp ≡ some fd

  front-IsConnected :
      (fd : ℕ) (t : LiveTrack) (ts us : List LiveTrack) (a b : Bool) (w v : W)
      → t.rtsp ≡ some fd
      → ◌≡◌ {A = Option (Bool × List LiveTrack × W)} (some (a, t ∷ ts, w)) (some (b, us, v))
      → IsConnected fd us
  front-IsConnected fd t ts [] a b w v h e = absurd (cc)
  front-IsConnected fd t ts (u ∷ us) a b w v h e = ground arith

  with_track-IsConnected :
      (fd : ℕ) (t : LiveTrack) (r : Option (Bool × List LiveTrack × W)) (b : Bool)
      (ts : List LiveTrack) (w : W)
      → t.rtsp ≡ some fd
      → with_track net host channels t r ≡ some (b, ts, w)
      → IsConnected fd ts
  unfolding with_track
  with_track-IsConnected fd t none b ts w h e = absurd (cc)
  with_track-IsConnected fd t (some (c, us, v)) b ts w h e =
      front-IsConnected fd t us ts c b v w h e

  play_tracks-IsConnected :
      (fd : ℕ) (t : LiveTrack) (ts us : List LiveTrack) (b : Bool) (w v : W)
      → play_tracks net host channels (some fd) (t ∷ ts) w ≡ some (b, us, v)
      → IsConnected fd us
  unfolding play_tracks
  play_tracks-IsConnected fd t ts us b w v e =
      elim (Option-cases (play_track net host channels (some fd) t w)) [
        | inl failed ↦ absurd (cc (rw (failed, play_tracks) at e))
        | inr ((false, t₁, w₁), played) ↦
            front-IsConnected fd t₁ ts us false b w₁ v (play_track-keeps fd t t₁ false w w₁ played)
              (rw (played, play_tracks) at e)
        | inr ((true, t₁, w₁), played) ↦
            with_track-IsConnected fd t₁ _ b us v (play_track-keeps fd t t₁ true w w₁ played)
              (rw (played, play_tracks) at e)
      ]

  connected-faults :
      (fd old : ℕ) (ts : List LiveTrack) (w : W)
      → IsConnected old ts
      → play_tracks net host channels (some fd) ts w ≡ none
  unfolding play_tracks play_track
  connected-faults fd old [] w h = elim h [ ]
  connected-faults fd old (t ∷ ts) w h =
      rw (play_tracks, play_track, set_fd-faults (some fd) old t w h) refl

  -- A live player with a track that has been started, whether or not that succeeded, cannot be
  -- started again without a Teardown: the second Play, such as the one behind a PAUSE, fails an
  -- assert.
  pub play-again :
      (fd fd' : ℕ) (t : LiveTrack) (ts : List LiveTrack) (b : Bool) (s s' : LivePlayer W)
      → s.tracks ≡ t ∷ ts
      → play net host channels (some fd) s ≡ some (b, s')
      → play net host channels (some fd') s' ≡ none
  unfolding play
  play-again fd fd' t ts b s s' two e =
      elim (Option-cases (play_tracks net host channels (some fd) s.tracks s.world)) [
        | inl failed ↦ absurd (cc (rw (failed, play) at e))
        | inr ((c, us, w), played) ↦
            let tracks : s'.tracks ≡ us =
              ap (λ r. r.1.tracks) (some-inj (sym (rw (played, play) at e))) in
            let at_two : play_tracks net host channels (some fd) (t ∷ ts) s.world
                ≡ some (c, us, w) =
              ap (λ l. play_tracks net host channels (some fd) l s.world) (sym two) ∙ played in
            let again : play_tracks net host channels (some fd') s'.tracks s'.world ≡ none =
              ap (λ l. play_tracks net host channels (some fd') l s'.world) tracks
              ∙ connected-faults fd' fd us s'.world
                  (play_tracks-IsConnected fd t ts us c s.world w at_two) in
            simp (again, play)
      ]
