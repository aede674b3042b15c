-- ===== src/LiveServer/Ledger/Channel.antt =====
-- CLiveChannel: the sockets that Run opens and Stop closes.
use byron0416_mp.LiveServer.{
  Host, ChannelTrack, LiveChannel, new_channel, add_track, after_line, parse_lines, parse,
  track_file, parse_some, read_own, run_started, run_channel, stop_channel,
}
use byron0416_mp.Prelude.{
  ℕ, ◌≡◌, ◌∙◌, ◌+◌, ap, refl, Bool, true, false, not, ◌&&◌, List, [], ◌∷◌, ◌++◌, Option, none, some,
  arith, ltb, ◌==◌, if◌then◌else◌, Option-cases, Bool-cases, inl, inr, length,
}
use byron0416_mp.Process.{Resource}
use byron0416_mp.Socket.{Net}
use byron0416_mp.Socket.Ledger.{IsLedger}
use byron0416_mp.Text.{Text, text, lines_of, rfind_byte, behind_pos}
use byron0416_mp.LiveServer.Ledger.{
  held, owned, owned-append, no_sockets, IsLost, IsApart, run_track-takes, Accounts,
  stop_channel-gives,
}
use byron0416_mp.Prelude.OrderedMap.{nat_key}

module _ (net : Net) (host : Host net.World) (ip : Text) (uses : net.World → Resource → ℕ)
    (law : IsLedger net uses) (apart : IsApart net uses host) where
  abbrev W : Type 0
  W = net.World

  -- What Run leaves, with the track that was dropped, if any.
  abbrev Left : W → LiveChannel → W → Type 0
  Left before ch w =
      (lost : ChannelTrack) × IsLost net host ip uses law apart before ch lost
      × Accounts net host ip uses law apart lost before ch w

  abbrev Whole : W → LiveChannel → W → Type 0
  Whole before ch w = Accounts net host ip uses law apart no_sockets before ch w

  abbrev Ends : W → Option (Bool × LiveChannel × W) → Type 0
  Ends before none = ⊥
  Ends before (some (b, ch, w)) = Left before ch w

  if-Ends :
      (before : W) (b : Bool) (p q : Option (Bool × LiveChannel × W))
      → Ends before p
      → Ends before q
      → Ends before (if b then p else q)
  if-Ends before true p q hp hq = hp
  if-Ends before false p q hp hq = hq

  after_line-Ends :
      (before : W) (rest : ℕ × ℕ → LiveChannel → W → Option (Bool × LiveChannel × W)) (pair : ℕ × ℕ)
      (ch : LiveChannel) (w : W)
      → ((p : ℕ × ℕ) (c : LiveChannel) (u : W) → Whole before c u → Ends before (rest p c u))
      → Whole before ch w
      → Ends before (after_line net host ip rest pair ch w)
  unfolding after_line add_track held
  after_line-Ends before rest (id, port) ch w goes_on h =
      let (ok, t, u, ran, takes) = run_track-takes net host ip uses law apart port w in
      if-Ends before (not (id == 0) && not (port == 0)) _ _
        (elim (Bool-cases ok) [
          | inl runs ↦
              rw (ran, runs, add_track)
                (goes_on (0, 0) _ u (λ x. omega (arith, takes x, h x, owned-append x ch.tracks t)))
          | inr fails ↦
              rw (ran, fails, add_track)
                (
                  t,
                  inr (port, w, u, ran ∙ ap (λ b. some (b, t, u)) fails, λ x. omega (arith, h x)),
                  λ x. omega (arith, takes x, h x),
                )
        ])
        (goes_on (id, port) ch w h)

  whole : (before : W) (ch : LiveChannel) (w : W) → Whole before ch w → Left before ch w
  whole before ch w h = (no_sockets, inl refl, h)

  parse_lines-Ends :
      (before : W) (ls : List Text) (pair : ℕ × ℕ) (ch : LiveChannel) (w : W)
      → Whole before ch w
      → Ends before (parse_lines net host ip ls pair ch w)
  unfolding parse_lines
  parse_lines-Ends before [] pair ch w h = whole before ch w h
  parse_lines-Ends before (l ∷ ls) pair ch w h =
      after_line-Ends before _ _ ch w
        (λ p c u accounts.
          if-Ends before (ltb 255 (length l)) _ _ (whole before c u accounts)
            (parse_lines-Ends before ls p c u accounts))
        h

  parse-Ends :
      (before : W) (file : Text) (ch : LiveChannel) (w : W)
      → Whole before ch w
      → Ends before (parse net host ip file ch w)
  unfolding parse
  parse-Ends before file ch w h =
      parse_lines-Ends before (lines_of (host.read_file file w)) (0, 0) ch w h

  ending :
      (before : W) (r : Option (Bool × LiveChannel × W))
      → Ends before r
      → (c : LiveChannel) × (u : W) × (b : Bool) × (r ≡ some (b, c, u)) × Left before c u
  ending before none h = elim h [ ]
  ending before (some (b, c, u)) h = (c, u, b, refl, h)

  parse_some-Accounts :
      (before : W) (path : Text) (name : Option Text) (ch : LiveChannel) (w : W)
      → Whole before ch w
      → (c : LiveChannel) × (u : W) × (parse_some net host ip path name ch w ≡ some (c, u))
        × Left before c u
  unfolding parse_some
  parse_some-Accounts before path none ch w h = (ch, w, refl, whole before ch w h)
  parse_some-Accounts before path (some name) ch w h =
      let (c, u, b, parsed, accounts) =
        ending before _ (parse-Ends before (path ++ text "/" ++ name) ch w h) in
      (c, u, rw (parsed, parse_some) refl, accounts)

  read_own-Accounts :
      (before : W) (path own : Text) (ch : LiveChannel) (w : W)
      → Left before ch w
      → Ends before (some (read_own net host ip path own ch w))
  unfolding read_own
  read_own-Accounts before path own ch w h =
      elim (Bool-cases (host.exists (path ++ text "/" ++ own) w)) [
        | inl there ↦ rw (there, read_own) h
        | inr missing ↦ rw (missing, read_own) h
      ]

  run_started-Ends :
      (before : W) (path : Text) (ch : LiveChannel) (w : W)
      → Whole before ch w
      → Ends before (run_started net host ip path ch w)
  unfolding run_started
  run_started-Ends before path ch w h =
      let own = behind_pos (rfind_byte b'/' path) path ++ text ".sdp" in
      elim (Option-cases (host.read_dir path w)) [
        | inl unread ↦ rw (unread, run_started) (whole before ch w h)
        | inr (entries, read) ↦
            let (c, u, parsed, accounts) =
              parse_some-Accounts before path (track_file net host ip own entries) ch w h in
            rw (read, parsed, run_started) (read_own-Accounts before path own c u accounts)
      ]

  started : (w : W) → Whole w new_channel (host.start_engine w).1
  unfolding owned held
  started w x = omega (arith, apart.start_keeps w x)

  -- Run of a new channel reaches no assert, and whether it returns true or false, Stop then closes
  -- every socket that it opened, except those of a track that could not be run, which Parse drops: if
  -- there was none, the same descriptors are open as before, and there is one at most.
  pub run-stop :
      (path : Text) (w : W)
      → (b : Bool) × (ch : LiveChannel) × (u : W) × (run_channel net host ip path new_channel w
          ≡ some (b, ch, u))
        × (lost : ChannelTrack) × IsLost net host ip uses law apart w ch lost
        × ((x : Resource)
            → uses (stop_channel net host ip ch u).1 x
              ≡ uses w x + (held x lost.server + held x lost.client))
  unfolding run_channel
  run-stop path w = elim (Bool-cases (host.start_engine w).0) [
    | inl starts ↦
        let (c, u, b, ran, (lost, is_lost, accounts)) =
          ending w _ (run_started-Ends w path new_channel (host.start_engine w).1 (started w)) in
        (
          b,
          c,
          u,
          rw (starts, run_channel) ran,
          lost,
          is_lost,
          stop_channel-gives net host ip uses law apart lost w c u accounts,
        )
    | inr fails ↦ (
      false,
      new_channel,
      (host.start_engine w).1,
      rw (fails, run_channel) refl,
      no_sockets,
      inl refl,
      stop_channel-gives net host ip uses law apart no_sockets w new_channel (host.start_engine w).1
          (started w),
    )
  ]
