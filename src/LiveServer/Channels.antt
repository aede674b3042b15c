-- ===== src/LiveServer/Channels.antt =====
-- CLiveChannels::OnTimer: what becomes of the channels that run.
use byron0416_mp.LiveServer.{
  Host, LiveChannel, add_channel, visit_entry, visit_entries, gone_channel, drop_gone, on_timer,
}
use byron0416_mp.Prelude.OrderedMap.{find, erase, find-insert_new}
use byron0416_mp.Prelude.{
  some-inj, ◌≡◌, refl, ap, sym, subst, ◌∙◌, Bool, true, false, not, ◌||◌, List, [], ◌∷◌, ◌++◌,
  Option, none, some, inl, inr, Bool-cases, Option-cases, arith,
}
use byron0416_mp.Socket.{Net}
use byron0416_mp.Text.{Text, text, text_eq, text_eq_iff, text_key, find_text, before_pos}

find-erase :
    (k j : Text) {V : Type 0} (m : List (Text × V))
    → text_eq k j ≡ false
    → find j (erase k m) ≡ find j m
unfolding find erase
find-erase k j [] h = refl
find-erase k j ((i, w) ∷ m) h =
    ground (arith, text_eq_iff i k, text_eq_iff i j, text_eq_iff k j, find-erase k j m h)

module _ (net : Net) (host : Host net.World) (ip : Text) where
  abbrev W : Type 0
  W = net.World

  add_channel-keeps :
      (path name own : Text) (r : Option (Bool × LiveChannel × W))
      (chs chs' : List (Text × LiveChannel)) (ch : LiveChannel) (w : W)
      → find own chs ≡ none
      → find name chs ≡ some ch
      → add_channel net host ip path own r chs ≡ some (chs', w)
      → find name chs' ≡ some ch
  unfolding add_channel
  add_channel-keeps path name own none chs chs' ch w new there e = absurd (cc)
  add_channel-keeps path name own (some (false, c, u)) chs chs' ch w new there e =
      ap (find name) (sym (ap (λ r. r.0) (some-inj e))) ∙ there
  add_channel-keeps path name own (some (true, c, u)) chs chs' ch w new there e =
      elim (Bool-cases (text_eq own name)) [
        | inl same ↦ absurd (cc (new, there, (text_eq_iff own name).0 same))
        | inr other ↦
            ap (find name) (sym (ap (λ r. r.0) (some-inj e)))
            ∙ find-insert_new own name c chs new
            ∙ rw other there
      ]

  -- Where a step comes to an end, the channel is still there.
  abbrev Keeps : Text → LiveChannel → Option (List (Text × LiveChannel) × W) → Type 0
  Keeps name ch r =
      (chs' : List (Text × LiveChannel)) (w' : W) → r ≡ some (chs', w') → find name chs' ≡ some ch

  some-Keeps :
      (name : Text) (ch : LiveChannel) (chs : List (Text × LiveChannel)) (w : W)
      → find name chs ≡ some ch
      → Keeps name ch (some (chs, w))
  some-Keeps name ch chs w there chs' w' e =
      ap (find name) (sym (ap (λ r. r.0) (some-inj e))) ∙ there

  visit_entry-Keeps :
      (path name : Text) (entry : Text × Bool) (chs : List (Text × LiveChannel)) (ch : LiveChannel)
      (w : W)
      → find name chs ≡ some ch
      → Keeps name ch (visit_entry net host ip path entry chs w)
  unfolding visit_entry
  visit_entry-Keeps path name (d_name, is_dir) chs ch w there = elim (Bool-cases skipped) [
    | inl skip ↦ rw (skip, visit_entry) (some-Keeps name ch chs w there)
    | inr visit ↦ elim (Option-cases (find own chs)) [
      | inr (c, known) ↦ rw (visit, known, visit_entry) (some-Keeps name ch chs w there)
      | inl new ↦
          rw (visit, new, visit_entry)
            (λ chs' w' e. add_channel-keeps path name own _ chs chs' ch w' new there e)
    ]
  ]
    where
      own : Text
      own = d_name ++ text ".sdp"

      skipped : Bool
      skipped = not is_dir || (text_eq own (text "..sdp") || text_eq own (text "...sdp"))

  visit_entries-Keeps :
      (path name : Text) (es : List (Text × Bool)) (chs : List (Text × LiveChannel))
      (ch : LiveChannel) (w : W)
      → find name chs ≡ some ch
      → Keeps name ch (visit_entries net host ip path es chs w)
  unfolding visit_entries
  visit_entries-Keeps path name [] chs ch w there = some-Keeps name ch chs w there
  visit_entries-Keeps path name (e ∷ es) chs ch w there =
      elim (Option-cases (visit_entry net host ip path e chs w)) [
        | inl failed ↦ rw (failed, visit_entries) (λ chs' w' e. absurd (cc e))
        | inr ((c, u), visited) ↦
            rw (visited, visit_entries)
              (visit_entries-Keeps path name es c ch u
                (visit_entry-Keeps path name e chs ch w there c u visited))
      ]

  -- The channel's directory.
  abbrev pub directory : Text → Text → Text
  directory path name = path ++ before_pos (find_text (text ".sdp") name) name

  gone_channel-exists :
      (path gone : Text) (ch : LiveChannel) (chs : List (Text × LiveChannel)) (w : W)
      → gone_channel net host ip path chs w ≡ some (gone, ch)
      → host.exists (directory path gone) w ≡ false
  unfolding gone_channel
  gone_channel-exists path gone ch [] w e = absurd (cc)
  gone_channel-exists path gone ch ((name, c) ∷ chs) w e =
      elim (Bool-cases (host.exists (directory path name) w)) [
        | inl there ↦ gone_channel-exists path gone ch chs w (rw (there, gone_channel) at e)
        | inr missing ↦
            subst (λ n. host.exists (directory path n) w ≡ false)
              (ap (λ r. r.0) (some-inj (rw (missing, gone_channel) at e))) missing
      ]

  drop_gone-Keeps :
      (path name : Text) (chs : List (Text × LiveChannel)) (ch : LiveChannel) (w : W)
      → find name chs ≡ some ch
      → host.exists (directory path name) w ≡ true
      → find name (drop_gone net host ip path chs w).0 ≡ some ch
  unfolding drop_gone
  drop_gone-Keeps path name chs ch w there stays =
      elim (Option-cases (gone_channel net host ip path chs w)) [
        | inl all ↦ rw (all, drop_gone) there
        | inr ((gone, c), found) ↦ elim (Bool-cases (text_eq gone name)) [
          | inl same ↦ absurd (
              cc (
                gone_channel-exists path gone c chs w found,
                stays,
                (text_eq_iff gone name).0 same,
              ))
          | inr other ↦ rw (found, drop_gone) (find-erase gone name chs other ∙ there)
        ]
      ]

  -- A live channel is left alone: as long as its directory is there, OnTimer keeps its entry as it is,
  -- whatever other channels come and go.
  pub on_timer-Keeps :
      (path name : Text) (chs chs' : List (Text × LiveChannel)) (ch : LiveChannel) (w w' : W)
      → find name chs ≡ some ch
      → ((u : W) → host.exists (directory path name) u ≡ true)
      → on_timer net host ip path chs w ≡ some (chs', w')
      → find name chs' ≡ some ch
  unfolding on_timer
  on_timer-Keeps path name chs chs' ch w w' there stays e =
      elim (Option-cases (host.read_dir path w)) [
        | inl unread ↦
            some-Keeps name ch (drop_gone net host ip path chs w).0
              (drop_gone net host ip path chs w).1
              (drop_gone-Keeps path name chs ch w there (stays w)) chs' w'
              (rw (unread, on_timer) at e)
        | inr (es, read) ↦
            let e₁ = rw (read, on_timer) at e in
            elim (Option-cases (visit_entries net host ip path es chs w)) [
              | inl failed ↦ absurd (cc (rw failed at e₁))
              | inr ((c, u), visited) ↦
                  some-Keeps name ch (drop_gone net host ip path c u).0
                    (drop_gone net host ip path c u).1
                    (drop_gone-Keeps path name c ch u
                      (visit_entries-Keeps path name es chs ch w there c u visited) (stays u))
                    chs' w' (rw visited at e₁)
            ]
      ]
