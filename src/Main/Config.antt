-- ===== src/Main/Config.antt =====
-- Main.cpp, the loop over the configuration file.
use byron0416_mp.Main.{
  Settings, no_settings, params, with_slash, set_media, set_live_path, set_level, take_param,
  take_params, read_config, value_of, has, is_comment, times_10000, read_int,
}
use byron0416_mp.Main.Entries.{IsDirectory, with_slash-IsDirectory, add_path-directory}
use byron0416_mp.Prelude.{
  ◌≡◌, refl, Bool, true, false, List, [], ◌∷◌, Option, none, some, if◌then◌else◌, All, All-append,
  Option-cases, inl, inr, some-inj, ◌⊎◌, subst,
}
use byron0416_mp.Text.{Text, text, lines_of}

-- Every directory ends in a slash.
pub record HasDirectories (s : Settings) : Type 0 where
  pub media_end : All IsDirectory s.media
  pub live_end : (s.live_path ≡ []) ⊎ IsDirectory s.live_path

abbrev Leaves : Option Settings → Type 0
Leaves none = Unit
Leaves (some s) = HasDirectories s

if-Leaves : (b : Bool) (p q : Option Settings) → Leaves p → Leaves q → Leaves (if b then p else q)
if-Leaves true p q hp hq = hp
if-Leaves false p q hp hq = hq

set_media-Leaves : (t : Text) (s : Settings) → HasDirectories s → Leaves (set_media t s)
unfolding set_media
set_media-Leaves t s h = elim (Option-cases (with_slash t)) [
  | inl empty ↦ rw (empty, set_media) tt
  | inr (p, slash) ↦
      let end : IsDirectory p = with_slash-IsDirectory t p slash in
      rw (slash, add_path-directory p s.media end, set_media)
        (record {
          media_end = All-append IsDirectory s.media (p ∷ []) h.media_end (end, tt);
          live_end = h.live_end;
        })
]

set_live_path-Leaves : (t : Text) (s : Settings) → HasDirectories s → Leaves (set_live_path t s)
unfolding set_live_path
set_live_path-Leaves t s h = elim (Option-cases (with_slash t)) [
  | inl empty ↦ rw (empty, set_live_path) tt
  | inr (p, slash) ↦
      rw (slash, set_live_path)
        (record { media_end = h.media_end; live_end = inr (with_slash-IsDirectory t p slash) })
]

set_level-Leaves : (t : Text) (s : Settings) → HasDirectories s → Leaves (set_level t s)
unfolding set_level
set_level-Leaves t s h = elim (Option-cases (times_10000 (read_int t))) [
  | inl large ↦ rw (large, set_level) tt
  | inr (n, fits) ↦ rw (fits, set_level) (record { media_end = h.media_end; live_end = h.live_end })
]

take_param-Leaves : (p : Text) (s : Settings) → HasDirectories s → Leaves (take_param p s)
unfolding take_param
take_param-Leaves p s h = if-Leaves (is_comment p) _ _ h (
    if-Leaves (has (text "media_dir=") p) _ _ (set_media-Leaves (value_of p) s h) (
      if-Leaves (has (text "live_dir=") p) _ _ (set_live_path-Leaves (value_of p) s h) (
        if-Leaves (has (text "live_ip=") p) _ _
          (record { media_end = h.media_end; live_end = h.live_end })
          (if-Leaves (has (text "log_level=") p) _ _ (set_level-Leaves (value_of p) s h) h))))

take_params-Leaves : (ps : List Text) (s : Settings) → HasDirectories s → Leaves (take_params ps s)
unfolding take_params
take_params-Leaves [] s h = h
take_params-Leaves (p ∷ ps) s h = elim (Option-cases (take_param p s)) [
  | inl fails ↦ rw (fails, take_params) tt
  | inr (t, takes) ↦
      rw (takes, take_params)
        (take_params-Leaves ps t (subst Leaves takes (take_param-Leaves p s h)))
]

-- Whatever stands in the configuration file, also where it is missing: if main gets through it, every
-- media directory and the directory of the live channels, if one is set, ends in a slash, so that a
-- file's name can be put behind it.
pub read_config-HasDirectories :
    (file : Option Text) (s : Settings) → read_config file no_settings ≡ some s → HasDirectories s
unfolding read_config
read_config-HasDirectories none s h =
    subst HasDirectories (some-inj h) (record { media_end = tt; live_end = inl refl })
read_config-HasDirectories (some file) s h = subst Leaves h (
    take_params-Leaves (params (lines_of file)) no_settings
      (record { media_end = tt; live_end = inl refl }))
