-- ===== src/Main/Entries.antt =====
-- Main.cpp, a line of the configuration file and what it sets.
use mathlib.Core.List.{append-nil}
use byron0416_mp.Main.{
  int_digits, Settings, last_byte, with_slash, add_path, read_int, times_10000, value_of, has,
  set_media, set_live_path, set_level, take_param,
}
use byron0416_mp.Prelude.{
  ℕ, ◌*◌, ◌^◌, ◌≤◌, ◌<◌, ◌≡◌, ◌≢◌, refl, ap, sym, ◌∙◌, true, false, List, [], ◌∷◌, ◌++◌, none, some,
  arith, ◌==◌, if◌then◌else◌, length, All, All-map, get_last_or, get_last_or-append, Bool-cases,
  Option-cases, inl, inr, some-inj,
}
use byron0416_mp.Text.{Text, text, find_text, starts_with}
use byron0416_mp.Text.Numbers.{decimal, skip_space, read_digits}
use byron0416_mp.Text.Decimal.{
  find_text-absent, read_digits-decimal, decimal-pos, decimal-IsDigit, IsDigit,
}

-- A line of the file.
pub data Entry : Type 0 where
  comment media_dir live_dir live_ip : Text → Entry
  log_level : ℕ → Entry

abbrev pub line_of : Entry → Text
line_of (comment t) = b'#' ∷ t
line_of (media_dir t) = text "media_dir=" ++ t
line_of (live_dir t) = text "live_dir=" ++ t
line_of (live_ip t) = text "live_ip=" ++ t
line_of (log_level n) = text "log_level=" ++ decimal n

abbrev pub config_text : List Entry → Text
config_text [] = []
config_text (e ∷ es) = line_of e ++ 10 ∷ config_text es

-- A byte of a line.
abbrev pub IsFileByte : ℕ → Type 0
IsFileByte c = (0 < c) × (c ≢ 10)

abbrev pub IsValue : Text → Type 0
IsValue t = All IsFileByte t × (length t ≤ 240)

-- The value of a line does not look like another line, a directory is not empty, and a level is one
-- that can be multiplied.
abbrev pub IsEntry : Entry → Type 0
IsEntry (comment t) = IsValue t
IsEntry (media_dir t) = IsValue t × (0 < length t)
IsEntry (live_dir t) = IsValue t × (0 < length t) × (find_text (text "media_dir=") t ≡ none)
IsEntry (live_ip t) =
    IsValue t × (find_text (text "media_dir=") t ≡ none) × (find_text (text "live_dir=") t ≡ none)
IsEntry (log_level n) = n * 10000 < 2 ^ 31

-- A directory with one slash at its end.
abbrev pub directory_of : Text → Text
directory_of t = if get_last_or 0 t == b'/' then t else t ++ text "/"

-- What an entry asks for.
abbrev pub apply : Entry → Settings → Settings
apply (comment t) s = s
apply (media_dir t) s = record s { media = s.media ++ (directory_of t ∷ []) }
apply (live_dir t) s = record s { live_path = directory_of t }
apply (live_ip t) s = record s { live_ip = t }
apply (log_level n) s = record s { level = some (false, n * 10000) }

abbrev pub apply_all : List Entry → Settings → Settings
apply_all [] s = s
apply_all (e ∷ es) s = apply_all es (apply e s)

with_slash-directory : (t : Text) → 0 < length t → with_slash t ≡ some (directory_of t)
unfolding with_slash last_byte
with_slash-directory [] h = absurd (omega arith)
with_slash-directory (c ∷ cs) h = refl

abbrev pub IsDirectory : Text → Type 0
IsDirectory p = last_byte p ≡ some b'/'

last_byte-append : (t : Text) (c : ℕ) → last_byte (t ++ c ∷ []) ≡ some c
unfolding last_byte
last_byte-append [] c = refl
last_byte-append (d ∷ t) c = ap some (get_last_or-append d c t)

pub with_slash-IsDirectory : (t p : Text) → with_slash t ≡ some p → IsDirectory p
unfolding with_slash
with_slash-IsDirectory t p h = elim (Option-cases (last_byte t)) [
  | inl empty ↦ absurd (cc (rw (empty, with_slash) at h))
  | inr (c, last) ↦ elim (Bool-cases (c == b'/')) [
    | inl slash ↦ ground (arith, rw (last, slash, with_slash) at h, last, slash)
    | inr other ↦
        ap last_byte (sym (some-inj (rw (last, other, with_slash) at h))) ∙ last_byte-append t b'/'
  ]
]

pub add_path-directory :
    (p : Text) (paths : List Text) → IsDirectory p → add_path p paths ≡ some (paths ++ (p ∷ []))
unfolding add_path with_slash
add_path-directory p paths h = rw (h, add_path, with_slash) refl

read_int-digits : (s : Text) → All IsDigit s → 0 < length s → read_int s ≡ int_digits false s
unfolding read_int skip_space
read_int-digits [] h pos = absurd (omega arith)
read_int-digits (c ∷ cs) h pos = ground (arith, h.0.0, h.0.1)

read_int-decimal : (n : ℕ) → n * 10000 < 2 ^ 31 → read_int (decimal n) ≡ (false, n)
read_int-decimal n h =
    let whole : read_digits 0 (decimal n) ≡ n =
      ap (read_digits 0) (sym (append-nil (decimal n)))
      ∙ read_digits-decimal n [] (omega (arith, h)) tt in
    read_int-digits (decimal n) (decimal-IsDigit n) (decimal-pos n) ∙ rw whole (ground (arith, h))

set_media-value :
    (t : Text) (s : Settings)
    → 0 < length t
    → set_media t s ≡ some (record s { media = s.media ++ (directory_of t ∷ []) })
unfolding set_media
set_media-value t s pos =
    let slash = with_slash-directory t pos in
    rw
      (
        slash,
        add_path-directory (directory_of t) s.media
            (with_slash-IsDirectory t (directory_of t) slash),
        set_media,
      )
      refl

set_live_path-value :
    (t : Text) (s : Settings)
    → 0 < length t
    → set_live_path t s ≡ some (record s { live_path = directory_of t })
unfolding set_live_path
set_live_path-value t s pos = rw (with_slash-directory t pos, set_live_path) refl

set_level-value :
    (n : ℕ) (s : Settings)
    → n * 10000 < 2 ^ 31
    → set_level (decimal n) s ≡ some (record s { level = some (false, n * 10000) })
unfolding set_level times_10000
set_level-value n s h = rw (read_int-decimal n h, set_level) (ground arith)

decimal-absent :
    (c : ℕ) (needle : Text) (n : ℕ) → 58 ≤ c → find_text (c ∷ needle) (decimal n) ≡ none
decimal-absent c needle n h =
    find_text-absent c needle (decimal n)
      (All-map IsDigit (λ b. b ≢ c) (decimal n) (λ b k. omega (arith, k, h)) (decimal-IsDigit n))

-- Which of the tests of the loop a line passes, and what its value is.
media_dir-test :
    (t : Text)
    → (has (text "media_dir=") (text "media_dir=" ++ t) ≡ true)
      × (value_of (text "media_dir=" ++ t) ≡ t)
unfolding find_text starts_with
media_dir-test t = (refl, refl)

live_dir-test :
    (t : Text)
    → find_text (text "media_dir=") t ≡ none
    → (has (text "media_dir=") (text "live_dir=" ++ t) ≡ false)
      × (has (text "live_dir=") (text "live_dir=" ++ t) ≡ true)
      × (value_of (text "live_dir=" ++ t) ≡ t)
unfolding find_text starts_with
live_dir-test t h = (rw (h, has) refl, refl, refl)

live_ip-test :
    (t : Text)
    → find_text (text "media_dir=") t ≡ none
    → find_text (text "live_dir=") t ≡ none
    → (has (text "media_dir=") (text "live_ip=" ++ t) ≡ false)
      × (has (text "live_dir=") (text "live_ip=" ++ t) ≡ false)
      × (has (text "live_ip=") (text "live_ip=" ++ t) ≡ true)
      × (value_of (text "live_ip=" ++ t) ≡ t)
unfolding find_text starts_with
live_ip-test t h g = (rw (h, has) refl, rw (g, has) refl, refl, refl)

log_level-test :
    (t : Text)
    → find_text (text "media_dir=") t ≡ none
    → find_text (text "live_dir=") t ≡ none
    → find_text (text "live_ip=") t ≡ none
    → (has (text "media_dir=") (text "log_level=" ++ t) ≡ false)
      × (has (text "live_dir=") (text "log_level=" ++ t) ≡ false)
      × (has (text "live_ip=") (text "log_level=" ++ t) ≡ false)
      × (has (text "log_level=") (text "log_level=" ++ t) ≡ true)
      × (value_of (text "log_level=" ++ t) ≡ t)
unfolding find_text starts_with
log_level-test t h g k = (rw (h, has) refl, rw (g, has) refl, rw (k, has) refl, refl, refl)

pub take_param-line :
    (e : Entry) (s : Settings) → IsEntry e → take_param (line_of e) s ≡ some (apply e s)
unfolding take_param
take_param-line (comment t) s h = refl
take_param-line (media_dir t) s h =
    let (own, value) = media_dir-test t in rw (own, value) (set_media-value t s h.1)
take_param-line (live_dir t) s h =
    let (other, own, value) = live_dir-test t h.2 in
    rw (other, own, value) (set_live_path-value t s h.1)
take_param-line (live_ip t) s h =
    let (other, other₁, own, value) = live_ip-test t h.1 h.2 in rw (other, other₁, own, value) refl
take_param-line (log_level n) s h =
    let (other, other₁, other₂, own, value) =
      log_level-test (decimal n) (decimal-absent 109 _ n (omega arith))
        (decimal-absent 108 _ n (omega arith)) (decimal-absent 108 _ n (omega arith)) in
    rw (other, other₁, other₂, own, value) (set_level-value n s h)
