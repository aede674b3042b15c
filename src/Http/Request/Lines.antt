-- ===== src/Http/Request/Lines.antt =====
-- CHttpRequest::Parse: the lines of a request that is written out.
use mathlib.Core.List.{append_assoc}
use byron0416_mp.Prelude.{
  ℕ, suc, ◌≤◌, ◌<◌, ◌≡◌, ◌≢◌, refl, ap, sym, ◌∙◌, false, List, [], ◌∷◌, ◌++◌, none, some, arith,
  length, length-append, take-append, All, All-map, ltb, le→ltb-false, Bool-cases, inl, inr,
}
use byron0416_mp.Text.{Text, crlf, text_eq, text_key, find_text, starts_with, lines_of, before_pos}
use byron0416_mp.Text.Decimal.{find_text-absent}
use byron0416_mp.Text.Find.{find_text-byte}

-- A byte that can stand in a line.
abbrev pub IsLineByte : ℕ → Type 0
IsLineByte c = (0 < c) × (c ≢ 10) × (c ≢ 13)

abbrev pub IsLine : Text → Type 0
IsLine l = All IsLineByte l × (length l ≤ 1000)

-- The lines of a request, each behind the end of the one before, and the empty line.
abbrev pub lines_text : List Text → Text
lines_text [] = crlf ++ crlf
lines_text (l ∷ ls) = crlf ++ (l ++ lines_text ls)

abbrev pub with_cr : List Text → List Text
with_cr [] = (13 ∷ []) ∷ []
with_cr (l ∷ ls) = (l ++ 13 ∷ []) ∷ with_cr ls

pub lines_of-line :
    (l more : Text)
    → All IsLineByte l
    → lines_of (l ++ (crlf ++ more)) ≡ (l ++ 13 ∷ []) ∷ lines_of more
unfolding lines_of
lines_of-line [] more h = refl
lines_of-line (c ∷ cs) more h = ground (arith, lines_of-line cs more h.1, h.0.1)

pub lines_of-lines :
    (l : Text) (ls : List Text)
    → All IsLineByte l
    → All IsLine ls
    → lines_of (l ++ lines_text ls) ≡ (l ++ 13 ∷ []) ∷ with_cr ls
unfolding lines_of
lines_of-lines l [] h hs = lines_of-line l crlf h
lines_of-lines l (k ∷ ks) h hs =
    lines_of-line l (k ++ lines_text ks) h
    ∙ ap (λ m. (l ++ 13 ∷ []) ∷ m) (lines_of-lines k ks hs.0.0 hs.1)

-- A line without its end.
no_cr : (l : Text) → All IsLineByte l → find_text (13 ∷ []) l ≡ none
no_cr l h = find_text-absent 13 [] l (All-map IsLineByte (λ b. b ≢ 13) l (λ b k. k.2) h)

pub before-cr :
    (l : Text)
    → All IsLineByte l
    → before_pos (find_text (13 ∷ []) (l ++ 13 ∷ [])) (l ++ 13 ∷ []) ≡ l
before-cr l h = rw (find_text-byte 13 l [] (no_cr l h)) (take-append l (13 ∷ []))

pub line-ne_cr :
    (l : Text) → All IsLineByte l → 0 < length l → text_eq (l ++ 13 ∷ []) (13 ∷ []) ≡ false
unfolding text_eq
line-ne_cr [] h pos = absurd (omega arith)
line-ne_cr (c ∷ cs) h pos = ground (arith, h.0.2)

pub line-short : (l : Text) → length l ≤ 1000 → ltb 1023 (length (l ++ 13 ∷ [])) ≡ false
line-short l h =
    le→ltb-false 1023 (length (l ++ 13 ∷ [])) (omega (arith, h, length-append l (13 ∷ [])))

-- The end of the header is found, behind whatever front.
pub find_text-end : (a : Text) → (i : ℕ) × (find_text (crlf ++ crlf) (a ++ (crlf ++ crlf)) ≡ some i)
unfolding find_text starts_with
find_text-end [] = (0, refl)
find_text-end (c ∷ cs) =
    elim (Bool-cases (starts_with (crlf ++ crlf) (c ∷ (cs ++ (crlf ++ crlf))))) [
      | inl here ↦ (0, rw (here, find_text) refl)
      | inr later ↦ let (i, found) = find_text-end cs in (suc i, rw (later, found, find_text) refl)
    ]

-- The lines end with the end of the header.
pub lines_text-end :
    (a : Text) (ls : List Text) → (b : Text) × (a ++ lines_text ls ≡ b ++ (crlf ++ crlf))
lines_text-end a [] = (a, refl)
lines_text-end a (l ∷ ls) =
    let (b, e) = lines_text-end (a ++ (crlf ++ l)) ls in
    (b, sym (append_assoc a (crlf ++ l) (lines_text ls)) ∙ e)
