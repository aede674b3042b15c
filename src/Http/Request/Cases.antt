-- ===== src/Http/Request/Cases.antt =====
-- CHttpRequest::Parse: the ways in which it can end.
use native.Mathlib.Decide.{dec_le}
use byron0416_mp.Error.{ErrorCode, e_ok, e_continue, e_entitytoolarge}
use byron0416_mp.Http.Request.{
  Request, parse, parse_whole, parse_query, take_url, parse_url, parse_field, field_lines,
  after_url, request_lines,
}
use byron0416_mp.Http.Request.Consumed.{IsCString, c_prefix_id, parse_first, parse_used}
use byron0416_mp.Prelude.{
  ℕ, ◌≤◌, ◌<◌, ◌≡◌, ◌≢◌, ◌⊎◌, ap, Bool, true, false, List, [], ◌∷◌, ◌++◌, if◌then◌else◌, Option,
  none, some, arith, inl, inr, Option-cases, ltb, length, le→ltb-false,
}
use byron0416_mp.Text.{Text, crlf, find_text, text, lines_of, text_eq, before_pos}

-- Parse asks for more only where the terminator is not there.
abbrev IsFinal : ErrorCode × Request → Type 0
IsFinal r = r.0 ≢ e_continue

if-IsFinal :
    (b : Bool) (x y : ErrorCode × Request) → IsFinal x → IsFinal y → IsFinal (if b then x else y)
if-IsFinal true x y hx hy = hx
if-IsFinal false x y hx hy = hy

option-IsFinal :
    {A : Type 0} (o : Option A) (x : ErrorCode × Request) (f : A → ErrorCode × Request)
    → IsFinal x
    → ((a : A) → IsFinal (f a))
    → IsFinal (elim o [ none ↦ x | some a ↦ f a ])
option-IsFinal none x f hx hf = hx
option-IsFinal (some a) x f hx hf = hf a

parse_query-IsFinal : (r : Request) (i : ℕ) → IsFinal (parse_query r i)
unfolding parse_query
parse_query-IsFinal r i e = ground arith

take_url-IsFinal : (r : Request) (method full : Text) → IsFinal (take_url r method full)
unfolding take_url
take_url-IsFinal r method full = elim (Option-cases (find_text (text "?") full)) [
  | inl none_there ↦ rw (none_there, take_url) (λ e. absurd (cc e))
  | inr (i, at_i) ↦ rw (at_i, take_url) (parse_query-IsFinal _ i)
]

field_lines-IsFinal : (r : Request) (ls : List Text) → IsFinal (field_lines r ls)
unfolding field_lines
field_lines-IsFinal r [] = λ e. absurd (cc e)
field_lines-IsFinal r (l ∷ ls) =
    if-IsFinal (ltb 1023 (length l)) _ _ (λ e. absurd (cc e))
      (if-IsFinal (text_eq l (13 ∷ [])) _ _ (λ e. absurd (cc e))
        (option-IsFinal (parse_field r (before_pos (find_text (13 ∷ []) l) l)) _ _
          (λ e. absurd (cc e)) (λ q. field_lines-IsFinal q ls)))

after_url-IsFinal :
    (r : ErrorCode × Request) (ls : List Text) → IsFinal r → IsFinal (after_url r ls)
unfolding after_url
after_url-IsFinal (e_ok, r) ls h = field_lines-IsFinal r ls
after_url-IsFinal (_, r) ls h = h

request_lines-IsFinal : (r : Request) (ls : List Text) → IsFinal (request_lines r ls)
unfolding request_lines
request_lines-IsFinal r [] = λ e. absurd (cc e)
request_lines-IsFinal r (l ∷ ls) =
    if-IsFinal (ltb 1023 (length l)) _ _ (λ e. absurd (cc e))
      (if-IsFinal (text_eq l (13 ∷ [])) _ _ (λ e. absurd (cc e))
        (after_url-IsFinal (parse_url r (before_pos (find_text (13 ∷ []) l) l)) ls
          (unfold parse_url in take_url-IsFinal r _ _)))

-- The three ways in which Parse can end.
pub parse-Cases :
    (r : Request) (a : Text)
    → IsCString a
    → find_text (crlf ++ crlf) r.request ≡ none
    → (((parse r a (length a)).code ≡ e_entitytoolarge)
        ⊎ ((parse r a (length a)).code ≡ e_continue)
          × (find_text (crlf ++ crlf) (parse r a (length a)).request.request ≡ none))
      ⊎ ((parse r a (length a)).code ≢ e_continue)
        × (0 < (parse r a (length a)).len)
        × ((parse r a (length a)).len ≤ length a)
unfolding parse
parse-Cases r a h before = elim (dec_le (length (r.request ++ a)) 2048) [
  | no more ↦ inl (inl (rw (c_prefix_id a h) (unfold parse_whole in ground arith)))
  | yes small ↦ elim (Option-cases (find_text (crlf ++ crlf) (r.request ++ a))) [
    | inl absent ↦
        let first = parse_first r a (length a) h small absent in
        inl (inr (ap (λ p. p.code) first, rw first absent))
    | inr (pos, present) ↦
        let used = parse_used r a (length a) pos h small before present in
        inr (
          rw (c_prefix_id a h) (
              unfold parse_whole in
              rw (le→ltb-false 2048 (length (r.request ++ a)) small, present)
                (request_lines-IsFinal _ (lines_of (r.request ++ a)))),
          used.0,
          used.1,
        )
  ]
]
