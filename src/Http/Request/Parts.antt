-- ===== src/Http/Request/Parts.antt =====
-- CHttpRequest::ParseUrl and ParseParam, on request lines and parameters that are written out.
use byron0416_mp.Prelude.OrderedMap.{insert}
use byron0416_mp.Prelude.{
  ℕ, zero, suc, ◌≤◌, ◌<◌, ◌≡◌, refl, ◌∙◌, Bool, true, List, [], ◌∷◌, ◌++◌, Option, none, some,
  arith, length, length-append, take-append, All,
}
use byron0416_mp.Text.{Text, text, text_key, find_text}
use byron0416_mp.Text.Find.{find_text-byte, drop-behind}
use byron0416_mp.Http.Request.{
  Request, param_round, param_loop, parse_param, finish_url, parse_query, take_url, parse_url,
}

take_url-keeps :
    (r : Request) (method full : Text)
    → ((take_url r method full).1.method ≡ method) × ((take_url r method full).1.full_url ≡ full)
unfolding take_url parse_query finish_url
take_url-keeps r method full = ground arith

-- ParseUrl splits a request line at its spaces: whatever stands behind the second one, the method is
-- what stands before the first, and the full URL what stands between the two.
pub parse_url_lem :
    (r : Request) (method url version : Text)
    → find_text (text " ") method ≡ none
    → find_text (text " ") url ≡ none
    → ((parse_url r (method ++ b' ' ∷ (url ++ b' ' ∷ version))).1.method ≡ method)
      × ((parse_url r (method ++ b' ' ∷ (url ++ b' ' ∷ version))).1.full_url ≡ url)
unfolding parse_url
parse_url_lem r method url version hm hu =
    rw (find_text-byte b' ' method (url ++ b' ' ∷ version) hm, take-append, drop-behind)
      (rw (find_text-byte b' ' url version hu, take-append) (take_url-keeps r method url))

-- A parameter as it stands in a query string.
abbrev pub IsParam : Text × Text → Type 0
IsParam (name, value) = (find_text (text "=") name ≡ none) × (find_text (text "&") value ≡ none)

abbrev pub query_text : List (Text × Text) → Text
query_text [] = []
query_text ((name, value) ∷ []) = name ++ b'=' ∷ value
query_text ((name, value) ∷ p ∷ ps) = name ++ b'=' ∷ (value ++ b'&' ∷ query_text (p ∷ ps))

abbrev pub insert_all : List (Text × Text) → List (Text × Text) → List (Text × Text)
insert_all [] m = m
insert_all ((name, value) ∷ ps) m = insert_all ps (insert name value m)

param_round-last :
    (again : Text → List (Text × Text) → Option (Bool × List (Text × Text)))
    → (name value : Text) (m : List (Text × Text)) → IsParam (name, value)
    → param_round again (name ++ b'=' ∷ value) m ≡ some (true, insert name value m)
unfolding param_round
param_round-last again name value m (hn, hv) =
    rw (param_round, find_text-byte b'=' name value hn, drop-behind)
      (rw (hv, take-append, drop-behind, hv) refl)

param_round-more :
    (again : Text → List (Text × Text) → Option (Bool × List (Text × Text)))
    → (name value rest : Text) (m : List (Text × Text)) → IsParam (name, value)
    → param_round again (name ++ b'=' ∷ (value ++ b'&' ∷ rest)) m ≡ again rest (insert name value m)
unfolding param_round
param_round-more again name value rest m (hn, hv) =
    rw (param_round, find_text-byte b'=' name (value ++ b'&' ∷ rest) hn, drop-behind)
      (rw (find_text-byte b'&' value rest hv, take-append, drop-behind)
        (rw (find_text-byte b'&' value rest hv, take-append, drop-behind) refl))

param_loop-cons :
    (fuel : ℕ) (name tmp : Text) (m : List (Text × Text))
    → param_loop (suc fuel) (name ++ b'=' ∷ tmp) m
      ≡ param_round (param_loop fuel) (name ++ b'=' ∷ tmp) m
unfolding param_loop
param_loop-cons fuel [] tmp m = refl
param_loop-cons fuel (c ∷ cs) tmp m = refl

param_loop-nil : (fuel : ℕ) (m : List (Text × Text)) → param_loop (suc fuel) [] m ≡ some (true, m)
unfolding param_loop
param_loop-nil fuel m = refl

param_loop-round :
    (fuel : ℕ) (ps : List (Text × Text)) (m : List (Text × Text))
    → All IsParam ps
    → length ps < fuel
    → param_loop fuel (query_text ps) m ≡ some (true, insert_all ps m)
param_loop-round zero ps m h lt = absurd (omega arith)
param_loop-round (suc fuel) [] m h lt = param_loop-nil fuel m
param_loop-round (suc fuel) ((name, value) ∷ []) m (h, _) lt =
    param_loop-cons fuel name value m ∙ param_round-last (param_loop fuel) name value m h
param_loop-round (suc fuel) ((name, value) ∷ p ∷ ps) m (h, hs) lt =
    param_loop-cons fuel name (value ++ b'&' ∷ query_text (p ∷ ps)) m
    ∙ param_round-more (param_loop fuel) name value (query_text (p ∷ ps)) m h
    ∙ param_loop-round fuel (p ∷ ps) (insert name value m) hs (omega arith)

pair-le : (name value : Text) → 1 ≤ length (name ++ b'=' ∷ value)
pair-le name value = rw length-append (omega arith)

more-le :
    (name value rest : Text) (n : ℕ)
    → n ≤ length rest
    → suc n ≤ length (name ++ b'=' ∷ (value ++ b'&' ∷ rest))
more-le name value rest n h = rw (length-append, length-append) (omega arith)

length-query_text : (ps : List (Text × Text)) → length ps ≤ length (query_text ps)
length-query_text [] = omega arith
length-query_text ((name, value) ∷ []) = pair-le name value
length-query_text ((name, value) ∷ p ∷ ps) =
    more-le name value (query_text (p ∷ ps)) (length (p ∷ ps)) (length-query_text (p ∷ ps))

-- ParseParam reads a query string back: where no name holds an equals sign and no value an
-- ampersand, it succeeds on name=value pairs joined by ampersands, and stores each pair, in order.
pub parse_param-query_text :
    (ps : List (Text × Text)) (m : List (Text × Text))
    → All IsParam ps
    → parse_param (query_text ps) m ≡ (true, insert_all ps m)
unfolding parse_param
parse_param-query_text ps m h =
    rw
      (
        parse_param,
        param_loop-round (suc (length (query_text ps))) ps m h
            (omega (arith, length-query_text ps)),
      )
      refl
