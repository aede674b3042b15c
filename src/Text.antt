-- ===== src/Text.antt =====
-- std::string, as a list of bytes: the operations that the sources use. npos is none.
pub mod Find
pub mod Decimal
pub mod Lines
pub mod Numbers
use mathlib.Core.Option
use byron0416_mp.Prelude.OrderedMap.{Key}
use byron0416_mp.Prelude.{
  ℕ, zero, suc, ◌+◌, ◌<◌, ◌≡◌, refl, ap, ◌↔◌, Bool, true, false, ◌&&◌, List, [], ◌∷◌, ◌++◌, Option,
  none, some, arith, ltb, ◌==◌, ==_iff, if◌then◌else◌, take, drop,
}
use Prim.Native.Char.{code}
use Prim.Native.String.{String}

abbrev pub Text : Type 0
Text = List ℕ

-- The bytes of a literal; every literal here is ASCII.
abbrev pub text : String → Text
text String.[] = []
text (String.◌∷◌ c s) = code c ∷ text s

abbrev pub crlf : Text
crlf = 13 ∷ 10 ∷ []

-- Equality and the order of std::string.
unfoldable pub text_eq : Text → Text → Bool
text_eq [] [] = true
text_eq [] (b ∷ bs) = false
text_eq (a ∷ as_) [] = false
text_eq (a ∷ as_) (b ∷ bs) = (a == b) && text_eq as_ bs

unfoldable pub text_before : Text → Text → Bool
text_before [] [] = false
text_before [] (b ∷ bs) = true
text_before (a ∷ as_) [] = false
text_before (a ∷ as_) (b ∷ bs) = if a == b then text_before as_ bs else ltb a b

pub text_eq_iff : (s t : Text) → (text_eq s t ≡ true) ↔ (s ≡ t)
unfolding text_eq
text_eq_iff (a ∷ as_) (b ∷ bs) = ground (arith, text_eq_iff as_ bs)
text_eq_iff _ _ = ground arith

instance abbrev pub text_key : Key Text
text_key = record { beq = text_eq; before = text_before; beq_iff = text_eq_iff }

unfoldable pub starts_with : Text → Text → Bool
starts_with [] s = true
starts_with (n ∷ ns) [] = false
starts_with (n ∷ ns) (c ∷ cs) = (n == c) && starts_with ns cs

-- The first place of a text in another.
unfoldable pub find_text : Text → Text → Option ℕ
find_text needle [] = if starts_with needle [] then some 0 else none
find_text needle (c ∷ cs) =
    let rest = find_text needle cs in
    if starts_with needle (c ∷ cs) then some 0 else Option.map suc rest

-- find(needle, from), for a from within the text.
abbrev pub find_text_from : Text → ℕ → Text → Option ℕ
find_text_from needle from s = Option.map (λ i. from + i) (find_text needle (drop from s))

-- The last place of a byte.
unfoldable pub rfind_byte : ℕ → Text → Option ℕ
rfind_byte b [] = none
rfind_byte b (c ∷ cs) = elim (rfind_byte b cs) [
  | some i ↦ some (suc i)
  | none ↦ if c == b then some 0 else none
]

-- substr(0, pos) and substr(pos+k, npos). As npos is the largest size_t, npos+1 is 0.
abbrev pub before_pos : Option ℕ → Text → Text
before_pos none s = s
before_pos (some i) s = take i s

abbrev pub behind_pos : Option ℕ → Text → Text
behind_pos none s = s
behind_pos (some i) s = drop (i + 1) s

-- The lines that getline delivers one after the other, while none of them is too long.
unfoldable pub lines_of : Text → List Text
lines_of [] = []
lines_of (c ∷ cs) =
    if c == 10
    then [] ∷ lines_of cs
    else elim (lines_of cs) [ [] ↦ (c ∷ []) ∷ [] | l ∷ ls ↦ (c ∷ l) ∷ ls ]

-- The part of a buffer that is a C string.
unfoldable pub c_prefix : Text → Text
c_prefix [] = []
c_prefix (c ∷ cs) = if c == 0 then [] else c ∷ c_prefix cs
