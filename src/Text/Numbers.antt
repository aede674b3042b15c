-- ===== src/Text/Numbers.antt =====
-- Numbers in text, as the streams of the standard library print and read them.
use byron0416_mp.Text.{Text}
use byron0416_mp.Prelude.{
  ℕ, zero, suc, ◌+◌, ◌-◌, ◌*◌, ◌/◌, ◌%◌, ◌^◌, Bool, ◌&&◌, ◌||◌, [], ◌∷◌, ◌++◌, Option, none, some,
  ltb, leb, ◌==◌, if◌then◌else◌, sub64,
}

abbrev pub digit : ℕ → ℕ
digit d = if ltb d 10 then 48 + d else 87 + d

-- The digits of a number to a base, of which there are at most as many as the fuel.
unfoldable pub digits : ℕ → ℕ → ℕ → Text
digits base zero n = []
digits base (suc fuel) n =
    let front = digits base fuel (n / base) in
    (if n / base == 0 then [] else front) ++ (digit (n % base) ∷ [])

-- A size_t has at most 20 decimal and 16 hexadecimal digits.
abbrev pub decimal : ℕ → Text
decimal n = digits 10 20 n

abbrev pub hexadecimal : ℕ → Text
hexadecimal n = digits 16 16 n

abbrev pub is_space : ℕ → Bool
is_space c = c == 32 || (leb 9 c && leb c 13)

unfoldable pub skip_space : Text → Text
skip_space [] = []
skip_space (c ∷ cs) = if is_space c then skip_space cs else c ∷ cs

abbrev pub is_digit : ℕ → Bool
is_digit c = leb 48 c && leb c 57

-- The value of the digits in front, behind those that have been read. Values that do not fit are
-- cut to the largest size_t.
unfoldable pub read_digits : ℕ → Text → ℕ
read_digits acc [] = acc
read_digits acc (c ∷ cs) =
    let next = acc * 10 + (c - 48) in
    let rest = read_digits (if ltb next (2 ^ 64) then next else 2 ^ 64 - 1) cs in
    if is_digit c then rest else acc

-- in >> n for a size_t n: none leaves n as it was, which happens when there is nothing to read
-- behind the white space. Text that is no number makes n zero; a minus sign counts down from 2^64.
unfoldable pub read_number : Text → Option ℕ
read_number s = elim (skip_space s) [
  | [] ↦ none
  | c ∷ cs ↦
      if c == b'-'
      then some (sub64 0 (read_digits 0 cs))
      else (if c == b'+' then some (read_digits 0 cs) else some (read_digits 0 (c ∷ cs)))
]
