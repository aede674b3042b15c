-- ===== src/Text/Decimal.antt =====
-- Decimal numbers that are printed and read again.
use byron0416_mp.Prelude.{
  ℕ, zero, suc, ◌+◌, ◌*◌, ◌/◌, ◌%◌, ◌^◌, ◌≤◌, ◌<◌, ◌≡◌, ◌≢◌, refl, ap, ◌∙◌, Bool, true, false, [],
  ◌∷◌, ◌++◌, none, some, arith, inl, inr, Bool-cases, length, length-append, All, All-append, ◌==◌,
  if◌then◌else◌,
}
use mathlib.Core.List.{append_assoc}
use byron0416_mp.Text.{Text, find_text, starts_with}
use byron0416_mp.Text.Numbers.{
  digit, digits, decimal, is_digit, skip_space, read_digits, read_number,
}

-- Text behind a number: it does not begin with a digit.
abbrev pub IsStop : Text → Type 0
IsStop [] = Unit
IsStop (c ∷ cs) = is_digit c ≡ false

read_digits-stop : (n : ℕ) (rest : Text) → IsStop rest → read_digits n rest ≡ n
unfolding read_digits
read_digits-stop n [] h = refl
read_digits-stop n (c ∷ cs) h = rw (h, read_digits) refl

-- A digit in front.
read_digits-digit :
    (n d : ℕ) (rest : Text)
    → d < 10
    → n * 10 + d < 2 ^ 64
    → read_digits n (digit d ∷ rest) ≡ read_digits (n * 10 + d) rest
unfolding read_digits
read_digits-digit n d rest small fits = ground arith

read_digits-digits :
    (fuel n : ℕ) (rest : Text)
    → n < 10 ^ fuel
    → n < 2 ^ 64
    → read_digits 0 (digits 10 fuel n ++ rest) ≡ read_digits n rest
unfolding digits
read_digits-digits zero n rest bound fits =
    ap (λ k. read_digits k rest) {x = 0} (omega (arith, bound))
read_digits-digits (suc fuel) n rest bound fits = elim (Bool-cases ((n / 10) == 0)) [
  | inl one ↦
      let last : n % 10 ≡ n = ground (arith, one) in
      rw (one, digits, last)
        (read_digits-digit 0 n rest (ground (arith, one)) (omega (arith, fits))
          ∙ ap (λ k. read_digits k rest) {x = 0 * 10 + n} (omega arith))
  | inr more ↦
      let whole : (n / 10) * 10 + n % 10 ≡ n = omega arith in
      let smaller : n / 10 < 10 ^ fuel = omega (arith, bound) in
      rw (more, digits, append_assoc (digits 10 fuel (n / 10)) (digit (n % 10) ∷ []) rest)
        (read_digits-digits fuel (n / 10) (digit (n % 10) ∷ rest) smaller (omega (arith, fits))
          ∙ read_digits-digit (n / 10) (n % 10) rest (omega arith) (omega (arith, fits))
          ∙ ap (λ k. read_digits k rest) whole)
]

abbrev pub IsDigit : ℕ → Type 0
IsDigit c = (48 ≤ c) × (c ≤ 57)

digit-IsDigit : (d : ℕ) → d < 10 → IsDigit (digit d)
digit-IsDigit d h = ground arith

if-All : (P : ℕ → Type 0) (b : Bool) (s t : Text) → All P s → All P t → All P (if b then s else t)
if-All P true s t hs ht = hs
if-All P false s t hs ht = ht

digits-IsDigit : (fuel n : ℕ) → All IsDigit (digits 10 fuel n)
unfolding digits
digits-IsDigit zero n = tt
digits-IsDigit (suc fuel) n =
    All-append IsDigit _ (digit (n % 10) ∷ [])
      (if-All IsDigit (n / 10 == 0) [] _ tt (digits-IsDigit fuel (n / 10)))
      (digit-IsDigit (n % 10) (omega arith), tt)

digits-pos : (fuel n : ℕ) → 0 < length (digits 10 (suc fuel) n)
unfolding digits
digits-pos fuel n = omega (
  arith,
  length-append (if (n / 10) == 0 then [] else digits 10 fuel (n / 10)) (digit (n % 10) ∷ []),
)

pub decimal-IsDigit : (n : ℕ) → All IsDigit (decimal n)
decimal-IsDigit n = digits-IsDigit 20 n

read_number-digits :
    (s rest : Text)
    → All IsDigit s
    → 0 < length s
    → read_number (s ++ rest) ≡ some (read_digits 0 (s ++ rest))
unfolding read_number skip_space
read_number-digits [] rest h pos = absurd (omega arith)
read_number-digits (c ∷ cs) rest h pos = ground (arith, h.0.0, h.0.1)

pub read_digits-decimal :
    (n : ℕ) (rest : Text) → n < 2 ^ 64 → IsStop rest → read_digits 0 (decimal n ++ rest) ≡ n
read_digits-decimal n rest fits stop =
    read_digits-digits 20 n rest (omega (arith, fits)) fits ∙ read_digits-stop n rest stop

pub decimal-pos : (n : ℕ) → 0 < length (decimal n)
decimal-pos n = digits-pos 19 n

-- A number that was printed is read back, whatever stands behind it but a digit.
pub read_number-decimal :
    (n : ℕ) (rest : Text) → n < 2 ^ 64 → IsStop rest → read_number (decimal n ++ rest) ≡ some n
read_number-decimal n rest fits stop =
    read_number-digits (decimal n) rest (decimal-IsDigit n) (decimal-pos n)
    ∙ ap some (read_digits-decimal n rest fits stop)

-- What is not in a text is not found there.
pub find_text-absent :
    (c : ℕ) (needle s : Text) → All (λ b. b ≢ c) s → find_text (c ∷ needle) s ≡ none
unfolding find_text starts_with
find_text-absent c needle [] h = refl
find_text-absent c needle (b ∷ s) h = ground (arith, find_text-absent c needle s h.1, h.0)

length-digits : (fuel n : ℕ) → length (digits 10 fuel n) ≤ fuel
unfolding digits
length-digits zero n = omega arith
length-digits (suc fuel) n = elim (Bool-cases ((n / 10) == 0)) [
  | inl one ↦ rw (one, digits) (omega arith)
  | inr more ↦
      rw (more, digits)
        (omega (
          arith,
          length-digits fuel (n / 10),
          length-append (digits 10 fuel (n / 10)) (digit (n % 10) ∷ []),
        ))
]

pub length-decimal : (n : ℕ) → length (decimal n) ≤ 20
length-decimal n = length-digits 20 n
