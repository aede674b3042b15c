-- ===== src/Text/Find.antt =====
-- What find says of a text.
use byron0416_mp.Prelude.{
  ℕ, suc, ◌+◌, ◌<◌, ◌≤◌, ◌≡◌, refl, sym, ◌∙◌, true, [], ◌∷◌, ◌++◌, none, some, arith, length,
  Bool-cases, Option-cases, inl, inr, drop,
}
use native.Mathlib.Decide.{dec_le}
use native.Mathlib.Numerals.{add-one}
use byron0416_mp.Text.{Text, starts_with, find_text}

pub starts_with-le : (needle s : Text) → starts_with needle s ≡ true → length needle ≤ length s
unfolding starts_with
starts_with-le [] s h = omega arith
starts_with-le (n ∷ ns) [] h = absurd (cc)
starts_with-le (n ∷ ns) (c ∷ cs) h = ground (arith, starts_with-le ns cs)

-- A text that is found lies within the other.
pub find_text-le :
    (needle s : Text) (i : ℕ) → find_text needle s ≡ some i → i + length needle ≤ length s
unfolding find_text
find_text-le needle [] i h = ground (arith, starts_with-le needle [])
find_text-le needle (c ∷ cs) i h = elim (Bool-cases (starts_with needle (c ∷ cs))) [
  | inl e ↦ ground (arith, starts_with-le needle (c ∷ cs) e, e)
  | inr e ↦ elim (Option-cases (find_text needle cs)) [
    | inl none_there ↦ absurd (cc (rw (e, none_there) at h))
    | inr (k, at_k) ↦ ground (arith, find_text-le needle cs k at_k, e, at_k)
  ]
]

starts_with-append :
    (needle a b : Text)
    → length needle ≤ length a
    → starts_with needle (a ++ b) ≡ starts_with needle a
unfolding starts_with
starts_with-append [] a b h = refl
starts_with-append (n ∷ ns) [] b h = absurd (omega arith)
starts_with-append (n ∷ ns) (c ∷ cs) b h = ground (arith, starts_with-append ns cs b)

-- A text that is not in the front is found, if at all, in a place that reaches beyond the front.
pub find_text-append_beyond :
    (needle a b : Text) (i : ℕ)
    → find_text needle a ≡ none
    → find_text needle (a ++ b) ≡ some i
    → length a < i + length needle
unfolding find_text
find_text-append_beyond [] [] b i h g = absurd (unfold starts_with in cc h)
find_text-append_beyond (n ∷ ns) [] b i h g = omega arith
find_text-append_beyond needle (c ∷ cs) b i h g =
    elim (Bool-cases (starts_with needle (c ∷ (cs ++ b)))) [
      | inl e ↦ elim (dec_le (length needle) (suc (length cs))) [
        | yes le ↦ absurd (ground (arith, sym (starts_with-append needle (c ∷ cs) b le) ∙ e))
        | no more ↦ omega arith
      ]
      | inr e ↦ elim (Option-cases (find_text needle (cs ++ b))) [
        | inl none_there ↦ absurd (cc (rw (e, none_there) at g))
        | inr (k, at_k) ↦
            let later = find_text-append_beyond needle cs b k (ground arith) at_k in
            ground (arith, e, at_k, later)
      ]
    ]

-- A byte that is not in the front is found right behind it.
pub find_text-byte :
    (b : ℕ) (a rest : Text)
    → find_text (b ∷ []) a ≡ none
    → find_text (b ∷ []) (a ++ b ∷ rest) ≡ some (length a)
unfolding find_text starts_with
find_text-byte b [] rest h = ground arith
find_text-byte b (c ∷ cs) rest h = elim (Option-cases (find_text (b ∷ []) cs)) [
  | inl e ↦ ground (arith, e, find_text-byte b cs rest e)
  | inr (k, e) ↦ absurd (ground (arith, e))
]

drop-suc_behind : (a : Text) (b : ℕ) (rest : Text) → drop (suc (length a)) (a ++ b ∷ rest) ≡ rest
drop-suc_behind [] b rest = refl
drop-suc_behind (c ∷ cs) b rest = drop-suc_behind cs b rest

pub drop-behind : (a : Text) (b : ℕ) (rest : Text) → drop (length a + 1) (a ++ b ∷ rest) ≡ rest
drop-behind a b rest = rw add-one (drop-suc_behind a b rest)
