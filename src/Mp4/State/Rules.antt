-- ===== src/Mp4/State/Rules.antt =====
-- Two ways to say what a run of the demuxer's functions leads to, with a rule for a sequence each.
use mathlib.Core.Path.{subst₂}
use byron0416_mp.Prelude.{◌≡◌, refl, ap, Bool, true, false, Option, none, some}
use byron0416_mp.Mp4.State.{
  Run, ok, fail, fault, stuck, M, must, require, index, and_then, when◌run◌otherwise◌,
}

-- If the run returns true, the post-condition holds of the result and the state.
pub data Returns {S A : Type 0} (P : A → S → Type 0) : Run S A → Type 0 where
  returns : {a : A} {s : S} → P a s → Returns P (ok a s)
  on_fail : {s : S} → Returns P (fail s)
  on_fault : Returns P fault
  on_stuck : Returns P stuck

-- The run does not use up its fuel, and if it returns true, the post-condition holds.
pub data Ends {S A : Type 0} (P : A → S → Type 0) : Run S A → Type 0 where
  ends : {a : A} {s : S} → P a s → Ends P (ok a s)
  by_fail : {s : S} → Ends P (fail s)
  by_fault : Ends P fault

module _ {S A B : Type 0} {P : A → S → Type 0} {Q : B → S → Type 0} {k : A → M S B} where
  pub Returns-bind :
      {r : Run S A}
      → Returns P r
      → ((a : A) (s : S) → P a s → Returns Q (k a s))
      → Returns Q (and_then r k)
  Returns-bind (returns {a} {s} p) h = h a s p
  Returns-bind on_fail h = on_fail
  Returns-bind on_fault h = on_fault
  Returns-bind on_stuck h = on_stuck

  pub Ends-bind :
      {r : Run S A} → Ends P r → ((a : A) (s : S) → P a s → Ends Q (k a s)) → Ends Q (and_then r k)
  Ends-bind (ends {a} {s} p) h = h a s p
  Ends-bind by_fail h = by_fail
  Ends-bind by_fault h = by_fault

module _ {S A : Type 0} {P : A → S → Type 0} where
  pub Returns-ok : {r : Run S A} {a : A} {s : S} → Returns P r → r ≡ ok a s → P a s
  Returns-ok (returns {a} {s} p) e = go e
    where
      got : Run S A → A
      got (ok x _) = x
      got _ = a

      left : Run S A → S
      left (ok _ t) = t
      left _ = s

      go : {b : A} {t : S} → ok a s ≡ ok b t → P b t
      go e = subst₂ P (ap got e) (ap left e) p
  Returns-ok on_fail e = absurd (cc)
  Returns-ok on_fault e = absurd (cc)
  Returns-ok on_stuck e = absurd (cc)

  pub Returns-mono :
      {Q : A → S → Type 0} {r : Run S A}
      → ((a : A) (s : S) → P a s → Q a s)
      → Returns P r
      → Returns Q r
  Returns-mono h (returns {a} {s} p) = returns (h a s p)
  Returns-mono h on_fail = on_fail
  Returns-mono h on_fault = on_fault
  Returns-mono h on_stuck = on_stuck

  pub Ends-mono :
      {Q : A → S → Type 0} {r : Run S A} → ((a : A) (s : S) → P a s → Q a s) → Ends P r → Ends Q r
  Ends-mono h (ends {a} {s} p) = ends (h a s p)
  Ends-mono h by_fail = by_fail
  Ends-mono h by_fault = by_fault

  pub Returns-when :
      (b : Bool) (m n : M S A) (s : S)
      → (b ≡ true → Returns P (m s))
      → (b ≡ false → Returns P (n s))
      → Returns P ((when b run m otherwise n) s)
  Returns-when true m n s h k = h refl
  Returns-when false m n s h k = k refl

  pub Ends-when :
      (b : Bool) (m n : M S A) (s : S)
      → (b ≡ true → Ends P (m s))
      → (b ≡ false → Ends P (n s))
      → Ends P ((when b run m otherwise n) s)
  Ends-when true m n s h k = h refl
  Ends-when false m n s h k = k refl

  pub Ends-ne-stuck : {r : Run S A} → Ends P r → r ≡ stuck → ⊥
  Ends-ne-stuck (ends p) e = cc
  Ends-ne-stuck by_fail e = cc
  Ends-ne-stuck by_fault e = cc

module _ {S : Type 0} where
  pub Returns-must : (b : Bool) (s : S) → Returns (λ _ _. b ≡ true) (must b s)
  unfolding must
  Returns-must true s = returns refl
  Returns-must false s = on_fault

  pub Returns-require : (b : Bool) (s : S) → Returns (λ _ t. (b ≡ true) × (t ≡ s)) (require b s)
  unfolding require
  Returns-require true s = returns (refl, refl)
  Returns-require false s = on_fail

  pub Returns-index : {A : Type 0} (o : Option A) (s : S) → Returns (λ a _. o ≡ some a) (index o s)
  Returns-index none s = on_fault
  Returns-index (some a) s = returns refl

  pub Ends-must : (b : Bool) (s : S) → Ends (λ _ t. (b ≡ true) × (t ≡ s)) (must b s)
  unfolding must
  Ends-must true s = ends (refl, refl)
  Ends-must false s = by_fault

  pub Ends-require : (b : Bool) (s : S) → Ends (λ _ t. (b ≡ true) × (t ≡ s)) (require b s)
  unfolding require
  Ends-require true s = ends (refl, refl)
  Ends-require false s = by_fail
