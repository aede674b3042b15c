-- ===== src/Prelude/OrderedMap.antt =====
-- std::map: a list of entries in the order of their keys.
use Prim.Native.Nat.{ℕ}
use mathlib.Core.Path.{◌≡◌, refl}
use mathlib.Core.Logic.{◌↔◌}
use mathlib.Core.Bool.{Bool, true}
use mathlib.Core.List.{List, [], ◌∷◌}
use mathlib.Core.Option.{Option, none, some}
use native.Mathlib.Omega.{arith}
use byron0416_mp.Prelude.Tests.{ltb, ◌==◌ as nat_eq, ==_iff, if◌then◌else◌}

pub record Key {ℓ} (K : Type ℓ) : Type ℓ where
  pub beq : K → K → Bool
  pub before : K → K → Bool
  pub beq_iff : (a b : K) → (beq a b ≡ true) ↔ (a ≡ b)

instance abbrev pub nat_key : Key ℕ
nat_key = record { beq = nat_eq; before = ltb; beq_iff = ==_iff }

module _ {ℓ κ} {K : Type ℓ} {V : Type κ} ⦃key : Key K⦄ where
  unfoldable pub find : K → List (K × V) → Option V
  find k [] = none
  find k ((j, v) ∷ m) = if key.beq j k then some v else find k m

  -- Before the first entry with a greater key.
  unfoldable pub place : K → V → List (K × V) → List (K × V)
  place k v [] = (k, v) ∷ []
  place k v ((j, w) ∷ m) = if key.before k j then (k, v) ∷ (j, w) ∷ m else (j, w) ∷ place k v m

  -- insert does nothing when the key is there.
  unfoldable pub insert : K → V → List (K × V) → List (K × V)
  unfolding find place
  insert k v m = elim (find k m) [ none ↦ place k v m | some _ ↦ m ]

  -- Assignment through an iterator that find returned.
  unfoldable pub assign : K → V → List (K × V) → List (K × V)
  assign k v [] = []
  assign k v ((j, w) ∷ m) = if key.beq j k then (j, v) ∷ m else (j, w) ∷ assign k v m

  unfoldable pub erase : K → List (K × V) → List (K × V)
  erase k [] = []
  erase k ((j, w) ∷ m) = if key.beq j k then m else (j, w) ∷ erase k m

  find-place :
      (k j : K) (v : V) (m : List (K × V))
      → find k m ≡ none
      → find j (place k v m) ≡ (if key.beq k j then some v else find j m)
  unfolding find place
  find-place k j v [] h = refl
  find-place k j v ((i, w) ∷ m) h =
      ground (arith, key.beq_iff k j, key.beq_iff i k, key.beq_iff i j, find-place k j v m)

  -- A key is found after an insertion where it was found before it, or else if it is the new one.
  pub find-insert_new :
      (k j : K) (v : V) (m : List (K × V))
      → find k m ≡ none
      → find j (insert k v m) ≡ (if key.beq k j then some v else find j m)
  unfolding insert
  find-insert_new k j v m h = rw (h, insert) (find-place k j v m h)

  pub insert_old : (k : K) (v : V) {w : V} (m : List (K × V)) → find k m ≡ some w → insert k v m ≡ m
  unfolding insert
  insert_old k v m h = rw (h, insert)

  pub find-assign :
      (k j : K) (v w : V) (m : List (K × V))
      → find k m ≡ some w
      → find j (assign k v m) ≡ (if key.beq k j then some v else find j m)
  unfolding find assign
  find-assign k j v w [] h = absurd (cc)
  find-assign k j v u ((i, w) ∷ m) h =
      ground (arith, key.beq_iff k j, key.beq_iff i k, key.beq_iff i j, find-assign k j v u m)

module _ {ℓ} {K : Type ℓ} ⦃key : Key K⦄ where
  pub beq_refl : (k : K) → key.beq k k ≡ true
  beq_refl k = (key.beq_iff k k).1 refl
