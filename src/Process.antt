-- ===== src/Process.antt =====
-- What a process has of the system: its open descriptors and its threads, counted. A call takes one, gives
-- one back, or leaves them alone.
use byron0416_mp.Prelude.{ℕ, ◌+◌, ◌-◌, ◌≡◌, Bool, false, ◌==◌, if◌then◌else◌}

pub data Resource : Type 0 where
  descriptor thread : ℕ → Resource

abbrev pub same : Resource → Resource → Bool
same (descriptor a) (descriptor b) = a == b
same (thread a) (thread b) = a == b
same (descriptor a) (thread b) = false
same (thread a) (descriptor b) = false

unfoldable pub one : Resource → Resource → ℕ
one r x = if same r x then 1 else 0

module _ {W : Type 0} (uses : W → Resource → ℕ) where
  abbrev pub Takes : Resource → W → W → Type 0
  Takes r w w' = (x : Resource) → uses w' x ≡ uses w x + one r x

  abbrev pub Gives : Resource → W → W → Type 0
  Gives r w w' = (x : Resource) → uses w' x ≡ uses w x - one r x

  abbrev pub Keeps : W → W → Type 0
  Keeps w w' = (x : Resource) → uses w' x ≡ uses w x
