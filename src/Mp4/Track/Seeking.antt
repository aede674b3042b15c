-- ===== src/Mp4/Track/Seeking.antt =====
-- Which sample CTrack::Seek finds.
use byron0416_mp.Prelude.{
  ℕ, zero, suc, ◌/◌, ◌≤◌, ◌<◌, ◌≡◌, ◌≢◌, inl, inr, refl, false, List, none, some, arith, length,
  get_elem?, get_elem?-some, leb, leb→le, leb-false→lt, lt→leb-false, mul64, Bool-cases,
}
use native.Mathlib.Decide.{ℕ_discrete}
use byron0416_mp.Mp4.State.{Track, Sample}
use byron0416_mp.Mp4.Track.{test_at, seek_samples, seek_index, seek}

-- The time of a sample in milliseconds, as Seek computes it.
abbrev pub ms_at : List Sample → ℕ → ℕ → ℕ
ms_at samples scale i = elim (get_elem? samples i) [
  | none ↦ 0
  | some s ↦ mul64 s.timestamp 1000 / scale
]

pub test_at_lem :
    (samples : List Sample) (scale i pos : ℕ)
    → scale ≢ 0
    → i < length samples
    → test_at samples scale i pos ≡ some (leb (ms_at samples scale i) pos)
test_at_lem samples scale i pos h lt =
    let (x, at_i) = get_elem?-some samples i lt in ground (arith, at_i)

-- The index k is the last below n whose sample begins at pos or before.
pub record IsLast (samples : List Sample) (scale pos n k : ℕ) : Type 0 where
  pub below : k < n
  pub early : ms_at samples scale k ≤ pos
  pub last : (j : ℕ) → k < j → j < n → pos < ms_at samples scale j

seek_samples-IsLast :
    (n : ℕ) (samples : List Sample) (scale pos i : ℕ)
    → scale ≢ 0
    → n ≤ length samples
    → i < n
    → ms_at samples scale i ≤ pos
    → (k : ℕ) × (seek_samples n samples scale pos ≡ some k) × IsLast samples scale pos n k
unfolding seek_samples
seek_samples-IsLast zero samples scale pos i h le lt early = absurd (omega arith)
seek_samples-IsLast (suc n) samples scale pos i h le lt early =
    let here = test_at_lem samples scale n pos h (omega arith) in
    elim (Bool-cases (leb (ms_at samples scale n) pos)) [
      | inl good ↦ (
        n,
        rw (here, seek_samples, good, seek_samples) refl,
        record {
          below = omega arith;
          early = leb→le _ _ good;
          last = λ j a b. absurd (omega arith);
        },
      )
      | inr bad ↦
          let late = leb-false→lt (ms_at samples scale n) pos bad in
          let apart : i ≢ n =
            λ e. omega (arith, rw e at early, leb-false→lt (ms_at samples scale n) pos bad) in
          let (k, found, k_last) =
            seek_samples-IsLast n samples scale pos i h (omega arith) (omega arith) early in
          (
            k,
            rw (here, seek_samples, bad, seek_samples) found,
            record {
              below = omega (arith, k_last.below);
              early = k_last.early;
              last = λ j a b. elim (ℕ_discrete j n) [
                | yes e ↦ rw e late
                | no e ↦ k_last.last j a (omega arith)
              ];
            },
          )
    ]

-- Seek on a track with no sync table: where some sample begins at the wanted time or before, it
-- returns true, and the next sample to be read is the last such one.
pub seek-IsLast :
    (t : Track) (pos i : ℕ)
    → t.key ≡ false
    → t.timescale ≢ 0
    → i < length t.samples
    → ms_at t.samples t.timescale i ≤ pos
    → (k : ℕ) × (seek t pos ≡ some (record t { sample_readed = k }))
      × IsLast t.samples t.timescale pos (length t.samples) k
unfolding seek seek_index
seek-IsLast t pos i plain scaled lt early =
    let (k, found, k_last) =
      seek_samples-IsLast (length t.samples) t.samples t.timescale pos i scaled (omega arith) lt
        early in
    (k, ground (arith, found), k_last)

seek_samples-none :
    (n : ℕ) (samples : List Sample) (scale pos : ℕ)
    → scale ≢ 0
    → n ≤ length samples
    → ((i : ℕ) → i < n → pos < ms_at samples scale i)
    → seek_samples n samples scale pos ≡ none
unfolding seek_samples
seek_samples-none zero samples scale pos h le late = refl
seek_samples-none (suc n) samples scale pos h le late =
    rw (test_at_lem samples scale n pos h (omega arith), seek_samples)
      (rw (lt→leb-false _ _ (late n (omega arith)), seek_samples)
        (seek_samples-none n samples scale pos h (omega arith) (λ i lt. late i (omega arith))))

-- Where every sample begins after the wanted time, and so on a track with no sample, Seek does not
-- return false: its loop index is unsigned and goes on behind the vector's end, which is a fault.
pub seek_faults :
    (t : Track) (pos : ℕ)
    → t.key ≡ false
    → t.timescale ≢ 0
    → ((i : ℕ) → i < length t.samples → pos < ms_at t.samples t.timescale i)
    → seek t pos ≡ none
unfolding seek seek_index
seek_faults t pos plain scaled late = ground (
  arith,
  seek_samples-none (length t.samples) t.samples t.timescale pos scaled (omega arith) late,
)
