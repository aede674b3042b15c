-- ===== src/Mp4/Track/Keys.antt =====
-- Which key frame CTrack::Seek finds on a track with a sync table.
use native.Mathlib.Decide.{ℕ_discrete}
use byron0416_mp.Prelude.{
  ℕ, zero, suc, ◌≤◌, ◌<◌, ◌≡◌, ◌≢◌, inl, inr, ap, sym, true, List, none, some, arith, length,
  get_elem?, get_elem?-some, All, All-get_elem?, leb, leb→le, leb-false→lt, Bool-cases,
}
use byron0416_mp.Mp4.State.{Track, Sample}
use byron0416_mp.Mp4.Track.{seek_keys, seek_index, seek}
use byron0416_mp.Mp4.Track.Seeking.{ms_at, test_at_lem}

-- An entry of m_Keys.
abbrev pub key_at : List ℕ → ℕ → ℕ
key_at keys i = elim (get_elem? keys i) [ none ↦ 0 | some k ↦ k ]

-- The index k is the last below n whose key frame begins at pos or before.
pub record IsLastKey (samples : List Sample) (keys : List ℕ) (scale pos n k : ℕ) : Type 0 where
  pub below : k < n
  pub early : ms_at samples scale (key_at keys k) ≤ pos
  pub last : (j : ℕ) → k < j → j < n → pos < ms_at samples scale (key_at keys j)

seek_keys-IsLastKey :
    (n : ℕ) (keys : List ℕ) (samples : List Sample) (scale pos i : ℕ)
    → scale ≢ 0
    → All (λ k. k < length samples) keys
    → n ≤ length keys
    → i < n
    → ms_at samples scale (key_at keys i) ≤ pos
    → (k : ℕ) × (seek_keys n keys samples scale pos ≡ some (key_at keys k))
      × IsLastKey samples keys scale pos n k
unfolding seek_keys
seek_keys-IsLastKey zero keys samples scale pos i h all le lt early = absurd (omega arith)
seek_keys-IsLastKey (suc n) keys samples scale pos i h all le lt early =
    let (key, at_n) = get_elem?-some keys n (omega arith) in
    let here =
      test_at_lem samples scale key pos h
        (All-get_elem? (λ k. k < length samples) keys n all at_n) in
    let same : key_at keys n ≡ key = ground (arith, at_n) in
    elim (Bool-cases (leb (ms_at samples scale key) pos)) [
      | inl good ↦ (
        n,
        rw (at_n, seek_keys, here, seek_keys, good, seek_keys) (ap some (sym same)),
        record {
          below = omega arith;
          early = rw same (leb→le _ _ good);
          last = λ j a b. absurd (omega arith);
        },
      )
      | inr bad ↦
          let late = leb-false→lt (ms_at samples scale key) pos bad in
          let apart : i ≢ n = λ e. omega (arith, rw (e, same) at early, late) in
          let (k, found, k_last) =
            seek_keys-IsLastKey n keys samples scale pos i h all (omega arith) (omega arith)
              early in
          (
            k,
            rw (at_n, seek_keys, here, seek_keys, bad, seek_keys) found,
            record {
              below = omega (arith, k_last.below);
              early = k_last.early;
              last = λ j a b. elim (ℕ_discrete j n) [
                | yes e ↦ rw (e, same) late
                | no e ↦ k_last.last j a (omega arith)
              ];
            },
          )
    ]

-- Seek on a track with a sync table whose entries are samples of the track: where some key frame
-- begins at the wanted time or before, it returns true, and the next sample to be read is the last
-- such key frame of the table.
pub seek-IsLastKey :
    (t : Track) (pos i : ℕ)
    → t.key ≡ true
    → t.timescale ≢ 0
    → All (λ k. k < length t.samples) t.keys
    → i < length t.keys
    → ms_at t.samples t.timescale (key_at t.keys i) ≤ pos
    → (k : ℕ) × (seek t pos ≡ some (record t { sample_readed = key_at t.keys k }))
      × IsLastKey t.samples t.keys t.timescale pos (length t.keys) k
unfolding seek seek_index
seek-IsLastKey t pos i keyed scaled all lt early =
    let (k, found, k_last) =
      seek_keys-IsLastKey (length t.keys) t.keys t.samples t.timescale pos i scaled all
        (omega arith) lt early in
    (k, ground (arith, found), k_last)
