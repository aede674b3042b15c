-- ===== src/Mp4/Track.antt =====
-- Mp4.cpp, CTrack::Seek, and the loop of CMp4Demuxer::ParseTrak that turns the tables of a track
-- into its samples.
pub mod Chunks
pub mod Times
pub mod Seeking
pub mod Keys
use byron0416_mp.Prelude.{
  ℕ, zero, suc, ◌*◌, ◌+◌, ◌%◌, ◌^◌, ◌/◌, Bool, true, false, List, [], ◌∷◌, Option, none, some,
  length, get_elem?, get_last_or, leb, ltb, ◌==◌, if◌then◌else◌, add64, sub64, mul64,
}
use byron0416_mp.Mp4.State.{Track, Sample}

-- m_Timestamp*1000/m_Timescale; none is the division by zero.
abbrev pub to_ms : ℕ → ℕ → Option ℕ
to_ms scale ts = if scale == 0 then none else some (mul64 ts 1000 / scale)

-- The outcome of a seek: the new track, or a fault. The function never returns false, since its
-- index is unsigned and the test i>=0 always holds.
abbrev test_at : List Sample → ℕ → ℕ → ℕ → Option Bool
test_at samples scale i pos = elim (get_elem? samples i) [
  | none ↦ none
  | some s ↦ elim (to_ms scale s.timestamp) [ none ↦ none | some ms ↦ some (leb ms pos) ]
]

-- for(i=size-1; i>=0; i--) over the samples; the argument is i+1, and at 0 the index has wrapped to
-- the largest size_t, which no vector has.
unfoldable pub seek_samples : ℕ → List Sample → ℕ → ℕ → Option ℕ
seek_samples zero samples scale pos = none
seek_samples (suc i) samples scale pos = elim (test_at samples scale i pos) [
  | none ↦ none
  | some true ↦ some i
  | some false ↦ seek_samples i samples scale pos
]

-- The same loop over the key frames.
unfoldable pub seek_keys : ℕ → List ℕ → List Sample → ℕ → ℕ → Option ℕ
seek_keys zero keys samples scale pos = none
seek_keys (suc i) keys samples scale pos = elim (get_elem? keys i) [
  | none ↦ none
  | some k ↦ elim (test_at samples scale k pos) [
    | none ↦ none
    | some true ↦ some k
    | some false ↦ seek_keys i keys samples scale pos
  ]
]

unfoldable pub seek_index : Track → ℕ → Option ℕ
seek_index t pos =
    if t.key
    then seek_keys (length t.keys) t.keys t.samples t.timescale pos
    else seek_samples (length t.samples) t.samples t.timescale pos

-- CTrack::Seek.
unfoldable pub seek : Track → ℕ → Option Track
seek t pos = elim (seek_index t pos) [
  | none ↦ none
  | some i ↦ some (record t { sample_readed = i })
]

-- The variables of the loop in ParseTrak.
pub record Cursor : Type 0 where
  pub ts : ℕ
  pub cidx : ℕ
  pub coffset : ℕ
  pub ccapacity : ℕ
  pub offset : ℕ

abbrev pub chunk_offset_at : List ℕ → ℕ → ℕ → ℕ
chunk_offset_at offsets i old = elim (get_elem? offsets i) [ none ↦ old | some o ↦ o ]

-- m_ChunkCapacity[cidx], or the last one behind the end.
abbrev pub chunk_capacity_at : List ℕ → ℕ → ℕ
chunk_capacity_at capacities i = elim (get_elem? capacities i) [
  | none ↦ get_last_or 0 capacities
  | some c ↦ c
]

-- The body of the loop, after the sample has been filled in.
unfoldable pub advance : List ℕ → List ℕ → Cursor → ℕ → ℕ → Cursor
advance offsets capacities c dur len =
    if sub64 c.ccapacity 1 == 0
    then record {
      ts = add64 c.ts dur;
      cidx = c.cidx + 1;
      coffset = chunk_offset_at offsets (c.cidx + 1) c.coffset;
      ccapacity = chunk_capacity_at capacities (c.cidx + 1);
      offset = 0;
    }
    else record c {
      ts = add64 c.ts dur;
      ccapacity = sub64 c.ccapacity 1;
      offset = add64 c.offset len;
    }

-- Over m_SampleDur and m_SampleSize; none is an index out of range of the latter.
unfoldable pub build_loop : List ℕ → List ℕ → Cursor → List ℕ → List ℕ → Option (List Sample)
build_loop offsets capacities c [] sizes = some []
build_loop offsets capacities c (dur ∷ durs) [] = none
build_loop offsets capacities c (dur ∷ durs) (len ∷ sizes) =
    let sample : Sample = record {
      timestamp = c.ts;
      duration = dur;
      offset = add64 c.coffset c.offset;
      len = len;
    } in
    elim (build_loop offsets capacities (advance offsets capacities c dur len) durs sizes) [
      | none ↦ none
      | some rest ↦ some (sample ∷ rest)
    ]

-- m_ChunkOffset[0] and m_ChunkCapacity[0] are read before the loop.
unfoldable pub build_samples : Track → Option (List Sample)
build_samples t = elim (get_elem? t.chunk_offset 0) [
  | none ↦ none
  | some o ↦ elim (get_elem? t.chunk_capacity 0) [
    | none ↦ none
    | some k ↦
        build_loop t.chunk_offset t.chunk_capacity
          (record { ts = 0; cidx = 0; coffset = o; ccapacity = k; offset = 0 }) t.sample_dur
          t.sample_size
  ]
]
