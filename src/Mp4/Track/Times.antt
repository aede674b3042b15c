-- ===== src/Mp4/Track/Times.antt =====
-- The times and lengths of the samples that ParseTrak builds.
use byron0416_mp.Prelude.{
  ℕ, zero, suc, ◌+◌, ◌%◌, ◌^◌, ◌<◌, ◌≡◌, List, [], ◌∷◌, some, arith, length, get_elem?, take, add64,
  Option-cases, inl, inr,
}
use byron0416_mp.Mp4.State.{Track, Sample}
use byron0416_mp.Mp4.Track.{Cursor, advance, build_loop, build_samples}

abbrev pub sum : List ℕ → ℕ
sum [] = 0
sum (x ∷ xs) = x + sum xs

-- A successful round of the loop, taken apart.
pub build_loop-cons :
    (offsets capacities : List ℕ) (c : Cursor) (dur len : ℕ) (durs sizes : List ℕ)
    {out : List Sample}
    → build_loop offsets capacities c (dur ∷ durs) (len ∷ sizes) ≡ some out
    → (rest : List Sample) × (out
        ≡ record { timestamp = c.ts; duration = dur; offset = add64 c.coffset c.offset; len = len }
          ∷ rest)
      × (build_loop offsets capacities (advance offsets capacities c dur len) durs sizes
          ≡ some rest)
unfolding build_loop
build_loop-cons offsets capacities c dur len durs sizes e =
    elim (Option-cases
      (build_loop offsets capacities (advance offsets capacities c dur len) durs sizes)) [
        | inl fails ↦ absurd (cc (rw (fails, build_loop) at e))
        | inr (rest, goes) ↦ (rest, cc (rw (goes, build_loop) at e), goes)
      ]

advance-ts :
    (offsets capacities : List ℕ) (c : Cursor) (dur len : ℕ)
    → (advance offsets capacities c dur len).ts ≡ add64 c.ts dur
unfolding advance
advance-ts offsets capacities c dur len = ground arith

pub length-build_loop :
    (offsets capacities : List ℕ) (c : Cursor) (durs sizes : List ℕ) {out : List Sample}
    → build_loop offsets capacities c durs sizes ≡ some out
    → length out ≡ length durs
unfolding build_loop
length-build_loop offsets capacities c [] sizes e = ground arith
length-build_loop offsets capacities c (dur ∷ durs) [] e = absurd (cc)
length-build_loop offsets capacities c (dur ∷ durs) (len ∷ sizes) e =
    let (rest, splits, goes) = build_loop-cons offsets capacities c dur len durs sizes e in
    rw splits (
      omega (
        arith,
        length-build_loop offsets capacities (advance offsets capacities c dur len) durs sizes goes,
      ))

abbrev Times : ℕ → List ℕ → List ℕ → ℕ → Sample → Type 0
Times ts durs sizes k x =
    (x.timestamp ≡ (ts + sum (take k durs)) % 2 ^ 64)
    × (get_elem? durs k ≡ some x.duration)
    × (get_elem? sizes k ≡ some x.len)

build_loop-Times :
    (offsets capacities : List ℕ) (c : Cursor) (durs sizes : List ℕ) (k : ℕ) {out : List Sample}
    {x : Sample}
    → c.ts < 2 ^ 64
    → build_loop offsets capacities c durs sizes ≡ some out
    → get_elem? out k ≡ some x
    → Times c.ts durs sizes k x
unfolding build_loop
build_loop-Times offsets capacities c [] sizes k h e at_k = absurd (ground arith)
build_loop-Times offsets capacities c (dur ∷ durs) [] k h e at_k = absurd (cc)
build_loop-Times offsets capacities c (dur ∷ durs) (len ∷ sizes) zero h e at_k =
    let (rest, splits, goes) = build_loop-cons offsets capacities c dur len durs sizes e in
    ground arith
build_loop-Times offsets capacities c (dur ∷ durs) (len ∷ sizes) (suc k) {out} {x} h e at_k =
    let (rest, splits, goes) = build_loop-cons offsets capacities c dur len durs sizes e in
    let at_rest : get_elem? rest k ≡ some x = rw splits at at_k in
    let moved = advance-ts offsets capacities c dur len in
    let later =
      build_loop-Times offsets capacities (advance offsets capacities c dur len) durs sizes k
        (omega (arith, moved)) goes at_rest in
    (omega (arith, later.0, moved), later.1, later.2)

-- The samples that ParseTrak builds are as many as the durations of stts, and the k-th of them has
-- the k-th duration and the k-th size, and starts when those before it end, modulo 2^64.
pub build_samples-Times :
    (t : Track) (out : List Sample) (k : ℕ) (x : Sample)
    → build_samples t ≡ some out
    → get_elem? out k ≡ some x
    → (length out ≡ length t.sample_dur)
      × (x.timestamp ≡ sum (take k t.sample_dur) % 2 ^ 64)
      × (get_elem? t.sample_dur k ≡ some x.duration)
      × (get_elem? t.sample_size k ≡ some x.len)
unfolding build_samples
build_samples-Times t out k x e at_k = elim (Option-cases (get_elem? t.chunk_offset 0)) [
  | inl empty ↦ absurd (cc (rw (empty, build_samples) at e))
  | inr (o, at_o) ↦ elim (Option-cases (get_elem? t.chunk_capacity 0)) [
    | inl empty ↦ absurd (cc (rw (at_o, build_samples, empty, build_samples) at e))
    | inr (n, at_n) ↦
        let first : Cursor = record { ts = 0; cidx = 0; coffset = o; ccapacity = n; offset = 0 } in
        let loop = rw (at_o, build_samples, at_n, build_samples) at e in
        let times =
          build_loop-Times t.chunk_offset t.chunk_capacity first t.sample_dur t.sample_size k
            (omega arith) loop at_k in
        (
          length-build_loop t.chunk_offset t.chunk_capacity first t.sample_dur t.sample_size loop,
          omega (arith, times.0),
          times.1,
          times.2,
        )
  ]
]
