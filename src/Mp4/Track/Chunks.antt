-- ===== src/Mp4/Track/Chunks.antt =====
-- Where the samples that ParseTrak builds lie in the file, chunk by chunk.
use byron0416_mp.Prelude.{
  ℕ, zero, suc, ◌+◌, ◌-◌, ◌%◌, ◌^◌, ◌<◌, ◌≤◌, ◌≡◌, refl, sym, ap, ◌∙◌, List, [], ◌∷◌, some, inl,
  inr, arith, length, get_elem?, take, drop, add64, All, Option-cases, get_elem?-drop, drop-drop,
  get_elem?-lt, All-get_elem?, All-get_last_or,
}
use byron0416_mp.Mp4.State.{Track, Sample}
use native.Mathlib.Nat.{zero-add}
use byron0416_mp.Mp4.Track.Times.{sum, build_loop-cons, length-build_loop}
use byron0416_mp.Mp4.Track.{
  Cursor, advance, build_loop, build_samples, chunk_offset_at, chunk_capacity_at,
}

-- A capacity that a chunk can have.
abbrev pub IsCapacity : ℕ → Type 0
IsCapacity n = (0 < n) × (n < 2 ^ 64)

-- The number of samples in n chunks from the i-th on.
unfoldable pub span : List ℕ → ℕ → ℕ → ℕ
span capacities i zero = 0
span capacities i (suc n) = chunk_capacity_at capacities i + span capacities (i + 1) n

module _ (offsets capacities : List ℕ) where
  -- The cursor inside a chunk, and the one at the start of the next chunk.
  inside :
      (c : Cursor) (dur len : ℕ)
      → 1 < c.ccapacity
      → c.ccapacity < 2 ^ 64
      → advance offsets capacities c dur len
        ≡ record c { ts = add64 c.ts dur; ccapacity = c.ccapacity - 1; offset = add64 c.offset len }
  unfolding advance
  inside c dur len lo hi = ground arith

  abbrev next_chunk : Cursor → ℕ → Cursor
  next_chunk c ts = record {
    ts = ts;
    cidx = c.cidx + 1;
    coffset = chunk_offset_at offsets (c.cidx + 1) c.coffset;
    ccapacity = chunk_capacity_at capacities (c.cidx + 1);
    offset = 0;
  }

  turn :
      (c : Cursor) (dur len : ℕ)
      → c.ccapacity ≡ 1
      → advance offsets capacities c dur len ≡ next_chunk c (add64 c.ts dur)
  unfolding advance
  turn c dur len e = ground arith

  -- A sample in the current chunk.
  in_chunk :
      (c : Cursor) (durs sizes : List ℕ) (k : ℕ) {out : List Sample} {x : Sample}
      → c.ccapacity < 2 ^ 64
      → k < c.ccapacity
      → build_loop offsets capacities c durs sizes ≡ some out
      → get_elem? out k ≡ some x
      → x.offset ≡ (c.coffset + c.offset + sum (take k sizes)) % 2 ^ 64
  unfolding build_loop
  in_chunk c [] sizes k hi lt e at_k = absurd (ground arith)
  in_chunk c (dur ∷ durs) [] k hi lt e at_k = absurd (cc)
  in_chunk c (dur ∷ durs) (len ∷ sizes) zero hi lt e at_k =
      let (rest, splits, goes) = build_loop-cons offsets capacities c dur len durs sizes e in
      ground arith
  in_chunk c (dur ∷ durs) (len ∷ sizes) (suc k) {out} {x} hi lt e at_k =
      let (rest, splits, goes) = build_loop-cons offsets capacities c dur len durs sizes e in
      let at_rest : get_elem? rest k ≡ some x = rw splits at at_k in
      let step = inside c dur len (omega arith) hi in
      let later =
        in_chunk (advance offsets capacities c dur len) durs sizes k (rw step (omega arith))
          (rw step (omega arith)) goes at_rest in
      omega (arith, rw step at later)

  -- Behind the current chunk the loop goes on at the start of the next one.
  abbrev GoesOn : Cursor → ℕ → List ℕ → List ℕ → List Sample → Type 0
  GoesOn c n durs sizes out =
      (ts : ℕ) × (build_loop offsets capacities (next_chunk c ts) (drop n durs) (drop n sizes)
        ≡ some (drop n out))

  behind_chunk :
      (n : ℕ) (c : Cursor) (durs sizes : List ℕ) {out : List Sample}
      → c.ccapacity ≡ suc n
      → suc n < 2 ^ 64
      → suc n ≤ length durs
      → build_loop offsets capacities c durs sizes ≡ some out
      → GoesOn c (suc n) durs sizes out
  unfolding build_loop
  behind_chunk n c [] sizes cap hi le e = absurd (omega arith)
  behind_chunk n c (dur ∷ durs) [] cap hi le e = absurd (cc)
  behind_chunk zero c (dur ∷ durs) (len ∷ sizes) cap hi le e =
      let (rest, splits, goes) = build_loop-cons offsets capacities c dur len durs sizes e in
      (add64 c.ts dur, rw splits (rw (turn c dur len cap) at goes))
  behind_chunk (suc n) c (dur ∷ durs) (len ∷ sizes) cap hi le e =
      let (rest, splits, goes) = build_loop-cons offsets capacities c dur len durs sizes e in
      let step = inside c dur len (omega arith) (omega arith) in
      let (ts, later) =
        behind_chunk n (advance offsets capacities c dur len) durs sizes (rw step (omega arith))
          (omega arith) (omega arith) goes in
      (ts, rw splits (rw step at later))

  -- The sample j of the n-th chunk after the one at whose start the cursor stands.
  in_nth_chunk :
      (n : ℕ) (c : Cursor) (durs sizes : List ℕ) (j m o : ℕ) {out : List Sample} {x : Sample}
      → ((i : ℕ) → IsCapacity (chunk_capacity_at capacities i))
      → c.offset ≡ 0
      → c.ccapacity ≡ chunk_capacity_at capacities c.cidx
      → c.coffset ≡ chunk_offset_at offsets c.cidx c.coffset
      → c.cidx + n ≡ m
      → j < chunk_capacity_at capacities m
      → get_elem? offsets m ≡ some o
      → build_loop offsets capacities c durs sizes ≡ some out
      → get_elem? out (span capacities c.cidx n + j) ≡ some x
      → x.offset ≡ (o + sum (take j (drop (span capacities c.cidx n) sizes))) % 2 ^ 64
  unfolding span
  in_nth_chunk zero c durs sizes j m o {out} {x} caps start full off sums lt at_m e at_x =
      let same : c.cidx ≡ m = omega arith in
      let at_j : get_elem? out j ≡ some x = rw zero-add at at_x in
      let here =
        in_chunk c durs sizes j (omega (arith, (caps c.cidx).1))
          (omega (arith, ap (chunk_capacity_at capacities) same)) e at_j in
      let off_o : c.coffset ≡ o = off ∙ ground (arith, same, at_m) in omega (arith, here)
  in_nth_chunk (suc n) c durs sizes j m o {out} {x} caps start full off sums lt at_m e at_x =
      let size = chunk_capacity_at capacities c.cidx in
      let next = span capacities (c.cidx + 1) n in
      let enough = get_elem?-lt out (size + next + j) at_x in
      let p : suc (size - 1) ≡ size = omega (arith, (caps c.cidx).0) in
      let (ts, goes) =
        behind_chunk (size - 1) c durs sizes (full ∙ sym p) (omega (arith, p, (caps c.cidx).1))
          (omega (arith, enough, p, length-build_loop offsets capacities c durs sizes e)) e in
      let at_next : get_elem? (drop (suc (size - 1)) out) (next + j) ≡ some x =
        get_elem?-drop (suc (size - 1)) (next + j) out
        ∙ ap (get_elem? out) (omega (arith, p))
        ∙ at_x in
      in_nth_chunk n (next_chunk c ts) (drop (suc (size - 1)) durs) (drop (suc (size - 1)) sizes) j
        m o caps refl refl (ground arith) (omega arith) lt at_m goes at_next
      ∙ ap (λ l. (o + sum (take j l)) % 2 ^ 64)
          (drop-drop next (suc (size - 1)) sizes ∙ ap (λ k. drop k sizes) (omega (arith, p)))

chunk_capacity_at-IsCapacity :
    (capacities : List ℕ) (i : ℕ)
    → 0 < length capacities
    → All IsCapacity capacities
    → IsCapacity (chunk_capacity_at capacities i)
chunk_capacity_at-IsCapacity capacities i full all = elim (Option-cases (get_elem? capacities i)) [
  | inl e ↦ rw (e, chunk_capacity_at) (All-get_last_or IsCapacity 0 capacities full all)
  | inr (k, e) ↦ rw (e, chunk_capacity_at) (All-get_elem? IsCapacity capacities i all e)
]

-- Where every capacity of stsc is positive, the j-th sample of a chunk that stco names lies behind
-- the chunk's first j samples, counted from the chunk's offset (modulo 2^64). The chunk's first
-- sample is the one that the capacities of the chunks before it leave; behind the end of stsc its
-- last capacity goes on.
pub build_samples-offset :
    (t : Track) (out : List Sample) (chunk j o : ℕ) (x : Sample)
    → build_samples t ≡ some out
    → All IsCapacity t.chunk_capacity
    → get_elem? t.chunk_offset chunk ≡ some o
    → j < chunk_capacity_at t.chunk_capacity chunk
    → get_elem? out (span t.chunk_capacity 0 chunk + j) ≡ some x
    → x.offset ≡ (o + sum (take j (drop (span t.chunk_capacity 0 chunk) t.sample_size))) % 2 ^ 64
unfolding build_samples
build_samples-offset t out chunk j o x e all at_o lt at_x =
    elim (Option-cases (get_elem? t.chunk_offset 0)) [
      | inl empty ↦ absurd (cc (rw (empty, build_samples) at e))
      | inr (first, at_first) ↦ elim (Option-cases (get_elem? t.chunk_capacity 0)) [
        | inl empty ↦ absurd (cc (rw (at_first, build_samples, empty, build_samples) at e))
        | inr (k, at_k) ↦
            in_nth_chunk t.chunk_offset t.chunk_capacity chunk
              (record { ts = 0; cidx = 0; coffset = first; ccapacity = k; offset = 0 }) t.sample_dur
              t.sample_size j chunk o
              (λ i.
                chunk_capacity_at-IsCapacity t.chunk_capacity i
                  (omega (arith, get_elem?-lt t.chunk_capacity 0 at_k)) all)
              refl (ground (arith, at_k)) (ground (arith, at_first)) (omega arith) lt at_o
              (rw (at_first, build_samples, at_k, build_samples) at e) at_x
      ]
    ]
