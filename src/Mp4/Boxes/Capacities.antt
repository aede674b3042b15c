-- ===== src/Mp4/Boxes/Capacities.antt =====
-- How ParseStsc spreads its rows over the chunks.
use byron0416_mp.Prelude.{
  ℕ, ◌-◌, ◌^◌, ◌≤◌, ◌<◌, ◌≡◌, ◌∙◌, ap, List, [], ◌∷◌, ◌++◌, some, arith, length, get_elem?,
  get_last_or, replicate, sub32, length-append, length-replicate, get_elem?-append_left,
  get_elem?-last, inl, inr, suc, ◌+◌, leb, leb→le, Bool-cases, get_elem?-append_right,
  get_elem?-replicate,
}
use byron0416_mp.Mp4.Boxes.{add_capacity}

-- The last capacity and the copies of it.
get_elem?-fill :
    (c : ℕ) (cs : List ℕ) (gap k : ℕ)
    → length (c ∷ cs) ≤ suc k
    → k < length (c ∷ cs) + gap
    → get_elem? ((c ∷ cs) ++ replicate gap (get_last_or c cs)) k ≡ some (get_last_or c cs)
get_elem?-fill c cs gap k lo hi = elim (Bool-cases (leb (suc (length cs)) k)) [
  | inl is_behind ↦
      let behind = leb→le (suc (length cs)) k is_behind in
      get_elem?-append_right (c ∷ cs) (replicate gap (get_last_or c cs)) k behind
      ∙ get_elem?-replicate gap (k - length (c ∷ cs)) (get_last_or c cs) (omega (arith, behind, hi))
  | inr is_last ↦
      let last : k < suc (length cs) = ground (arith, is_last) in
      get_elem?-append_left (c ∷ cs) (replicate gap (get_last_or c cs)) k (omega (arith, last))
      ∙ get_elem?-last 0 (c ∷ cs) k (omega (arith, last, lo))
]

-- A row of stsc for a chunk that is not covered yet: behind it the chunks up to that one are covered;
-- those that were keep their capacity, those between get the one of the row before, and the chunk
-- itself gets the row's. Here i stands for a chunk that was covered, and k for the last of them or
-- one of those between, of which there may be none.
pub add_capacity_lem :
    (capacities : List ℕ) (first per i k : ℕ)
    → length capacities < first
    → first < 2 ^ 32
    → i < length capacities
    → length capacities ≤ suc k
    → k < first - 1
    → (length (add_capacity capacities first per) ≡ first)
      × (get_elem? (add_capacity capacities first per) i ≡ get_elem? capacities i)
      × (get_elem? (add_capacity capacities first per) k ≡ some (get_last_or 0 capacities))
      × (get_elem? (add_capacity capacities first per) (first - 1) ≡ some per)
unfolding add_capacity
add_capacity_lem [] first per i k before small lt lo hi = absurd (omega arith)
add_capacity_lem (c ∷ cs) first per i k before small lt lo hi =
    let gap = sub32 first 1 - length (c ∷ cs) in
    let fill = replicate gap (get_last_or c cs) in
    let of_fill = length-replicate gap (get_last_or c cs) in
    let of_front = length-append (c ∷ cs) fill in
    let here : length ((c ∷ cs) ++ fill) ≡ first - 1 =
      omega (arith, of_fill, of_front, before, small) in
    let at_end : first - 1 - length ((c ∷ cs) ++ fill) ≡ 0 = omega (arith, here) in
    (
      omega (arith, length-append ((c ∷ cs) ++ fill) (per ∷ []), here, before),
      get_elem?-append_left ((c ∷ cs) ++ fill) (per ∷ []) i (omega (arith, here, lt, before))
          ∙ get_elem?-append_left (c ∷ cs) fill i lt,
      get_elem?-append_left ((c ∷ cs) ++ fill) (per ∷ []) k (omega (arith, here, hi))
          ∙ get_elem?-fill c cs gap k lo (omega (arith, lo, hi, before, small)),
      get_elem?-append_right ((c ∷ cs) ++ fill) (per ∷ []) (first - 1) (omega (arith, here))
          ∙ ap (get_elem? (per ∷ [])) at_end,
    )
