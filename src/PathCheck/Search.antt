-- ===== src/PathCheck/Search.antt =====
-- The search of `getPathCombinations` against the list of all free combinations.
use redundant_mptcp_r_mptcp.Prelude.{
  ℕ, zero, suc, ◌+◌, ◌^◌, ◌≤◌, ◌<◌, ◌≡◌, refl, sym, ap, ◌∙◌, ◌⊎◌, inl, inr, true, false, Bool-cases,
  none, some, List, [], ◌∷◌, ◌++◌, All, ltb, ◌==◌, length, modify, length-modify, arith, ◌>>=◌,
}
use native.Mathlib.Numerals.{add-one}
use mathlib.Core.List.{append_assoc, append-nil}
use redundant_mptcp_r_mptcp.Register.{RedSk, Socks, PathMeasurements, PathIndex}
use redundant_mptcp_r_mptcp.Settings.{empty_measurements}
use redundant_mptcp_r_mptcp.PathCheck.{
  distinct, clash, count_paths, check_overlap, get_addresses, add_combination, try_masks,
  get_path_combinations,
}
use redundant_mptcp_r_mptcp.PathCheck.Free.{
  selected, is_free, free_masks, count_paths-selected, check_overlap-nodup,
}
use redundant_mptcp_r_mptcp.PathCheck.Count.{paths_asked, parallel, parallel-eq-paths_asked}
use redundant_mptcp_r_mptcp.PathCheck.Addresses.{get_addresses-Addresses}

-- The masks of the first `n` entries of `pM`.
abbrev masks : ℕ → List PathMeasurements → List ℕ
masks zero ms = []
masks (suc n) [] = []
masks (suc n) (m ∷ ms) = m.mask ∷ masks n ms

abbrev pub found : PathIndex → List ℕ
found p = masks p.num_path_combinations p.path_measurements

masks-modify :
    (n : ℕ) (ms : List PathMeasurements) (v : PathMeasurements)
    → n < length ms
    → masks (suc n) (modify (λ _. v) n ms) ≡ masks n ms ++ (v.mask ∷ [])
masks-modify n [] v h = absurd (omega arith)
masks-modify zero (m ∷ ms) v h = refl
masks-modify (suc n) (m ∷ ms) v h = ap (◌∷◌ m.mask) (masks-modify n ms v (omega arith))

-- A combination is added while the array has room.
add_combination_cases :
    (mask : ℕ) (p : PathIndex)
    → length p.path_measurements ≡ 24
    → ((24 ≤ p.num_path_combinations) × (add_combination mask p ≡ none))
      ⊎ ((p' : PathIndex) × (add_combination mask p ≡ some p')
          × (found p' ≡ found p ++ (mask ∷ []))
          × (p'.num_path_combinations ≡ p.num_path_combinations + 1)
          × (p'.max_num_parallel_paths ≡ p.max_num_parallel_paths)
          × (length p'.path_measurements ≡ 24)
          × (p.num_path_combinations < 24))
unfolding add_combination
add_combination_cases mask p whole =
    let n = p.num_path_combinations in
    let v : PathMeasurements = record empty_measurements { mask = mask } in
    elim (Bool-cases (ltb n 24)) [
      | inr many ↦ inl (ground arith, rw many)
      | inl room ↦
          let below : n < 24 = ground arith in
          inr (
            record p {
              path_measurements = modify (λ _. v) n p.path_measurements;
              num_path_combinations = n + 1;
            },
            rw room,
            rw add-one (masks-modify n p.path_measurements v (omega arith)),
            refl,
            refl,
            length-modify (λ _. v) n p.path_measurements ∙ whole,
            below,
          )
    ]

-- One mask: it is a free combination exactly if the count fits and the search of it ends well.
module _ (socks : Socks) (k : ℕ) (small : k < 4) (es : List RedSk) where
  step-free :
      (rounds mask : ℕ) (p : PathIndex)
      → is_free socks k es mask ≡ true
      → try_masks socks es k (suc rounds) mask p
        ≡ (add_combination mask p >>= λ q. try_masks socks es k rounds (suc mask) q)
  unfolding try_masks
  step-free rounds mask p h =
      let count = count_paths-selected mask 0 es in
      let right : (count_paths mask 0 es == k) ≡ true = rw count (ground (arith, h)) in
      let few : length (selected mask 0 es) < 4 = ground (arith, h) in
      let ends : check_overlap socks mask 0 [] [] es ≡ distinct =
        check_overlap-nodup socks mask es few ∙ ground (arith, h) in
      rw (right, try_masks, ends)

  step-other :
      (rounds mask : ℕ) (p : PathIndex)
      → is_free socks k es mask ≡ false
      → try_masks socks es k (suc rounds) mask p ≡ try_masks socks es k rounds (suc mask) p
  unfolding try_masks
  step-other rounds mask p h =
      let count = count_paths-selected mask 0 es in
      elim (Bool-cases (count_paths mask 0 es == k)) [
        | inr wrong ↦ rw (wrong, try_masks)
        | inl right ↦
            let same : (length (selected mask 0 es) == k) ≡ true = rw count at right in
            let few : length (selected mask 0 es) < 4 = ground arith in
            let ends : check_overlap socks mask 0 [] [] es ≡ clash =
              check_overlap-nodup socks mask es few ∙ ground (arith, h, same) in
            rw (right, try_masks, ends)
      ]

  -- What the search comes to, from the combinations known before it.
  abbrev Searched : (rounds mask : ℕ) → PathIndex → Type 0
  Searched rounds mask p =
      let free = free_masks socks k es rounds mask in
      ((try_masks socks es k rounds mask p ≡ none) × (24 < p.num_path_combinations + length free))
      ⊎ ((q : PathIndex) × (try_masks socks es k rounds mask p ≡ some q)
          × (found q ≡ found p ++ free)
          × (q.num_path_combinations ≡ p.num_path_combinations + length free)
          × (q.num_path_combinations ≤ 24)
          × (q.max_num_parallel_paths ≡ p.max_num_parallel_paths)
          × (length q.path_measurements ≡ 24))

  try_masks-Searched :
      (rounds mask : ℕ) (p : PathIndex)
      → length p.path_measurements ≡ 24
      → p.num_path_combinations ≤ 24
      → Searched rounds mask p
  try_masks-Searched zero mask p whole fits =
      inr (p, unfold try_masks in refl, sym (append-nil (found p)), omega arith, fits, refl, whole)
  try_masks-Searched (suc rounds) mask p whole fits = elim (Bool-cases (is_free socks k es mask)) [
    | inr other ↦
        rw (step-other rounds mask p other, other)
          (try_masks-Searched rounds (suc mask) p whole fits)
    | inl free ↦
        let step = step-free rounds mask p free in
        elim (add_combination_cases mask p whole) [
          | inl (many, fault) ↦ inl (step ∙ rw fault, rw free (omega arith))
          | inr (p', added, more, one, same_k, whole', room) ↦
              let next : try_masks socks es k (suc rounds) mask p
                  ≡ try_masks socks es k rounds (suc mask) p' =
                step ∙ rw added in
              elim (try_masks-Searched rounds (suc mask) p' whole' (omega arith)) [
                | inl (fault, many) ↦ inl (next ∙ fault, rw free (omega arith))
                | inr (q, done, all, count, bound, k', whole'') ↦ inr (
                  q,
                  next ∙ done,
                  rw free (all ∙ rw more (append_assoc (found p) (mask ∷ []) _)),
                  rw free (omega arith),
                  bound,
                  k' ∙ same_k,
                  whole'',
                )
              ]
        ]
  ]

parallel-lt : (socks : Socks) (es : List RedSk) (p : PathIndex) → parallel socks es p < 4
parallel-lt socks es p =
    let q = get_addresses socks es p in
    let a = get_addresses-Addresses socks es p in
    elim (Bool-cases (ltb (length q.src_addr) 4)) [
      | inl few ↦ ground arith
      | inr many ↦
          let four : length q.src_addr ≡ 4 = ground (arith, a.src_most) in
          omega (arith, ap length (a.dst_none four))
    ]

-- The search on the number of paths that the arrays give.
get_path_combinations-parallel :
    (socks : Socks) (es : List RedSk) (p : PathIndex)
    → length p.path_measurements ≡ 24
    → let k = parallel socks es p in
      let free = free_masks socks k es (2 ^ length es) 0 in
      ((get_path_combinations socks es p ≡ none) × (24 < length free))
      ⊎ ((q : PathIndex) × (get_path_combinations socks es p ≡ some q)
          × (found q ≡ free)
          × (q.num_path_combinations ≡ length free)
          × (length free ≤ 24)
          × (q.max_num_parallel_paths ≡ k)
          × (length q.path_measurements ≡ 24))
unfolding get_path_combinations
get_path_combinations-parallel socks es p whole =
    let k = parallel socks es p in
    let q = get_addresses socks es p in
    let start : PathIndex = record q { max_num_parallel_paths = k; num_path_combinations = 0 } in
    let same : q.path_measurements ≡ p.path_measurements = unfold get_addresses in refl in
    elim (try_masks-Searched socks k (parallel-lt socks es p) es (2 ^ length es) 0 start
      (ap length same ∙ whole) (omega arith)) [
        | inl (fault, many) ↦ inl (fault, omega arith)
        | inr (q', done, all, count, bound, k', whole') ↦
            inr (q', done, all, omega arith, omega arith, k', whole')
      ]

-- With the array `pM` of 24 entries the search finds the list of all free combinations of `k` paths,
-- those that use no address twice, in the order of their masks. Here `k` is the number of different
-- source or of different destination addresses, whichever are fewer, and 0 if there are four
-- different source addresses or more. The search comes to its end, except where there are more than
-- 24 free combinations: then, and only then, it writes behind the array.
pub get_path_combinations-free :
    (socks : Socks) (es : List RedSk) (p : PathIndex)
    → length p.path_measurements ≡ 24
    → let k = paths_asked socks es in
      let free = free_masks socks k es (2 ^ length es) 0 in
      ((get_path_combinations socks es p ≡ none) × (24 < length free))
      ⊎ ((q : PathIndex) × (get_path_combinations socks es p ≡ some q)
          × (found q ≡ free)
          × (q.num_path_combinations ≡ length free)
          × (length free ≤ 24)
          × (q.max_num_parallel_paths ≡ k)
          × (length q.path_measurements ≡ 24))
get_path_combinations-free socks es p whole =
    let same = parallel-eq-paths_asked socks es p in
    rw (← same) (get_path_combinations-parallel socks es p whole)

free_masks-is_free :
    (socks : Socks) (k : ℕ) (es : List RedSk) (rounds mask : ℕ)
    → All (λ m. length (selected m 0 es) ≡ k) (free_masks socks k es rounds mask)
free_masks-is_free socks k es zero mask = tt
free_masks-is_free socks k es (suc rounds) mask =
    let rest = free_masks-is_free socks k es rounds (suc mask) in
    elim (Bool-cases (is_free socks k es mask)) [
      | inl free ↦ rw free (ground (arith, free), rest)
      | inr other ↦ rw other rest
    ]

-- With the array `pM` of 24 entries, and where the subflows have four source addresses, which the
-- arrays have room for, the combinations that a search without a fault finds have no path at all.
pub get_path_combinations_four :
    (socks : Socks) (es : List RedSk) (p q : PathIndex)
    → length p.path_measurements ≡ 24
    → length (get_addresses socks es p).src_addr ≡ 4
    → get_path_combinations socks es p ≡ some q
    → All (λ m. length (selected m 0 es) ≡ 0) (found q)
get_path_combinations_four socks es p q whole four done =
    let a = get_addresses-Addresses socks es p in
    let none_asked : parallel socks es p ≡ 0 = omega (arith, ap length (a.dst_none four)) in
    elim (get_path_combinations-parallel socks es p whole) [
      | inl (fault, many) ↦ absurd (cc)
      | inr (q', done', all, count, bound, k', whole') ↦
          let same : q' ≡ q = cc in
          rw (← same, all, none_asked) (free_masks-is_free socks 0 es (2 ^ length es) 0)
    ]
