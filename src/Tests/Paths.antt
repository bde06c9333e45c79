-- ===== src/Tests/Paths.antt =====
-- The search for path combinations on two by two and on four by one addresses.
use redundant_mptcp_r_mptcp.Prelude.{
  ◌+◌, ◌/◌, ◌%◌, ◌^◌, ◌<◌, ◌≤◌, ◌≡◌, ◌⊎◌, refl, Option, none, some, List, [], ◌∷◌, All, map, length,
  pos,
}
use redundant_mptcp_r_mptcp.Register.{RedSk, Socks, PathIndex}
use redundant_mptcp_r_mptcp.PathCheck.{get_path_combinations}
use redundant_mptcp_r_mptcp.PathCheck.Free.{selected, free_masks}
use redundant_mptcp_r_mptcp.PathCheck.Count.{paths_asked}
use redundant_mptcp_r_mptcp.PathCheck.Search.{
  found, get_path_combinations-free, get_path_combinations_four,
}
use redundant_mptcp_r_mptcp.Tests.Program.{program}
use redundant_mptcp_r_mptcp.Tests.Fixtures.{subflow, sock_at, no_paths}

-- Two source and two destination addresses, with a subflow for each pair.
abbrev mesh : Socks
mesh sk = sock_at (10 + sk / 2) (20 + sk % 2)

-- A source address for each subflow, and one destination.
abbrev fan : Socks
fan sk = sock_at (10 + sk) 20

abbrev four_subflows : List RedSk
four_subflows = map (λ sk. subflow sk (pos 0)) (2 ∷ 3 ∷ 4 ∷ 5 ∷ [])

mesh_free : free_masks mesh 2 four_subflows (2 ^ 4) 0 ≡ 6 ∷ 9 ∷ []
unfolding program
mesh_free = refl

get_path_combinations-free_example :
    let k = paths_asked mesh four_subflows in
    let free = free_masks mesh k four_subflows (2 ^ length four_subflows) 0 in
    ((get_path_combinations mesh four_subflows no_paths ≡ none) × (24 < length free))
    ⊎ ((q : PathIndex) × (get_path_combinations mesh four_subflows no_paths ≡ some q)
        × (found q ≡ free)
        × (q.num_path_combinations ≡ length free)
        × (length free ≤ 24)
        × (q.max_num_parallel_paths ≡ k)
        × (length q.path_measurements ≡ 24))
get_path_combinations-free_example = get_path_combinations-free mesh four_subflows no_paths refl

abbrev paths_or : Option PathIndex → PathIndex
paths_or none = no_paths
paths_or (some q) = q

-- What the search finds on the four source addresses.
abbrev fanned : PathIndex
fanned = paths_or (get_path_combinations fan four_subflows no_paths)

only_empty : found fanned ≡ 0 ∷ []
unfolding program
only_empty = refl

get_path_combinations_four_example :
    All (λ m. length (selected m 0 four_subflows) ≡ 0) (found fanned)
unfolding program
get_path_combinations_four_example =
    get_path_combinations_four fan four_subflows no_paths fanned refl refl refl
