-- ===== src/PathCheck/Count.antt =====
-- How many different addresses the subflows have, and how many paths the search asks for.
use redundant_mptcp_r_mptcp.Prelude.{
  ℕ, ◌+◌, ◌<◌, ◌≡◌, refl, true, false, Bool-cases, inl, inr, List, [], ◌∷◌, ◌++◌, map, ltb, leb,
  length, length-append, arith, if◌then◌else◌,
}
use Prim.Native.Nat.{min}
use redundant_mptcp_r_mptcp.Register.{RedSk, Socks, PathIndex}
use redundant_mptcp_r_mptcp.PathCheck.{contains, collect, get_addresses}
use redundant_mptcp_r_mptcp.PathCheck.Free.{listed, contains-append}

-- How many different numbers of the second list do not stand in the first.
abbrev pub different : List ℕ → List ℕ → ℕ
different seen [] = 0
different seen (x ∷ xs) = if listed seen x then different seen xs else 1 + different (x ∷ seen) xs

-- The number of different source addresses, and that of different destination addresses.
abbrev pub sources : Socks → List RedSk → ℕ
sources socks es = different [] (map (λ e. (socks e.sk).saddr) es)

abbrev pub destinations : Socks → List RedSk → ℕ
destinations socks es = different [] (map (λ e. (socks e.sk).daddr) es)

-- As many paths as there are different source or destination addresses, whichever are fewer, but none
-- if there are four different source addresses or more.
abbrev pub paths_asked : Socks → List RedSk → ℕ
paths_asked socks es =
    if ltb (sources socks es) 4 then min (sources socks es) (destinations socks es) else 0

-- The number of paths that the search takes from the arrays.
abbrev pub parallel : Socks → List RedSk → PathIndex → ℕ
parallel socks es p =
    let q = get_addresses socks es p in min (length q.src_addr) (length q.dst_addr)

collect-different :
    (addr : RedSk → ℕ) (found seen : List ℕ) (es : List RedSk)
    → ((a : ℕ) → contains found a ≡ listed seen a)
    → length found < 4
    → let out = collect 4 addr found es in
      let n = length found + different seen (map addr es) in
      (out.1 ≡ ltb n 4) × (length out.0 ≡ min n 4)
unfolding collect contains
collect-different addr found seen [] same few = (ground arith, ground arith)
collect-different addr found seen (e ∷ es) same few = elim (Bool-cases (contains found (addr e))) [
  | inl known ↦
      let there : listed seen (addr e) ≡ true = ground (arith, same (addr e)) in
      rw (known, there, collect) (collect-different addr found seen es same few)
  | inr new ↦
      let fresh : listed seen (addr e) ≡ false = ground (arith, same (addr e)) in
      let more = found ++ (addr e ∷ []) in
      let len = length-append found (addr e ∷ []) in
      elim (Bool-cases (leb 4 (length more))) [
        | inl cut ↦ rw (new, fresh, collect, cut) (ground arith, ground arith)
        | inr room ↦
            let both = λ (a : ℕ).
              let r : contains more a ≡ listed (addr e ∷ seen) a =
                ground (arith, contains-append found (addr e ∷ []) a, same a) in
              r in
            let rest = collect-different addr more (addr e ∷ seen) es both (ground arith) in
            rw (new, fresh, collect, room) (ground (arith, rest), ground (arith, rest))
      ]
]

pub parallel-eq-paths_asked :
    (socks : Socks) (es : List RedSk) (p : PathIndex) → parallel socks es p ≡ paths_asked socks es
unfolding get_addresses contains
parallel-eq-paths_asked socks es p =
    let src = collect-different (λ e. (socks e.sk).saddr) [] [] es (λ a. refl) (omega arith) in
    let dst = collect-different (λ e. (socks e.sk).daddr) [] [] es (λ a. refl) (omega arith) in
    elim (Bool-cases (ltb (sources socks es) 4)) [
      | inl few ↦
          let all : (collect 4 (λ e. (socks e.sk).saddr) [] es).1 ≡ true =
            ground (arith, src.0, few) in
          rw (all, few) (ground (arith, src.1, dst.1))
      | inr many ↦
          let cut : (collect 4 (λ e. (socks e.sk).saddr) [] es).1 ≡ false =
            ground (arith, src.0, many) in
          rw (cut, many) (ground arith)
    ]
