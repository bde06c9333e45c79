-- ===== src/PathCheck/Free.antt =====
-- What a path combination is, without the temporary arrays of the search: the subflows that a mask
-- selects, and the test that no address stands twice among theirs.
use redundant_mptcp_r_mptcp.Prelude.{
  ℕ, zero, suc, ◌+◌, ◌<◌, ◌≡◌, refl, ◌∙◌, Bool, true, false, not, ◌&&◌, ◌||◌, Bool-cases, inl, inr,
  List, [], ◌∷◌, ◌++◌, map, ◌==◌, bit, leb, length, length-append, arith, if◌then◌else◌,
}
use redundant_mptcp_r_mptcp.Register.{RedSk, Socks}
use redundant_mptcp_r_mptcp.PathCheck.{contains, count_paths, distinct, clash, check_overlap}

-- The subflows whose bits are set, the first one at bit `i`.
abbrev pub selected : (mask i : ℕ) → List RedSk → List RedSk
selected mask i [] = []
selected mask i (e ∷ es) =
    if bit mask i then e ∷ selected mask (suc i) es else selected mask (suc i) es

-- The number stands in the list.
abbrev pub listed : List ℕ → ℕ → Bool
listed [] a = false
listed (x ∷ xs) a = (x == a) || listed xs a

-- No number stands twice.
abbrev pub nodup : List ℕ → Bool
nodup [] = true
nodup (x ∷ xs) = not (listed xs x) && nodup xs

pub contains-listed : (xs : List ℕ) (a : ℕ) → contains xs a ≡ listed xs a
unfolding contains
contains-listed [] a = refl
contains-listed (x ∷ xs) a = ground (arith, contains-listed xs a)

-- The combination has `k` paths, and uses no address twice.
abbrev pub is_free : Socks → (k : ℕ) → List RedSk → (mask : ℕ) → Bool
is_free socks k es mask =
    let paths = selected mask 0 es in
    (length paths == k)
    && nodup (map (λ e. (socks e.sk).saddr) paths)
    && nodup (map (λ e. (socks e.sk).daddr) paths)

-- The free combinations among `rounds` masks, from `mask` on.
abbrev pub free_masks : Socks → (k : ℕ) → List RedSk → (rounds mask : ℕ) → List ℕ
free_masks socks k es zero mask = []
free_masks socks k es (suc rounds) mask =
    let rest = free_masks socks k es rounds (suc mask) in
    if is_free socks k es mask then mask ∷ rest else rest

pub count_paths-selected :
    (mask i : ℕ) (es : List RedSk) → count_paths mask i es ≡ length (selected mask i es)
unfolding count_paths
count_paths-selected mask i [] = refl
count_paths-selected mask i (e ∷ es) = ground (arith, count_paths-selected mask (suc i) es)

-- Nothing of the second list stands in the first.
abbrev apart : List ℕ → List ℕ → Bool
apart seen [] = true
apart seen (x ∷ xs) = not (contains seen x) && apart seen xs

pub contains-append :
    (xs ys : List ℕ) (a : ℕ) → contains (xs ++ ys) a ≡ (contains xs a || contains ys a)
unfolding contains
contains-append [] ys a = refl
contains-append (x ∷ xs) ys a = ground (arith, contains-append xs ys a)

apart-add :
    (seen : List ℕ) (s : ℕ) (xs : List ℕ)
    → apart (seen ++ (s ∷ [])) xs ≡ (apart seen xs && not (contains xs s))
unfolding contains
apart-add seen s [] = refl
apart-add seen s (x ∷ xs) = ground (arith, contains-append seen (s ∷ []) x, apart-add seen s xs)

-- One round of the search, at a bit that is set.
overlap-set :
    (socks : Socks) (mask i : ℕ) (src dst : List ℕ) (e : RedSk) (es : List RedSk)
    → bit mask i ≡ true
    → let s = (socks e.sk).saddr in
      let d = (socks e.sk).daddr in
      length src < 3
      → length dst ≡ length src
      → check_overlap socks mask i src dst (e ∷ es) ≡ (
          if contains src s || contains dst d
          then clash
          else check_overlap socks mask (suc i) (src ++ (s ∷ [])) (dst ++ (d ∷ [])) es)
unfolding check_overlap
overlap-set socks mask i src dst e es set room same =
    let s = (socks e.sk).saddr in
    let d = (socks e.sk).daddr in
    let len = length-append src (s ∷ []) in
    let len' = length-append dst (d ∷ []) in
    let fits : leb 4 (length (src ++ (s ∷ []))) ≡ false = ground arith in
    let fits' : leb 4 (length (dst ++ (d ∷ []))) ≡ false = ground arith in rw (set, fits, fits')

overlap-clear :
    (socks : Socks) (mask i : ℕ) (src dst : List ℕ) (e : RedSk) (es : List RedSk)
    → bit mask i ≡ false
    → check_overlap socks mask i src dst (e ∷ es) ≡ check_overlap socks mask (suc i) src dst es
unfolding check_overlap
overlap-clear socks mask i src dst e es clear = rw clear

apart-nil : (xs : List ℕ) → apart [] xs ≡ true
unfolding contains
apart-nil [] = refl
apart-nil (x ∷ xs) = apart-nil xs

-- The search of one mask: with room in the temporary arrays for all the paths it ends by the test
-- on the two lists of addresses.
check_overlap-selected :
    (socks : Socks) (mask i : ℕ) (src dst : List ℕ) (es : List RedSk)
    → length src + length (selected mask i es) < 4
    → length dst ≡ length src
    → let paths = selected mask i es in
      let ss = map (λ e. (socks e.sk).saddr) paths in
      let ds = map (λ e. (socks e.sk).daddr) paths in
      check_overlap socks mask i src dst es
      ≡ (if (apart src ss && nodup ss) && (apart dst ds && nodup ds) then distinct else clash)
unfolding contains
check_overlap-selected socks mask i src dst [] room same = unfold check_overlap in refl
check_overlap-selected socks mask i src dst (e ∷ es) room same = elim (Bool-cases (bit mask i)) [
  | inr clear ↦
      let next =
        check_overlap-selected socks mask (suc i) src dst es (ground (arith, clear)) same in
      overlap-clear socks mask i src dst e es clear ∙ rw clear next
  | inl set ↦
      let s = (socks e.sk).saddr in
      let d = (socks e.sk).daddr in
      let rest = selected mask (suc i) es in
      let fewer : length src + suc (length rest) < 4 = ground (arith, set) in
      let len = length-append src (s ∷ []) in
      let len' = length-append dst (d ∷ []) in
      let next =
        check_overlap-selected socks mask (suc i) (src ++ (s ∷ [])) (dst ++ (d ∷ [])) es
          (omega arith) (omega arith) in
      let add = apart-add src s (map (λ e. (socks e.sk).saddr) rest) in
      let add' = apart-add dst d (map (λ e. (socks e.sk).daddr) rest) in
      overlap-set socks mask i src dst e es set (omega arith) same
      ∙ rw set (
          ground (
            arith,
            next,
            add,
            add',
            contains-listed (map (λ e. (socks e.sk).saddr) rest) s,
            contains-listed (map (λ e. (socks e.sk).daddr) rest) d,
          ))
]

pub check_overlap-nodup :
    (socks : Socks) (mask : ℕ) (es : List RedSk)
    → length (selected mask 0 es) < 4
    → let paths = selected mask 0 es in
      check_overlap socks mask 0 [] [] es ≡ (
        if nodup (map (λ e. (socks e.sk).saddr) paths)
          && nodup (map (λ e. (socks e.sk).daddr) paths)
        then distinct
        else clash)
check_overlap-nodup socks mask es few =
    let ss = map (λ e. (socks e.sk).saddr) (selected mask 0 es) in
    let ds = map (λ e. (socks e.sk).daddr) (selected mask 0 es) in
    check_overlap-selected socks mask 0 [] [] es (omega arith) refl
    ∙ rw (apart-nil ss, apart-nil ds)
