-- ===== src/AdaptPath/Substitutes.antt =====
-- Which subflows substitute for a congested one.
use redundant_mptcp_r_mptcp.Prelude.{
  ℕ, suc, ◌+◌, ◌^◌, ◌<◌, ◌≡◌, ◌≢◌, ◌⊎◌, ◌↔◌, refl, sym, ap, ◌∙◌, inl, inr, true, false, Bool-cases,
  Option, none, some, List, [], ◌∷◌, ◌++◌, map, All, length, get_or, arith, if◌then◌else◌,
}
use mathlib.Core.Path.{ap₂, subst}
use redundant_mptcp_r_mptcp.Register.{RedSk, Register, Socks, slot, empty_slot}
use redundant_mptcp_r_mptcp.Quota.{first_cong, first_cong_from}
use redundant_mptcp_r_mptcp.AdaptPath.{fastest, is_substitute, set_sub, adapt_path}
use redundant_mptcp_r_mptcp.AdaptPath.Fastest.{can_lend, IsFastest, Limits-get_or, fastest-Found}

-- The first congested entry.
abbrev pub failed_of : List RedSk → Option RedSk
failed_of [] = none
failed_of (e ∷ es) = if e.state.cong then some e else failed_of es

first_cong-failed_of :
    (i : ℕ) (es spare : List RedSk) (f : RedSk)
    → failed_of es ≡ some f
    → (k : ℕ) × (first_cong_from i es ≡ i + k) × (get_or (es ++ spare) k empty_slot ≡ f)
unfolding first_cong_from
first_cong-failed_of i [] spare f h = absurd (cc)
first_cong-failed_of i (e ∷ es) spare f h = elim (Bool-cases e.state.cong) [
  | inl cong ↦ (0, ground (arith, cong), cc (rw cong at h))
  | inr fine ↦
      let (k, at, same) = first_cong-failed_of (suc i) es spare f (rw fine at h) in
      (suc k, rw fine (omega (arith, at)), same)
]

-- The subflow joins an address of the failed subflow with the other end of the fast one.
abbrev pub Joins : Socks → (f b e : RedSk) → Type 0
Joins socks f b e =
    (((socks e.sk).saddr ≡ (socks f.sk).saddr) × ((socks e.sk).daddr ≡ (socks b.sk).daddr))
    ⊎ (((socks e.sk).daddr ≡ (socks f.sk).daddr) × ((socks e.sk).saddr ≡ (socks b.sk).saddr))

-- The register after the choice: the entries changed one by one in their flag `sub` alone, and
-- those that substitute afterwards.
pub record Substituted (socks : Socks) (r r' : Register) (f b : RedSk) : Type 0 where
  pub change : RedSk → RedSk
  pub result : r' ≡ record r { sk_list = map change r.sk_list }
  pub flag_only : (e : RedSk) → set_sub e.state.sub (change e) ≡ e
  pub substitutes :
      (e : RedSk)
      → ((change e).state.sub ≡ true)
        ↔ ((e.state.sub ≡ true) ⊎ ((e.state.cong ≡ false) × Joins socks f b e))

is_substitute_lem :
    (socks : Socks) (f b e : RedSk)
    → (is_substitute socks f.sk b.sk e ≡ true) ↔ ((e.state.cong ≡ false) × Joins socks f b e)
unfolding is_substitute
is_substitute_lem socks f b e = ground arith

-- The loop that marks the substitutes.
mark-Substituted :
    (socks : Socks) (r : Register) (f b : RedSk)
    → let change = λ (e : RedSk). if is_substitute socks f.sk b.sk e then set_sub true e else e in
      Substituted socks r (record r { sk_list = map change r.sk_list }) f b
mark-Substituted socks r f b = record {
  change = λ e. if is_substitute socks f.sk b.sk e then set_sub true e else e;
  result = refl;
  flag_only = λ e. elim (Bool-cases (is_substitute socks f.sk b.sk e)) [
    | inl on ↦ rw on refl
    | inr off ↦ rw off refl
  ];
  substitutes = λ e.
      let lem = is_substitute_lem socks f b e in
      elim (Bool-cases (is_substitute socks f.sk b.sk e)) [
        | inl on ↦ rw on ((λ h. inr (lem.0 on)), λ h. refl)
        | inr off ↦
            rw off ((λ h. inl h), λ h. elim h [ inl old ↦ old | inr new ↦ absurd (cc (lem.1 new)) ])
      ];
}

-- The loop that runs in the congestion state.
abbrev mark_all : Socks → (f b : RedSk) → Register → Register
mark_all socks f b r = record r {
  sk_list = map (λ e. if is_substitute socks f.sk b.sk e then set_sub true e else e) r.sk_list;
}

adapt_path_cong :
    (socks : Socks) (r : Register)
    → r.cong_flag ≢ 0
    → r.state.in_cong ≡ true
    → let f = slot r (first_cong r.sk_list) in
      let b = slot r (fastest 0 0 0 r.sk_list) in adapt_path socks r ≡ mark_all socks f b r
unfolding adapt_path
adapt_path_cong socks r flag cong = ground arith

-- In the congestion state, when the flag of the algorithm is set: where a subflow of the list is
-- marked as congested and one that can lend its addresses has a mean bandwidth above 0, and all
-- mean bandwidths fit 32 bits, there is such a subflow of the highest mean bandwidth, and the
-- subflows that substitute afterwards are those that did before and those that are not congested
-- and join an address of the first congested subflow with the other address of the fast one.
-- Nothing else changes.
pub adapt_path-Substituted :
    (socks : Socks) (r : Register) (f : RedSk) (i : ℕ)
    → r.cong_flag ≢ 0
    → r.state.in_cong ≡ true
    → failed_of r.sk_list ≡ some f
    → i < length r.sk_list
    → can_lend (get_or r.sk_list i empty_slot) ≡ true
    → 0 < (get_or r.sk_list i empty_slot).bandwidth_mean
    → All (λ e. e.bandwidth_mean < 2 ^ 32) r.sk_list
    → (b : RedSk) × IsFastest r.sk_list b × Substituted socks r (adapt_path socks r) f b
unfolding first_cong
adapt_path-Substituted socks r f i flag cong first inside lends moves fits =
    let (k, at, failed) = first_cong-failed_of 0 r.sk_list r.spare f first in
    let runs = adapt_path_cong socks r flag cong in
    elim (fastest-Found 0 0 0 r.sk_list r.spare fits) [
      | inl (same, none_lends) ↦
          absurd (omega (arith, Limits-get_or 0 i r.sk_list none_lends inside lends))
      | inr (b, found) ↦
          let index : first_cong_from 0 r.sk_list ≡ k = omega (arith, at) in
          let index' : fastest 0 0 0 r.sk_list ≡ found.best.place = omega (arith, found.at) in
          let worst : slot r (first_cong r.sk_list) ≡ f = ap (slot r) index ∙ failed in
          let best : slot r (fastest 0 0 0 r.sk_list) ≡ b = ap (slot r) index' ∙ found.in_array in
          (
            b,
            found.best,
            subst (λ r'. Substituted socks r r' f b)
                (sym (runs ∙ ap₂ (λ x y. mark_all socks x y r) worst best))
                (mark-Substituted socks r f b),
          )
    ]
