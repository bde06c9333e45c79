-- ===== src/SkList/Enable.antt =====
-- What `rmptcp_set_enable_flag` establishes.
use redundant_mptcp_r_mptcp.Prelude.{
  ℕ, suc, ◌+◌, ◌≡◌, refl, false, List, [], ◌∷◌, length, bit, to_ℕ, arith,
}
use redundant_mptcp_r_mptcp.Register.{RedSk, Register, IsArray}
use redundant_mptcp_r_mptcp.SkList.{set_enable_flag, enable_from, enable_flag, count_disabled}

abbrev pub count_enabled : List RedSk → ℕ
count_enabled [] = 0
count_enabled (e ∷ es) = to_ℕ e.state.enabled + count_enabled es

-- From index `i` on, exactly the subflows with a set bit in the mask are enabled, and a subflow
-- that is not enabled is not a main one.
abbrev pub FollowsMask : (mask i : ℕ) → List RedSk → Type 0
FollowsMask mask i [] = Unit
FollowsMask mask i (e ∷ es) =
    (e.state.enabled ≡ bit mask i)
    × (e.state.enabled ≡ false → e.state.main ≡ false)
    × FollowsMask mask (suc i) es

enable_from-FollowsMask :
    (mask i : ℕ) (es : List RedSk) → FollowsMask mask i (enable_from mask i es)
unfolding enable_from enable_flag
enable_from-FollowsMask mask i [] = tt
enable_from-FollowsMask mask i (e ∷ es) =
    (ground arith, λ h. ground arith, enable_from-FollowsMask mask (suc i) es)

count_enabled_lem :
    (mask i : ℕ) (es : List RedSk)
    → count_enabled (enable_from mask i es) + count_disabled mask i es ≡ length es
unfolding enable_from enable_flag count_disabled
count_enabled_lem mask i [] = omega arith
count_enabled_lem mask i (e ∷ es) = ground (arith, count_enabled_lem mask (suc i) es)

-- Afterwards the flags follow the mask, and on a list that fits the array `num_enabled` is the
-- number of the enabled subflows.
set_enable_flag_lem :
    (r : Register)
    → IsArray r
    → let r' = set_enable_flag r in
      FollowsMask r.enable_mask 0 r'.sk_list × (r'.num_enabled ≡ count_enabled r'.sk_list)
unfolding set_enable_flag
set_enable_flag_lem r full = (
  enable_from-FollowsMask r.enable_mask 0 r.sk_list,
  omega (arith, count_enabled_lem r.enable_mask 0 r.sk_list),
)

pub length-enable_from : (mask i : ℕ) (es : List RedSk) → length (enable_from mask i es) ≡ length es
unfolding enable_from
length-enable_from mask i [] = refl
length-enable_from mask i (e ∷ es) = omega (arith, length-enable_from mask (suc i) es)
