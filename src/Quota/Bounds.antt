-- ===== src/Quota/Bounds.antt =====
-- The bounds of the quota and of its control values.
use redundant_mptcp_r_mptcp.Prelude.{
  ◌⊎◌, ℕ, ◌+◌, ◌*◌, ◌^◌, ◌≤◌, ◌<◌, ◌≡◌, ℤ, u32_of, s32_of, quot, ◌+ℤ◌, arith,
}
use redundant_mptcp_r_mptcp.Register.{Register, Sysctl, Kernel}
use redundant_mptcp_r_mptcp.Quota.{
  control_low, control_high, set_control, clamp_target, adapt_target, adapt_r, calc_control_q,
}

-- The control values are the two multiples of 100 round the target.
abbrev pub Brackets : (low target high : ℕ) → Type 0
Brackets low target high =
    (low * 100 ≤ target) × (target ≤ high * 100) × (low ≤ high) × (high ≤ low + 1) × (1 ≤ high)

control-Brackets : (t : ℕ) → 1 ≤ t → t < 2 ^ 31 → Brackets (control_low t) t (control_high t)
unfolding control_low control_high u32_of s32_of quot ◌+ℤ◌
control-Brackets t h k = ground arith

adapt_target-user :
    (k : Kernel) (sys : Sysctl) (run_start : ℤ) (r : Register)
    → (adapt_target k sys run_start r).q_target_user ≡ r.q_target_user
unfolding adapt_target set_control
adapt_target-user k sys run_start r = ground arith

clamp_target_bounds :
    (r : Register)
    → 100 ≤ r.q_target_user
    → (100 ≤ (clamp_target r).q_target) × ((clamp_target r).q_target ≤ r.q_target_user)
unfolding clamp_target
clamp_target_bounds r low = ground arith

set_control-Brackets :
    (r : Register)
    → 1 ≤ r.q_target
    → r.q_target < 2 ^ 31
    → let r' = set_control r in Brackets r'.q_control_low r'.q_target r'.q_control_high
unfolding set_control
set_control-Brackets r low high = control-Brackets r.q_target low high

-- Where the user's quota is at least 100 and fits an `int`, the adaptive algorithm keeps the target
-- between 100 and that quota, and its control values are the multiples of 100 next to the target,
-- at most one apart and the upper one at least 1.
pub adapt_r_bounds :
    (k : Kernel) (sys : Sysctl) (run_start : ℤ) (r : Register)
    → 100 ≤ r.q_target_user
    → r.q_target_user < 2 ^ 31
    → let r' = adapt_r k sys run_start r in
      (100 ≤ r'.q_target)
      × (r'.q_target ≤ r.q_target_user)
      × Brackets r'.q_control_low r'.q_target r'.q_control_high
unfolding adapt_r set_control
adapt_r_bounds k sys run_start r low high =
    let t = adapt_target k sys run_start r in
    let same = adapt_target-user k sys run_start r in
    let (at_least, at_most) = clamp_target_bounds t (omega arith) in
    (at_least, omega arith, set_control-Brackets (clamp_target t) (omega arith) (omega arith))

-- From bracketing control values `q_control` is steered towards the target: it asks for at most
-- the target (or for one subflow) while the measured quota has reached it, and for at least the
-- target while it has not. It is never 0 and never above the upper control value.
pub calc_control_q_steers :
    (r : Register)
    → Brackets r.q_control_low r.q_target r.q_control_high
    → let q = (calc_control_q r).q_control in
      (1 ≤ q)
      × (q ≤ r.q_control_high)
      × (r.q_target ≤ r.q_actual → (q * 100 ≤ r.q_target) ⊎ (q ≡ 1))
      × (r.q_actual < r.q_target → r.q_target ≤ q * 100)
unfolding calc_control_q
calc_control_q_steers r b = (ground arith, ground arith, λ h. ground arith, λ h. ground arith)
