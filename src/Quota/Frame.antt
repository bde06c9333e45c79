-- ===== src/Quota/Frame.antt =====
-- The quota leaves the list of subflows alone.
use redundant_mptcp_r_mptcp.Prelude.{refl, ℤ, arith}
use redundant_mptcp_r_mptcp.Register.{Register, Sysctl, Kernel}
use redundant_mptcp_r_mptcp.Keeps.{Keeps}
use redundant_mptcp_r_mptcp.Quota.{
  set_control, set_q, regulate_q, adapt_cong, adapt_r, calc_control_q,
}

pub adapt_r-Keeps :
    (k : Kernel) (sys : Sysctl) (run_start : ℤ) (r : Register) → Keeps r (adapt_r k sys run_start r)
unfolding adapt_r adapt_cong set_q regulate_q
adapt_r-Keeps k sys run_start r = ground arith

pub set_q-Keeps : (r : Register) → Keeps r (set_q r)
unfolding set_q set_control
set_q-Keeps r = record { same = refl; spare = refl; state = refl }

pub calc_control_q-Keeps : (r : Register) → Keeps r (calc_control_q r)
unfolding calc_control_q
calc_control_q-Keeps r = record { same = refl; spare = refl; state = refl }
