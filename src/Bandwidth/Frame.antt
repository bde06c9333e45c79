-- ===== src/Bandwidth/Frame.antt =====
-- The measurement of the bandwidth leaves the sockets alone.
use redundant_mptcp_r_mptcp.Prelude.{refl, Bool, true, false, ℤ, arith}
use redundant_mptcp_r_mptcp.Register.{Register, Socks, Sysctl, Kernel}
use redundant_mptcp_r_mptcp.Keeps.{Keeps, sks-map}
use redundant_mptcp_r_mptcp.Bandwidth.{
  measure, skip_measure, measure_subflows, measure_util, update_mean_mean, update_bw,
}

measure_subflows-Keeps :
    (socks : Socks) (delta_t : ℤ) (calc : Bool) (r : Register)
    → Keeps r (measure_subflows socks delta_t calc r)
unfolding measure_subflows measure skip_measure
measure_subflows-Keeps socks delta_t true r = record {
  same = sks-map (measure socks delta_t) (λ e. refl) r.sk_list;
  spare = refl;
  state = refl;
}
measure_subflows-Keeps socks delta_t false r = record {
  same = sks-map (skip_measure socks) (λ e. refl) r.sk_list;
  spare = refl;
  state = refl;
}

pub update_bw-Keeps :
    (k : Kernel) (socks : Socks) (sys : Sysctl) (run_start : ℤ) (calc : Bool) (r : Register)
    → Keeps r (update_bw k socks sys run_start calc r)
unfolding update_bw measure_util update_mean_mean
update_bw-Keeps k socks sys run_start calc r =
    ground (arith, measure_subflows-Keeps socks (k.ktime_us_delta run_start r.last_update) calc r)
