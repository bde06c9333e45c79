-- ===== src/SendPeriod/Frame.antt =====
-- The measurement of the send period leaves the sockets and the offers of the subflows alone.
use redundant_mptcp_r_mptcp.Prelude.{not, ◌==◌, ◌≡◌, refl, ap, Bool, ℤ, arith}
use redundant_mptcp_r_mptcp.Register.{RedSk, Register, Sysctl, Kernel}
use redundant_mptcp_r_mptcp.SendPeriod.{sub_period, calc_send_period}
use redundant_mptcp_r_mptcp.Keeps.{Keeps, sks-map}
use redundant_mptcp_r_mptcp.Offers.{offer, offers, offers-map}

sub_period-offer :
    (k : Kernel) (run_start : ℤ) (timed_out in_timeout : Bool) (e : RedSk)
    → offer (sub_period k run_start timed_out in_timeout e) ≡ offer e
unfolding sub_period
sub_period-offer k run_start timed_out in_timeout e = ground arith

pub calc_send_period-offers :
    (k : Kernel) (sys : Sysctl) (run_start : ℤ) (r : Register)
    → offers (calc_send_period k sys run_start r).sk_list ≡ offers r.sk_list
unfolding calc_send_period
calc_send_period-offers k sys run_start r =
    offers-map (sub_period k run_start (not (r.timeout == 0)) r.state.in_timeout)
      (sub_period-offer k run_start (not (r.timeout == 0)) r.state.in_timeout) r.sk_list

pub calc_send_period-Keeps :
    (k : Kernel) (sys : Sysctl) (run_start : ℤ) (r : Register)
    → Keeps r (calc_send_period k sys run_start r)
unfolding calc_send_period
calc_send_period-Keeps k sys run_start r = record {
  same =
      sks-map (sub_period k run_start (not (r.timeout == 0)) r.state.in_timeout)
        (λ e.
          ap (λ o. o.0) (sub_period-offer k run_start (not (r.timeout == 0)) r.state.in_timeout e))
        r.sk_list;
  spare = refl;
  state = refl;
}
