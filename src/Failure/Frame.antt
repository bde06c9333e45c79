-- ===== src/Failure/Frame.antt =====
-- The failure detection leaves the offers of the subflows alone.
use redundant_mptcp_r_mptcp.Prelude.{
  ℕ, zero, suc, ◌≡◌, refl, ap, Bool, true, false, List, [], ◌∷◌, map, modify, length, length-modify,
  ℤ, arith, ◌∙◌, ◌-◌,
}
use redundant_mptcp_r_mptcp.Register.{
  RedSk, Register, Socks, Sysctl, Kernel, Phase, opened, recovery, timed_out, congested, invalid,
  phase, is_congested, redf_cong,
}
use redundant_mptcp_r_mptcp.Failure.{
  set_cong, mark_cong, statechange_cong, statechange_timeout2cong, statechange_event2cong, suspect,
  update_sub, switch, check_failure,
}
use redundant_mptcp_r_mptcp.Offers.{offer, offers, offers-map}

modify-offers : (i : ℕ) (es : List RedSk) → offers (modify (set_cong true) i es) ≡ offers es
modify-offers i [] = refl
modify-offers zero (e ∷ es) = refl
modify-offers (suc i) (e ∷ es) = ap (◌∷◌ (offer e)) (modify-offers i es)

module _ (run_start : ℤ) (r : Register) where
  event2cong-offers :
      (i : ℕ) → offers (statechange_event2cong i run_start r).sk_list ≡ offers r.sk_list
  unfolding statechange_event2cong statechange_cong mark_cong
  event2cong-offers i = modify-offers i r.sk_list

  timeout2cong-offers :
      (k : Kernel) (sys : Sysctl)
      → offers (statechange_timeout2cong k sys run_start r).sk_list ≡ offers r.sk_list
  unfolding statechange_timeout2cong statechange_cong mark_cong
  timeout2cong-offers k sys = modify-offers (suspect k sys r.sk_list) r.sk_list

clear-offers : (es : List RedSk) → offers (map (set_cong false) es) ≡ offers es
clear-offers = offers-map (set_cong false) (λ e. refl)

switch-offers :
    (p : Phase) (k : Kernel) (sys : Sysctl) (run_start : ℤ) (event event_i : ℕ) (r : Register)
    → offers (switch p k sys run_start event event_i r).sk_list ≡ offers r.sk_list
unfolding switch
switch-offers opened k sys run_start event event_i r =
    ground (arith, timeout2cong-offers run_start r k sys, event2cong-offers run_start r event_i)
switch-offers recovery k sys run_start event event_i r = ground (
  arith,
  timeout2cong-offers run_start r k sys,
  event2cong-offers run_start r event_i,
  event2cong-offers run_start r r.previous_skevent_i,
  clear-offers r.sk_list,
)
switch-offers timed_out k sys run_start event event_i r =
    ground (arith, timeout2cong-offers run_start r k sys, event2cong-offers run_start r event_i)
switch-offers congested k sys run_start event event_i r = ground (arith, clear-offers r.sk_list)
switch-offers invalid k sys run_start event event_i r = refl

update_sub-offer :
    (k : Kernel) (socks : Socks) (sys : Sysctl) (run_start : ℤ) (in_cong : Bool) (e : RedSk)
    → offer (update_sub k socks sys run_start in_cong e) ≡ offer e
unfolding update_sub
update_sub-offer k socks sys run_start in_cong e = ground arith

pub check_failure-offers :
    (k : Kernel) (socks : Socks) (sys : Sysctl) (run_start : ℤ) (r : Register)
    → offers (check_failure k socks sys run_start r).sk_list ≡ offers r.sk_list
unfolding check_failure
check_failure-offers k socks sys run_start r =
    let in_cong = is_congested (phase r.state) in
    switch-offers (phase r.state) k sys run_start _ _ _
    ∙ offers-map (update_sub k socks sys run_start in_cong)
        (update_sub-offer k socks sys run_start in_cong) r.sk_list

-- A mark in a spare slot leaves their number alone.
mark_cong-spare : (i : ℕ) (r : Register) → length (mark_cong i r).spare ≡ length r.spare
unfolding mark_cong
mark_cong-spare i r = ground (arith, length-modify (set_cong true) (i - length r.sk_list) r.spare)

module _ (run_start : ℤ) (r : Register) where
  event2cong-spare : (i : ℕ) → length (statechange_event2cong i run_start r).spare ≡ length r.spare
  unfolding statechange_event2cong statechange_cong
  event2cong-spare i =
      mark_cong-spare i (record r { state = redf_cong; cong_flag = 1; last_ca_state = run_start })

  timeout2cong-spare :
      (k : Kernel) (sys : Sysctl)
      → length (statechange_timeout2cong k sys run_start r).spare ≡ length r.spare
  unfolding statechange_timeout2cong statechange_cong
  timeout2cong-spare k sys =
      mark_cong-spare (suspect k sys r.sk_list)
        (record r { state = redf_cong; cong_flag = 1; last_ca_state = run_start })

switch-spare :
    (p : Phase) (k : Kernel) (sys : Sysctl) (run_start : ℤ) (event event_i : ℕ) (r : Register)
    → length (switch p k sys run_start event event_i r).spare ≡ length r.spare
unfolding switch
switch-spare opened k sys run_start event event_i r =
    ground (arith, timeout2cong-spare run_start r k sys, event2cong-spare run_start r event_i)
switch-spare recovery k sys run_start event event_i r = ground (
  arith,
  timeout2cong-spare run_start r k sys,
  event2cong-spare run_start r event_i,
  event2cong-spare run_start r r.previous_skevent_i,
)
switch-spare timed_out k sys run_start event event_i r =
    ground (arith, timeout2cong-spare run_start r k sys, event2cong-spare run_start r event_i)
switch-spare congested k sys run_start event event_i r = ground arith
switch-spare invalid k sys run_start event event_i r = refl

pub check_failure-spare :
    (k : Kernel) (socks : Socks) (sys : Sysctl) (run_start : ℤ) (r : Register)
    → length (check_failure k socks sys run_start r).spare ≡ length r.spare
unfolding check_failure
check_failure-spare k socks sys run_start r = switch-spare (phase r.state) k sys run_start _ _ _
