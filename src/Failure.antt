-- ===== src/Failure.antt =====
-- Failure detection, the state machine of rmptcp.c: `rmptcp_statechange_cong`,
-- `rmptcp_statechange_timeout2cong`, `rmptcp_statechange_event2cong` and `rmptcp_check_failure`.
pub mod Machine
pub mod Congestion
pub mod Frame
use redundant_mptcp_r_mptcp.Prelude.{
  ℕ, suc, ◌-◌, ◌*◌, ◌/◌, ◌^◌, Bool, true, false, not, ◌&&◌, List, [], ◌∷◌, map, ℤ, pos, ◌+ℤ◌, ◌*ℤ◌,
  quot, ltb_ℤ, u32_of, u64, u64_of, s32, s64, ltb, leb, ◌==◌, length, modify, if◌then◌else◌,
}
use redundant_mptcp_r_mptcp.Register.{
  RedSk, Register, Socks, Sysctl, Kernel, Phase, opened, recovery, timed_out, congested, invalid,
  phase, is_congested, redf_open, redf_recovery, redf_timeout, redf_cong, tcp_ca_recovery,
  tcp_ca_loss,
}

abbrev pub set_cong : Bool → RedSk → RedSk
set_cong b e = record e { state = record e.state { cong = b } }

-- A write to `sk_list[i]`, in either part of the array.
mark_cong : ℕ → Register → Register
mark_cong i r = record r {
  sk_list = modify (set_cong true) i r.sk_list;
  spare =
      if ltb i (length r.sk_list)
      then r.spare
      else modify (set_cong true) (i - length r.sk_list) r.spare;
}

unfoldable pub statechange_cong : (subflow : ℕ) → (run_start : ℤ) → Register → Register
unfolding mark_cong
statechange_cong subflow run_start r =
    mark_cong subflow (record r { state = redf_cong; cong_flag = 1; last_ca_state = run_start })

abbrev s64_max : ℤ
s64_max = pos (2 ^ 63 - 1)

-- When an enabled but unavailable subflow should be available again.
expected : Kernel → Sysctl → RedSk → ℤ
expected k sys e = s64 (
    k.ktime_to_us e.last_used
    +ℤ e.send_period_mean
    +ℤ quot (s64 (s32 (pos 100 +ℤ sys.varperiod_th) *ℤ e.send_period_var)) 100)

-- One of the two loops: the earliest time among those subflows and its index.
earliest : (RedSk → ℤ) → (i : ℕ) → (best : ℤ) → (best_i : ℕ) → List RedSk → ℤ × ℕ
earliest at i best best_i [] = (best, best_i)
earliest at i best best_i (e ∷ es) =
    let better = e.state.enabled && not e.state.available && ltb_ℤ (at e) best in
    earliest at (suc i) (if better then at e else best) (if better then i else best_i) es

-- The subflow that is held responsible for a timeout. The second search starts from the index
-- that the first one left.
suspect : Kernel → Sysctl → List RedSk → ℕ
unfolding expected earliest
suspect k sys es =
    let (best, best_i) = earliest (expected k sys) 0 s64_max 0 es in
    if not (ltb_ℤ best s64_max)
    then (earliest (λ e. k.ktime_to_us e.last_used) 0 best best_i es).1
    else best_i

unfoldable pub statechange_timeout2cong : Kernel → Sysctl → (run_start : ℤ) → Register → Register
unfolding suspect statechange_cong
statechange_timeout2cong k sys run_start r = statechange_cong (suspect k sys r.sk_list) run_start r

unfoldable pub statechange_event2cong : (sk_event_i : ℕ) → (run_start : ℤ) → Register → Register
unfolding statechange_cong
statechange_event2cong sk_event_i run_start r = statechange_cong sk_event_i run_start r

-- The loop over the sockets, first half: the highest congestion state of an enabled subflow, from
-- TCP_CA_Recovery on, and the index of that subflow.
worst_event : Socks → (i event event_i : ℕ) → List RedSk → ℕ × ℕ
worst_event socks i event event_i [] = (event, event_i)
worst_event socks i event event_i (e ∷ es) =
    let ca = (socks e.sk).ca_state in
    let worse = leb tcp_ca_recovery ca && ltb event ca && e.state.enabled in
    worst_event socks (suc i) (if worse then ca else event) (if worse then i else event_i) es

-- Second half: in the congestion state a substitute is congested too, or is no longer.
update_sub : Kernel → Socks → Sysctl → (run_start : ℤ) → (in_cong : Bool) → RedSk → RedSk
update_sub k socks sys run_start in_cong e =
    let ca = (socks e.sk).ca_state in
    if leb tcp_ca_recovery ca
    then (if in_cong && e.state.sub && ltb tcp_ca_recovery ca
        then record (set_cong true e) { last_cong = run_start }
        else e)
    else if in_cong
        && e.state.sub
        && k.ktime_before (k.ktime_add_ms e.last_cong (u64_of sys.cs_hold)) run_start
    then set_cong false e
    else e

-- `effective_util_mean < (effective_util_mean_before_cong*collapse_th)/100`
unfoldable pub collapsed : Register → Bool
collapsed r =
    ltb r.effective_util_mean (u64 (r.effective_util_mean_before_cong * u64_of r.collapse_th) / 100)

-- A first timeout, in the open and the recovery state.
on_timeout : Kernel → Sysctl → (run_start : ℤ) → Register → Register
unfolding statechange_timeout2cong
on_timeout k sys run_start r =
    if ltb_ℤ (s64 (pos 2 *ℤ r.send_period_max)) (pos r.timeout)
    then statechange_timeout2cong k sys run_start r
    else record r { state = redf_timeout; send_period_max_before_cong = r.send_period_max }

-- A drop of the utilization together with an event of a subflow.
on_collapse : (event_i : ℕ) → (run_start : ℤ) → Register → Register
unfolding statechange_event2cong
on_collapse event_i run_start r = record (statechange_event2cong event_i run_start r) {
  previous_skevent_i = event_i;
}

clear_cong : Register → Register
clear_cong r = record r { sk_list = map (set_cong false) r.sk_list }

-- Has a hold period of `ms` passed since `start`?
held : Kernel → (start : ℤ) → (ms : ℕ) → (run_start : ℤ) → Bool
held k start ms run_start = k.ktime_before (k.ktime_add_ms start ms) run_start

-- The cases of the `switch`.
case_open : Kernel → Sysctl → (run_start : ℤ) → (event event_i : ℕ) → Register → Register
unfolding on_timeout on_collapse
case_open k sys run_start event event_i r =
    if not (r.timeout == 0)
    then on_timeout k sys run_start r
    else if leb tcp_ca_recovery event && collapsed r
    then on_collapse event_i run_start r
    else record r { effective_util_mean_before_cong = r.effective_util_mean_mean }

case_recovery : Kernel → Sysctl → (run_start : ℤ) → (event event_i : ℕ) → Register → Register
unfolding on_timeout on_collapse clear_cong held
case_recovery k sys run_start event event_i r =
    if not (r.timeout == 0)
    then on_timeout k sys run_start r
    else if leb tcp_ca_recovery event && collapsed r
    then on_collapse event_i run_start r
    else if collapsed r
    then statechange_event2cong r.previous_skevent_i run_start r
    else if event == tcp_ca_loss
    then record r { state = redf_recovery; start_recovery = run_start }
    else if held k r.start_recovery (u64_of (s32 (sys.cs_hold *ℤ pos 2))) run_start
    then clear_cong (record r { state = redf_open; cong_flag = 1 })
    else if (event == 0) && held k r.start_recovery (u64_of sys.cs_hold) run_start
    then record r { effective_util_mean_before_cong = r.effective_util_mean_mean }
    else r

case_timeout : Kernel → Sysctl → (run_start : ℤ) → (event event_i : ℕ) → Register → Register
unfolding on_collapse
case_timeout k sys run_start event event_i r =
    if not (r.timeout == 0)
    then statechange_timeout2cong k sys run_start r
    else if leb (u32_of sys.num_in_time) r.in_time_cnt
    then record r {
      in_time_cnt = 0;
      state = redf_recovery;
      start_recovery = run_start;
      last_period_max = run_start;
      send_period_max = r.send_period_max_before_cong;
    }
    else if leb tcp_ca_recovery event && collapsed r
    then on_collapse event_i run_start r
    else r

-- The mean of the mean follows a utilization that fell during the congestion.
lower_mean_mean : Register → ℕ
lower_mean_mean r =
    if ltb r.effective_util_mean r.effective_util_mean_mean && ltb 0 r.effective_util_mean
    then r.effective_util_mean
    else r.effective_util_mean_mean

case_cong : Kernel → Sysctl → (run_start : ℤ) → (event : ℕ) → Register → Register
unfolding clear_cong held lower_mean_mean
case_cong k sys run_start event r =
    if held k r.last_ca_state (u64_of sys.cs_hold) run_start
    then clear_cong (record r {
      state = redf_recovery;
      send_period_max = r.send_period_max_before_cong;
      start_recovery = run_start;
      last_period_max = run_start;
      cong_flag = 1;
      effective_util_mean_mean = lower_mean_mean r;
    })
    else if event == tcp_ca_loss
    then record r { last_ca_state = run_start }
    else r

switch : Phase → Kernel → Sysctl → (run_start : ℤ) → (event event_i : ℕ) → Register → Register
unfolding case_open case_recovery case_timeout case_cong
switch opened k sys run_start event event_i r = case_open k sys run_start event event_i r
switch recovery k sys run_start event event_i r = case_recovery k sys run_start event event_i r
switch timed_out k sys run_start event event_i r = case_timeout k sys run_start event event_i r
switch congested k sys run_start event event_i r = case_cong k sys run_start event r
switch invalid k sys run_start event event_i r = record r { state = redf_open }

unfoldable pub check_failure : Kernel → Socks → Sysctl → (run_start : ℤ) → Register → Register
unfolding worst_event update_sub switch
check_failure k socks sys run_start r =
    let (event, event_i) = worst_event socks 0 0 0 r.sk_list in
    let in_cong = is_congested (phase r.state) in
    switch (phase r.state) k sys run_start event event_i
      (record r { sk_list = map (update_sub k socks sys run_start in_cong) r.sk_list })
