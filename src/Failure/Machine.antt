-- ===== src/Failure/Machine.antt =====
-- The state machine of `rmptcp_check_failure`.
use redundant_mptcp_r_mptcp.Prelude.{◌≢◌, ℕ, ◌≡◌, refl, arith, ℤ}
use redundant_mptcp_r_mptcp.Register.{
  Register, Socks, Sysctl, Kernel, Phase, opened, recovery, timed_out, congested, invalid, phase,
}
use redundant_mptcp_r_mptcp.Failure.{check_failure, switch}

-- The edges of the diagram.
pub data Move : Phase → Phase → Type 0 where
  stay : {p : Phase} → Move p p
  first_timeout : Move opened timed_out
  open_fails : Move opened congested
  second_timeout : Move timed_out congested
  in_time : Move timed_out recovery
  hold_over : Move congested recovery
  relapse : Move recovery congested
  late_timeout : Move recovery timed_out
  healthy : Move recovery opened
  repair : Move invalid opened

ruleset edges = (
  stay, first_timeout, open_fails, second_timeout, in_time, hold_over, relapse, late_timeout,
  healthy, repair,
)

switch-Move :
    (p : Phase) (k : Kernel) (sys : Sysctl) (run_start : ℤ) (event event_i : ℕ) (r : Register)
    → phase r.state ≡ p
    → Move p (phase (switch p k sys run_start event event_i r).state)
unfolding switch
switch-Move opened k sys run_start event event_i r h = grind (arith, edges)
switch-Move recovery k sys run_start event event_i r h = grind (arith, edges)
switch-Move timed_out k sys run_start event event_i r h = grind (arith, edges)
switch-Move congested k sys run_start event event_i r h = grind (arith, edges)
switch-Move invalid k sys run_start event event_i r h = repair

Move-valid : {p q : Phase} → Move p q → p ≢ invalid → q ≢ invalid
Move-valid stay h = h
Move-valid first_timeout h = λ e. cc
Move-valid open_fails h = λ e. cc
Move-valid second_timeout h = λ e. cc
Move-valid in_time h = λ e. cc
Move-valid hold_over h = λ e. cc
Move-valid relapse h = λ e. cc
Move-valid late_timeout h = λ e. cc
Move-valid healthy h = λ e. cc
Move-valid repair h = λ e. cc

-- Whatever the sockets report, one check from a valid state follows an edge of the diagram to a
-- valid state, so the `default` of the `switch` is never reached.
pub check_failure-Move :
    (k : Kernel) (socks : Socks) (sys : Sysctl) (run_start : ℤ) (r : Register)
    → phase r.state ≢ invalid
    → let next = phase (check_failure k socks sys run_start r).state in
      Move (phase r.state) next × (next ≢ invalid)
unfolding check_failure
check_failure-Move k socks sys run_start r valid =
    let move = switch-Move (phase r.state) k sys run_start _ _ _ refl in
    (move, Move-valid move valid)
