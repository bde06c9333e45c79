-- ===== src/Scheduler/Invariant.antt =====
-- What holds of the scheduler's state after every call.
use redundant_mptcp_r_mptcp.Scheduler.Preparation.{new_meta-IsValid, prepare-IsValid}
use redundant_mptcp_r_mptcp.Prelude.{
  ◌≡◌, ◌≢◌, Bool, true, false, Option-cases, inl, inr, some, [], if◌then◌else◌,
}
use redundant_mptcp_r_mptcp.Register.{Register, phase, invalid}
use redundant_mptcp_r_mptcp.Offers.{sks-offers}
use redundant_mptcp_r_mptcp.Validity.{IsValid, Keeps-IsValid}
use redundant_mptcp_r_mptcp.SkList.Order.{IsStore, IsStore-sks, Keeps-IsStore}
use redundant_mptcp_r_mptcp.Check.{check_avail_sk}
use redundant_mptcp_r_mptcp.Check.Order.{check_avail_sk-IsStore}
use redundant_mptcp_r_mptcp.SendPeriod.{calc_send_period}
use redundant_mptcp_r_mptcp.SendPeriod.Frame.{calc_send_period-Keeps}
use redundant_mptcp_r_mptcp.Failure.{check_failure}
use redundant_mptcp_r_mptcp.Failure.Frame.{check_failure-offers, check_failure-spare}
use redundant_mptcp_r_mptcp.Failure.Machine.{check_failure-Move}
use redundant_mptcp_r_mptcp.Send.{send_skb}
use redundant_mptcp_r_mptcp.Send.Frame.{send_skb-Keeps}
use redundant_mptcp_r_mptcp.Settings.{Settings}
use redundant_mptcp_r_mptcp.PathCheck.{Checker, Checked}
use redundant_mptcp_r_mptcp.Scheduler.{
  Call, Outcome, set_reg, new_meta, prepare, measure_send, transmit, finish, send_next_segment,
}

measure_send-IsStore :
    (c : Call) (s : Settings) (r : Register)
    → IsStore c.socks r
    → IsStore c.socks (measure_send c s r)
unfolding measure_send
measure_send-IsStore c s r v =
    let m = calc_send_period c.kernel s.sys c.run_start r in
    let f = check_failure c.kernel c.socks s.sys c.run_start m in
    let measured =
      Keeps-IsStore c.socks r m (calc_send_period-Keeps c.kernel s.sys c.run_start r) v in
    let offered = check_failure-offers c.kernel c.socks s.sys c.run_start m in
    let same = sks-offers f.sk_list m.sk_list offered in
    let kept =
      IsStore-sks c.socks m f same (check_failure-spare c.kernel c.socks s.sys c.run_start m)
        measured in
    record { array = kept.array; list = kept.list }

measure_send-phase :
    (c : Call) (s : Settings) (r : Register)
    → phase r.state ≢ invalid
    → phase (measure_send c s r).state ≢ invalid
unfolding measure_send
measure_send-phase c s r n =
    let m = calc_send_period c.kernel s.sys c.run_start r in
    let same = (calc_send_period-Keeps c.kernel s.sys c.run_start r).state in
    (check_failure-Move c.kernel c.socks s.sys c.run_start m (rw same n)).1

-- The register after a transmission or without one.
sent-IsValid :
    (c : Call) (s : Settings) (r : Register)
    → (go : Bool) → IsValid c.socks (set_reg s r)
    → let sent = send_skb c.entail c.skb c.reinject c.run_start (measure_send c s r) in
      IsValid c.socks (set_reg s (if go then sent else (r, [], false)).0)
sent-IsValid c s r false v = v
sent-IsValid c s r true v =
    let m = measure_send c s r in
    Keeps-IsValid c.socks (set_reg s m) _ (send_skb-Keeps c.entail c.skb c.reinject c.run_start m)
      (record {
        store = measure_send-IsStore c s r v.store;
        machine = measure_send-phase c s r v.machine;
        paths = v.paths;
      })

finish-IsValid :
    (c : Call) (p : Checked)
    → IsValid c.socks p.settings
    → IsValid c.socks (finish c p).state.settings
unfolding finish transmit
finish-IsValid c p v =
    let s = p.settings in
    let (store, state) =
      check_avail_sk-IsStore c.kernel c.socks (some c.skb) s.sys c.run_start s.reg v.store in
    let out = check_avail_sk c.kernel c.socks s.sys (some c.skb) c.run_start s.reg in
    sent-IsValid c s out.0 out.1
      (record { store = store; machine = rw state v.machine; paths = v.paths })

-- A call that ends without a fault keeps the state valid: the array of subflows has its 24 slots,
-- those in use are sorted by address and each is for another socket, the failure machine is in one
-- of its four states, and the array of path measurements has its 24 entries.
pub send_next_segment-IsValid :
    (c : Call) (s : Settings) (ch : Checker) (out : Outcome)
    → send_next_segment c s ch ≡ some out
    → IsValid c.socks s
    → IsValid c.socks out.state.settings
unfolding send_next_segment
send_next_segment-IsValid c s ch out h v = elim (Option-cases (prepare c (new_meta c s) ch)) [
  | inl fault ↦ absurd (cc)
  | inr (p, ok) ↦
      let same : finish c p ≡ out = cc in
      let prepared = prepare-IsValid c (new_meta c s) ch p ok (new_meta-IsValid c s v) in
      rw (← same) (finish-IsValid c p prepared)
]
