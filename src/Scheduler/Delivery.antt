-- ===== src/Scheduler/Delivery.antt =====
-- What `rmptcp_send_next_segment` delivers.
use redundant_mptcp_r_mptcp.Prelude.{
  ℕ, ◌≤◌, ◌≡◌, ◌∙◌, Bool, true, false, some, List, All, length, arith, Bool-cases, Option-cases,
  inl, inr, ap,
}
use redundant_mptcp_r_mptcp.Register.{RedSk, Register}
use redundant_mptcp_r_mptcp.Availability.{is_available}
use redundant_mptcp_r_mptcp.Check.{check_avail_sk}
use redundant_mptcp_r_mptcp.Check.Counts.{count_avail}
use redundant_mptcp_r_mptcp.Check.Decision.{check_avail_sk_go}
use redundant_mptcp_r_mptcp.SendPeriod.{calc_send_period}
use redundant_mptcp_r_mptcp.SendPeriod.Frame.{calc_send_period-offers}
use redundant_mptcp_r_mptcp.Failure.Frame.{check_failure-offers}
use redundant_mptcp_r_mptcp.Send.{send_skb}
use redundant_mptcp_r_mptcp.Send.Delivery.{takers, send_skb-iff-Accepts, send_skb_delivers, Accepts}
use redundant_mptcp_r_mptcp.Check.Scan.{Ready}
use redundant_mptcp_r_mptcp.Offers.{takers-offers, length-takers, All-takers, offers}
use redundant_mptcp_r_mptcp.Settings.{Settings}
use redundant_mptcp_r_mptcp.PathCheck.{Checker, Checked}
use redundant_mptcp_r_mptcp.Scheduler.{
  Call, Outcome, transmit, prepare, new_meta, send_next_segment, measure_send, finish,
}

-- The segment went out on at least one subflow, each of which could take it and did.
pub record Delivered (c : Call) (sockets : List ℕ) : Type 0 where
  pub some_copy : 1 ≤ length sockets
  pub ready : All (λ sk. is_available c.kernel (c.socks sk) (some c.skb) false true ≡ 0) sockets
  pub accepted : All (λ sk. c.entail sk ≡ true) sockets

measure_send-offers :
    (c : Call) (s : Settings) (r : Register)
    → offers (measure_send c s r).sk_list ≡ offers r.sk_list
unfolding measure_send
measure_send-offers c s r =
    check_failure-offers c.kernel c.socks s.sys c.run_start
      (calc_send_period c.kernel s.sys c.run_start r)
    ∙ calc_send_period-offers c.kernel s.sys c.run_start r

Accepts-takers :
    (entail : ℕ → Bool) (es : List RedSk)
    → Accepts entail es
    → All (λ sk. entail sk ≡ true) (takers es)
Accepts-takers entail es h = All-takers (λ sk. entail sk ≡ true) es h

-- A transmission that succeeds, from a list of ready subflows to one with the same offers.
send-Delivered :
    (c : Call) (es : List RedSk) (r : Register)
    → offers r.sk_list ≡ offers es
    → 1 ≤ count_avail es
    → All (Ready c.kernel c.socks (some c.skb)) es
    → (send_skb c.entail c.skb c.reinject c.run_start r).2 ≡ true
    → Delivered c (send_skb c.entail c.skb c.reinject c.run_start r).1
send-Delivered c es r same count ready done =
    let sent = (send_skb_delivers c.entail c.skb c.reinject c.run_start r done).0 in
    let accepts = (send_skb-iff-Accepts c.entail c.skb c.reinject c.run_start r).0 done in
    let old = takers-offers r.sk_list es same in
    let can_take = λ (sk : ℕ). is_available c.kernel (c.socks sk) (some c.skb) false true ≡ 0 in
    record {
      some_copy = omega (arith, ap length (sent ∙ old), length-takers es);
      ready = rw (sent, old) (All-takers can_take es ready);
      accepted = rw sent (Accepts-takers c.entail r.sk_list accepts);
    }

transmit-Delivered :
    (c : Call) (s : Settings) → (transmit c s).2 ≡ true → Delivered c (transmit c s).1
unfolding transmit
transmit-Delivered c s h =
    let out = check_avail_sk c.kernel c.socks s.sys (some c.skb) c.run_start s.reg in
    let r' = measure_send c s out.0 in
    elim (Bool-cases out.1) [
      | inr stop ↦ absurd (ground arith)
      | inl go ↦
          let (count, ready, quota, timer) =
            check_avail_sk_go c.kernel c.socks (some c.skb) s.sys c.run_start s.reg go in
          let done : (send_skb c.entail c.skb c.reinject c.run_start r').2 ≡ true = ground arith in
          rw go (send-Delivered c out.0.sk_list r' (measure_send-offers c s out.0) count ready done)
    ]

finish-Delivered :
    (c : Call) (p : Checked) → (finish c p).result ≡ true → Delivered c (finish c p).sockets
unfolding finish
finish-Delivered c p h = transmit-Delivered c p.settings h

-- When the scheduler reports that a segment was sent, it went out on at least one subflow, and each
-- socket that was given it could take it at this moment and did not refuse it.
pub send_next_segment-Delivered :
    (c : Call) (s : Settings) (ch : Checker) (out : Outcome)
    → send_next_segment c s ch ≡ some out
    → out.result ≡ true
    → Delivered c out.sockets
unfolding send_next_segment
send_next_segment-Delivered c s ch out h sent = elim (Option-cases (prepare c (new_meta c s) ch)) [
  | inl fault ↦ cc
  | inr (p, ok) ↦
      let same : finish c p ≡ out = cc in
      rw (← same) (finish-Delivered c p (ap (λ o. o.result) same ∙ sent))
]
