-- ===== src/Check/Decision.antt =====
-- The decision of `rmptcp_check_avail_sk`: what it hands to the transmission.
use redundant_mptcp_r_mptcp.Prelude.{
  Bool-cases, inl, inr, ℕ, ◌+◌, ◌≡◌, refl, ◌∙◌, false, Option, List, ℤ, length, length-modify, All,
  arith, ◌&&◌, leb, not, ◌==◌, ◌≤◌, ◌<◌, ◌^◌, sym,
}
use mathlib.Core.Path.{subst}
use redundant_mptcp_r_mptcp.Register.{RedSk, Socks, Skb, Kernel, Register, Sysctl}
use redundant_mptcp_r_mptcp.Quota.{next_actual, set_q_actual}
use redundant_mptcp_r_mptcp.Quota.Actual.{Stepped, next_actual-Stepped}
use redundant_mptcp_r_mptcp.Check.{
  set_available, kick, decide_send, Verdict, check_avail_sk, verdict, conclude, swept, sweep, true,
  nonzero, set_q_actual, limit_control, pos,
}
use redundant_mptcp_r_mptcp.Check.Counts.{
  count_avail, count_avail_main, count_avail_main-le, count_avail-le,
}
use redundant_mptcp_r_mptcp.Check.Kick.{kick-Kicked, kick_keeps, modify-All, Kicked}
use redundant_mptcp_r_mptcp.Check.Scan.{Ready, sweep-Swept}

module _ (k : Kernel) (socks : Socks) (skb : Option Skb) where
  kick-Ready :
      (q num main : ℕ) (es : List RedSk)
      → All (Ready k socks skb) es
      → All (Ready k socks skb) (kick k q num main es).0
  kick-Ready =
      kick_keeps (All (Ready k socks skb)) (modify-All (Ready k socks skb) (λ e h e'. cc)) k

kick-length :
    (k : Kernel) (q num main : ℕ) (es : List RedSk) → length (kick k q num main es).0 ≡ length es
kick-length k q num main es =
    kick_keeps (λ xs. length xs ≡ length es)
      (λ i xs h. length-modify (set_available false) i xs ∙ h) k q num main es refl

-- What the decision keeps true of the register.
pub record Decided (k : Kernel) (socks : Socks) (skb : Option Skb) (n : ℕ) (q : ℕ) (v : Verdict)
    : Type 0 where
  pub counted : v.num ≡ count_avail v.reg.sk_list
  pub ready : All (Ready k socks skb) v.reg.sk_list
  pub slots : length v.reg.sk_list + length v.reg.spare ≡ n
  pub quota : v.reg.q_actual ≡ q

conclude_go :
    (v : Verdict)
    → v.go ≡ true
    → 1 ≤ v.num
    → ((conclude v).1 ≡ true) × ((conclude v).0.sk_list ≡ v.reg.sk_list)
unfolding conclude set_q_actual
conclude_go v go some = ground arith

module _ (k : Kernel) (socks : Socks) (skb : Option Skb) (sys : Sysctl) (run_start : ℤ) where
  decide_send-Decided :
      (r : Register)
      → All (Ready k socks skb) r.sk_list
      → let num = count_avail r.sk_list in
        Decided k socks skb
          (length r.sk_list + length r.spare)
          r.q_actual
          (decide_send k sys run_start num (count_avail_main r.sk_list) r)
  unfolding decide_send
  decide_send-Decided r ready =
      let num = count_avail r.sk_list in
      let main = count_avail_main r.sk_list in
      let fine = kick-Ready k socks skb r.q_control num main r.sk_list ready in
      let same = kick-length k r.q_control num main r.sk_list in
      elim (Bool-cases (leb r.q_control num && not (main == 0))) [
        | inl reached ↦
            let out = kick-Kicked k r.q_control r.sk_list (ground arith) (ground arith) in
            ground (arith, out, fine, same)
        | inr missed ↦ ground arith
      ]

  decided :
      (r : Register) (num main : ℕ)
      → num ≡ count_avail r.sk_list
      → main ≡ count_avail_main r.sk_list
      → All (Ready k socks skb) r.sk_list
      → Decided k socks skb
          (length r.sk_list + length r.spare)
          r.q_actual
          (decide_send k sys run_start num main r)
  decided r num main en em ready = rw (en, em) (decide_send-Decided r ready)

  verdict-Decided :
      (r : Register)
      → Decided k socks skb
          (length r.sk_list + length r.spare)
          r.q_actual
          (verdict k socks sys skb run_start r)
  unfolding verdict swept
  verdict-Decided r =
      let s = sweep k socks skb run_start r.max_sk_noshow r.sk_list r.spare in
      let all = sweep-Swept k socks skb run_start r.max_sk_noshow r.sk_list r.spare in
      let d =
        decided (swept s r) s.num_available s.main_available all.counted all.main_counted
          all.ready in
      record { counted = d.counted; ready = d.ready; slots = d.slots ∙ all.slots; quota = d.quota }

  -- The array keeps its size.
  pub check_avail_sk-slots :
      (r : Register)
      → let r' = (check_avail_sk k socks sys skb run_start r).0 in
        length r'.sk_list + length r'.spare ≡ length r.sk_list + length r.spare
  unfolding check_avail_sk conclude set_q_actual
  check_avail_sk-slots r = ground (arith, verdict-Decided r)

  pub check_avail_sk_go :
      (r : Register)
      → (check_avail_sk k socks sys skb run_start r).1 ≡ true
      → let r' = (check_avail_sk k socks sys skb run_start r).0 in
        (1 ≤ count_avail r'.sk_list)
        × All (Ready k socks skb) r'.sk_list
        × (r'.q_actual ≡ next_actual (count_avail r'.sk_list) r.q_actual)
        × (r'.timeout_start ≡ pos 0)
  unfolding check_avail_sk conclude set_q_actual
  check_avail_sk_go r h = ground (arith, verdict-Decided r)

  -- On an array of 24 slots and with a measured quota that fits an `int`: when the check says that the
  -- segment goes out, at least one subflow is available, every available one can take the segment
  -- now, the timer that waits for subflows is stopped, and the measured quota is set to 100 times
  -- their number if it was 0, and otherwise moves strictly towards that value without passing it, or
  -- stays if it is there.
  pub check_avail_sk_sends :
      (r : Register)
      → length r.sk_list + length r.spare ≡ 24
      → r.q_actual < 2 ^ 31
      → (check_avail_sk k socks sys skb run_start r).1 ≡ true
      → let r' = (check_avail_sk k socks sys skb run_start r).0 in
        (1 ≤ count_avail r'.sk_list)
        × All (Ready k socks skb) r'.sk_list
        × Stepped (count_avail r'.sk_list) r.q_actual r'.q_actual
        × (r'.timeout_start ≡ pos 0)
  check_avail_sk_sends r slots fits h =
      let r' = (check_avail_sk k socks sys skb run_start r).0 in
      let (some, ready, measured, stopped) = check_avail_sk_go r h in
      let few = count_avail-le r'.sk_list in
      let same = check_avail_sk-slots r in
      let step = next_actual-Stepped (count_avail r'.sk_list) r.q_actual some (omega arith) fits in
      (
        some,
        ready,
        subst (Stepped (count_avail r'.sk_list) r.q_actual) (sym measured) step,
        stopped,
      )

  -- The first branch of the decision, on a register whose control value is within reach.
  decide_target :
      (r : Register)
      → r.q_control ≤ count_avail r.sk_list
      → 1 ≤ count_avail_main r.sk_list
      → let v =
          decide_send k sys run_start (count_avail r.sk_list) (count_avail_main r.sk_list) r in
        (v.go ≡ true)
        × (1 ≤ v.num)
        × (nonzero sys.enable_kick ≡ true
            → Kicked r.q_control r.sk_list (v.reg.sk_list, count_avail v.reg.sk_list))
        × (nonzero sys.enable_kick ≡ false → v.reg.sk_list ≡ r.sk_list)
  unfolding decide_send
  decide_target r enough some_main =
      let out = kick-Kicked k r.q_control r.sk_list enough some_main in
      let fewer =
        count_avail_main-le
          (kick k r.q_control (count_avail r.sk_list) (count_avail_main r.sk_list) r.sk_list).0 in
      let fewer' = count_avail_main-le r.sk_list in
      let met : (leb r.q_control (count_avail r.sk_list) && not (count_avail_main r.sk_list == 0))
          ≡ true =
        ground arith in
      (
        ground (arith, met),
        ground (arith, met, out, fewer, fewer'),
        λ on.
            rw (met, on)
              (record {
                counted = refl;
                enough = omega (arith, out.counted, out.enough);
                with_main = out.with_main;
                least = ground (arith, out);
                unchanged = out.unchanged;
              }),
        λ off. rw (met, off),
      )

  reach_target :
      (r : Register) (num main : ℕ)
      → num ≡ count_avail r.sk_list
      → main ≡ count_avail_main r.sk_list
      → r.q_control ≤ count_avail r.sk_list
      → 1 ≤ count_avail_main r.sk_list
      → let v = decide_send k sys run_start num main r in
        (v.go ≡ true)
        × (1 ≤ v.num)
        × (nonzero sys.enable_kick ≡ true
            → Kicked r.q_control r.sk_list (v.reg.sk_list, count_avail v.reg.sk_list))
        × (nonzero sys.enable_kick ≡ false → v.reg.sk_list ≡ r.sk_list)
  reach_target r num main en em enough some_main = rw (en, em) (decide_target r enough some_main)

  -- A segment goes out whenever the subflows that the first loop keeps reach the target and one of
  -- them is a main one. With the removal switched on the redundancy is then cut down to the
  -- target, as `Kicked` says, and otherwise all of them take the segment.
  pub check_avail_sk_target :
      (r : Register)
      → let s = sweep k socks skb run_start r.max_sk_noshow r.sk_list r.spare in
        limit_control r ≤ count_avail s.kept
        → 1 ≤ count_avail_main s.kept
        → let out = check_avail_sk k socks sys skb run_start r in
          (out.1 ≡ true)
          × (nonzero sys.enable_kick ≡ true
              → Kicked (limit_control r) s.kept (out.0.sk_list, count_avail out.0.sk_list))
          × (nonzero sys.enable_kick ≡ false → out.0.sk_list ≡ s.kept)
  unfolding check_avail_sk verdict swept
  check_avail_sk_target r enough some_main =
      let s = sweep k socks skb run_start r.max_sk_noshow r.sk_list r.spare in
      let all = sweep-Swept k socks skb run_start r.max_sk_noshow r.sk_list r.spare in
      let (go, some, cut, same) =
        reach_target (swept s r) s.num_available s.main_available all.counted all.main_counted
          enough some_main in
      let (sent, list) = conclude_go (verdict k socks sys skb run_start r) go some in
      (sent, λ on. rw list (cut on), λ off. list ∙ same off)
