-- ===== src/Send.antt =====
-- `rmptcp_send_skb` of rmptcp.c: the segment goes out on every available subflow. `entail` is the
-- result of `mptcp_skb_entail` of mptcp_output.c at each socket; neither it nor the push that
-- follows it changes the register.
pub mod Delivery
pub mod Frame
use redundant_mptcp_r_mptcp.Prelude.{
  ℕ, ◌+◌, Bool, true, false, not, List, [], ◌∷◌, ℤ, u64, if◌then◌else◌,
}
use redundant_mptcp_r_mptcp.Register.{RedSk, Register, Skb}

-- The entry of a subflow that is given the segment.
used : (run_start : ℤ) → (len : ℕ) → RedSk → RedSk
used run_start len e = record e {
  state = record e.state { available = false };
  last_used = run_start;
  seg_count = u64 (e.seg_count + 1);
  byte_count = u64 (e.byte_count + len);
}

-- The list after the loop, the sockets that took the segment, and whether none refused it.
pub record Sent : Type 0 where
  pub entries : List RedSk
  pub sockets : List ℕ
  pub done : Bool

send_loop : (entail : ℕ → Bool) → (run_start : ℤ) → (len : ℕ) → List RedSk → Sent
unfolding used
send_loop entail run_start len [] = record { entries = []; sockets = []; done = true }
send_loop entail run_start len (e ∷ es) =
    let rest = send_loop entail run_start len es in
    if not e.state.available
    then record rest { entries = e ∷ rest.entries }
    else if not (entail e.sk)
    then record { entries = used run_start len e ∷ es; sockets = []; done = false }
    else record {
      entries = used run_start len e ∷ rest.entries;
      sockets = e.sk ∷ rest.sockets;
      done = rest.done;
    }

-- The register, the sockets that took the segment, and the result.
unfoldable pub send_skb :
    (entail : ℕ → Bool)
    → Skb
    → (reinject : Bool) → (run_start : ℤ) → Register
    → Register × List ℕ × Bool
unfolding send_loop
send_skb entail skb reinject run_start r =
    let s = send_loop entail run_start skb.len r.sk_list in
    let r' = record r { sk_list = s.entries } in
    let counted = record r' { effective_byte_count = u64 (r.effective_byte_count + skb.len) } in
    if not s.done
    then (r', s.sockets, false)
    else if reinject
    then (r', s.sockets, true)
    else (counted, s.sockets, true)
