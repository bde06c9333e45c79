-- ===== src/Availability.antt =====
-- `rmptcp_is_available` of rmptcp.c, with `mptcp_sk_can_send` of mptcp.h: may a subflow take a
-- segment right now? The result is 0 or the number of the test that failed.
use redundant_mptcp_r_mptcp.Prelude.{
  ℕ, ◌-◌, ◌*◌, Bool, not, ◌&&◌, ◌||◌, Option, none, some, ltb, leb, ◌==◌, u32, sub32, if◌then◌else◌,
}
use redundant_mptcp_r_mptcp.Register.{Sock, Skb, Kernel, tcp_ca_loss}

unfoldable pub mptcp_sk_can_send : Sock → Bool
mptcp_sk_can_send s = s.passive_fastopen || (s.sending_state && not s.pre_established)

-- `skb && second_packet && last_end_data_seq != seq`; an absent segment is NULL.
unfoldable pub out_of_order : Sock → Option Skb → Bool
out_of_order s none = Bool.false
out_of_order s (some skb) = s.second_packet && not (s.last_end_data_seq == skb.seq)

-- The label `zero_wnd_test`.
zero_wnd : Kernel → Sock → Bool → ℕ
zero_wnd k s zero_wnd_test =
    if zero_wnd_test && not (k.seq_before s.write_seq s.wnd_end) then 9 else 0

-- The tests on the congestion window.
cwnd : Kernel → Sock → Bool → ℕ
unfolding zero_wnd
cwnd k s zero_wnd_test =
    if leb s.snd_cwnd s.packets_in_flight
    then 7
    else (let space = u32 ((s.snd_cwnd - s.packets_in_flight) * s.mss_cache) in
        if ltb space (sub32 s.write_seq s.snd_nxt) then 8 else zero_wnd k s zero_wnd_test)

unfoldable pub is_available : Kernel → Sock → Option Skb → (zero_wnd_test cwnd_test : Bool) → ℕ
unfolding mptcp_sk_can_send out_of_order zero_wnd cwnd
is_available k s skb zero_wnd_test cwnd_test =
    if not (mptcp_sk_can_send s)
    then 1
    else if s.pre_established
    then 2
    else if s.pf
    then 3
    else if (s.ca_state == tcp_ca_loss) && not s.is_reno
    then 4
    else if (s.ca_state == tcp_ca_loss) && not (s.snd_una == s.high_seq)
    then 5
    else if not s.fully_established && out_of_order s skb
    then 6
    else if not cwnd_test
    then zero_wnd k s zero_wnd_test
    else cwnd k s zero_wnd_test
