-- ===== src/RoundRobin/Subflow.antt =====
-- The subflows of a connection in mptcp_rr.c: may one take a segment, and which one takes a
-- reinjection. A segment that is NULL is `none`.
use redundant_mptcp_r_mptcp.Prelude.{
  ℕ, ◌-◌, ◌*◌, Bool, true, false, not, ◌&&◌, ◌||◌, Option, none, some, List, [], ◌∷◌, ltb, leb,
  ◌==◌, u32, sub32, bit, if◌then◌else◌,
}
use redundant_mptcp_r_mptcp.Register.{Sock, Socks, Skb, Kernel, tcp_ca_loss}
use redundant_mptcp_r_mptcp.Availability.{mptcp_sk_can_send, out_of_order}

-- A subflow of the connection with its `rrsched_priv`; path indices count from 1.
pub record RrSub : Type 0 where
  pub sk : ℕ
  pub path_index : ℕ
  pub quota : ℕ

-- The segment with the fields of its control block that this scheduler reads.
pub record RrSkb : Type 0 where
  pub skb : Skb
  pub path_mask : ℕ
  pub data_fin : Bool

abbrev pub skb_of : Option RrSkb → Option Skb
skb_of none = none
skb_of (some s) = some s.skb

-- The label `zero_wnd_test`.
rr_zero_wnd : Kernel → Sock → Bool → Bool
rr_zero_wnd k s zero_wnd_test = not (zero_wnd_test && not (k.seq_before s.write_seq s.wnd_end))

rr_cwnd : Kernel → Sock → Bool → Bool
unfolding rr_zero_wnd
rr_cwnd k s zero_wnd_test =
    let space = u32 ((s.snd_cwnd - s.packets_in_flight) * s.mss_cache) in
    if leb s.snd_cwnd s.packets_in_flight || ltb space (sub32 s.write_seq s.snd_nxt)
    then false
    else rr_zero_wnd k s zero_wnd_test

unfoldable pub mptcp_rr_is_available :
    Kernel → Sock → Option Skb → (zero_wnd_test cwnd_test : Bool) → Bool
unfolding mptcp_sk_can_send out_of_order rr_zero_wnd rr_cwnd
mptcp_rr_is_available k s skb zero_wnd_test cwnd_test =
    if not (mptcp_sk_can_send s) || s.pre_established || s.pf
    then false
    else if (s.ca_state == tcp_ca_loss) && (not s.is_reno || not (s.snd_una == s.high_seq))
    then false
    else if not s.fully_established && out_of_order s skb
    then false
    else if not cwnd_test
    then rr_zero_wnd k s zero_wnd_test
    else rr_cwnd k s zero_wnd_test

-- `skb && (mptcp_pi_to_flag(path_index) & path_mask)`
unfoldable pub mptcp_rr_dont_reinject_skb : RrSub → Option RrSkb → Bool
mptcp_rr_dont_reinject_skb e none = false
mptcp_rr_dont_reinject_skb e (some s) = bit s.path_mask (e.path_index - 1)

-- The connection.
pub record RrMeta : Type 0 where
  pub rcv_shutdown : Bool
  pub dfin_path_index : ℕ
  pub infinite_mapping : Bool  -- `infinite_mapping_snd || send_infinite_mapping`
  pub subflows : List RrSub
  pub reinject_queue : List RrSkb
  pub send_head : Option RrSkb

-- The loops that look for the subflow of the data fin, and for the last subflow that passes a test.
unfoldable pub find_first : (RrSub → Bool) → List RrSub → Option ℕ
find_first test [] = none
find_first test (e ∷ es) = if test e then some e.sk else find_first test es

unfoldable pub find_last : (RrSub → Bool) → (last : Option ℕ) → List RrSub → Option ℕ
find_last test last [] = last
find_last test last (e ∷ es) = find_last test (if test e then some e.sk else last) es

abbrev pub clear_mask : Option RrSkb → Option RrSkb
clear_mask none = none
clear_mask (some s) = some (record s { path_mask = 0 })

abbrev pub has_data_fin : Option RrSkb → Bool
has_data_fin none = false
has_data_fin (some s) = s.data_fin

-- The two loops of `rr_get_available_subflow` after the data fin.
unfoldable pub best_subflow :
    (avail : RrSub → Bool) → Option RrSkb → List RrSub → Option ℕ × Option RrSkb
unfolding mptcp_rr_dont_reinject_skb find_last
best_subflow avail skb es =
    let fresh = λ (e : RrSub). avail e && not (mptcp_rr_dont_reinject_skb e skb) in
    let sent = λ (e : RrSub). avail e && mptcp_rr_dont_reinject_skb e skb in
    elim (find_last fresh none es) [
      | some sk ↦ (some sk, skb)
      | none ↦ elim (find_last sent none es) [
        | some sk ↦ (some sk, clear_mask skb)
        | none ↦ (none, skb)
      ]
    ]

-- The socket, or NULL, and the segment, whose mask may be cleared.
unfoldable pub rr_get_available_subflow :
    Kernel → Socks → RrMeta → Option RrSkb → (zero_wnd_test : Bool) → Option ℕ × Option RrSkb
unfolding mptcp_rr_is_available find_first best_subflow
rr_get_available_subflow k socks m skb zero_wnd_test =
    let avail =
      λ (e : RrSub). mptcp_rr_is_available k (socks e.sk) (skb_of skb) zero_wnd_test true in
    let answers = λ (e : RrSub). (e.path_index == m.dfin_path_index) && avail e in
    let other = best_subflow avail skb m.subflows in
    if m.rcv_shutdown && has_data_fin skb
    then elim (find_first answers m.subflows) [ some sk ↦ (some sk, skb) | none ↦ other ]
    else other
