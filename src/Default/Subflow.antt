-- ===== src/Default/Subflow.antt =====
-- The subflows of a connection in mptcp_sched.c: may one take a segment, and which one takes it. A
-- segment that is NULL is `none`.
use redundant_mptcp_r_mptcp.Prelude.{
  ℕ, ◌+◌, ◌-◌, ◌*◌, ◌^◌, Bool, true, false, not, ◌&&◌, ◌||◌, Option, none, some, List, [], ◌∷◌, ltb,
  leb, ◌==◌, u32, sub32, bit, length, if◌then◌else◌,
}
use redundant_mptcp_r_mptcp.Register.{Sock, Socks, Skb, Kernel, tcp_ca_loss}
use redundant_mptcp_r_mptcp.Availability.{mptcp_sk_can_send, out_of_order}
use redundant_mptcp_r_mptcp.RoundRobin.Subflow.{RrSkb, skb_of, clear_mask, has_data_fin}

-- A subflow with what this scheduler reads of its socket besides a `Sock`: `last_rbuf_opti` is its
-- `defsched_priv`, `throttled` the bit TSQ_THROTTLED, `current_mss` what `tcp_current_mss` gives.
pub record DefSub : Type 0 where
  pub sk : ℕ
  pub path_index : ℕ
  pub rcv_low_prio : Bool
  pub low_prio : Bool
  pub throttled : Bool
  pub current_mss : ℕ
  pub snd_ssthresh : ℕ
  pub gso_max_segs : ℕ
  pub last_rbuf_opti : ℕ

unfoldable pub mptcp_is_def_unavailable : Sock → Bool
unfolding mptcp_sk_can_send
mptcp_is_def_unavailable s = not (mptcp_sk_can_send s) || s.pre_established || s.pf

abbrev pub min_ℕ : ℕ → ℕ → ℕ
min_ℕ m n = if leb m n then m else n

-- The last test: would the segment end behind the window?
unfoldable pub ends_behind : Kernel → Sock → (mss_now : ℕ) → Option Skb → Bool
ends_behind k s mss_now none = false
ends_behind k s mss_now (some skb) =
    k.seq_before s.wnd_end (u32 (s.write_seq + min_ℕ skb.len mss_now))

unfoldable pub mptcp_is_temp_unavailable :
    Kernel → Socks → DefSub → Option Skb → (zero_wnd_test : Bool) → Bool
unfolding out_of_order ends_behind
mptcp_is_temp_unavailable k socks e skb zero_wnd_test =
    let s = socks e.sk in
    let space = u32 ((s.snd_cwnd - s.packets_in_flight) * s.mss_cache) in
    if (s.ca_state == tcp_ca_loss) && (not s.is_reno || not (s.snd_una == s.high_seq))
    then true
    else if not s.fully_established && out_of_order s skb
    then true
    else if e.throttled
    then true
    else if leb s.snd_cwnd s.packets_in_flight
    then true
    else if ltb space (sub32 s.write_seq s.snd_nxt)
    then true
    else if zero_wnd_test && not (k.seq_before s.write_seq s.wnd_end)
    then true
    else not zero_wnd_test && ends_behind k s e.current_mss skb

unfoldable pub mptcp_is_available :
    Kernel → Socks → DefSub → Option Skb → (zero_wnd_test : Bool) → Bool
unfolding mptcp_is_def_unavailable mptcp_is_temp_unavailable
mptcp_is_available k socks e skb zero_wnd_test =
    not (mptcp_is_def_unavailable (socks e.sk))
    && not (mptcp_is_temp_unavailable k socks e skb zero_wnd_test)

unfoldable pub mptcp_dont_reinject_skb : DefSub → Option RrSkb → Bool
mptcp_dont_reinject_skb e none = false
mptcp_dont_reinject_skb e (some s) = bit s.path_mask (e.path_index - 1)

unfoldable pub subflow_is_backup : DefSub → Bool
subflow_is_backup e = e.rcv_low_prio || e.low_prio

unfoldable pub subflow_is_active : DefSub → Bool
subflow_is_active e = not e.rcv_low_prio && not e.low_prio

-- The variables of `get_subflow_from_selectors`.
pub record Search : Type 0 where
  pub bestsk : Option DefSub
  pub min_srtt : ℕ
  pub found_unused : Bool
  pub found_unused_una : Bool

abbrev pub search_start : Search
search_start = record {
  bestsk = none;
  min_srtt = 2 ^ 32 - 1;
  found_unused = false;
  found_unused_una = false;
}

-- The end of the loop's body, for a subflow that is available.
unfoldable pub take_best : Socks → (unused : Bool) → DefSub → Search → Search
take_best socks unused e st =
    let first = unused && not st.found_unused in
    let min_srtt = if first then 2 ^ 32 - 1 else st.min_srtt in
    let better = ltb (socks e.sk).srtt_us min_srtt in
    record st {
      bestsk = if better then some e else if first then none else st.bestsk;
      min_srtt = if better then (socks e.sk).srtt_us else min_srtt;
      found_unused = unused || st.found_unused;
    }

-- The loop's body.
unfoldable pub look_at :
    Kernel
    → Socks
    → (zero_wnd_test : Bool) → Option RrSkb
    → (DefSub → Bool)
    → DefSub
    → Search
    → Search
unfolding mptcp_is_def_unavailable mptcp_is_temp_unavailable mptcp_dont_reinject_skb take_best
look_at k socks zero_wnd_test skb selector e st =
    let unused = not (mptcp_dont_reinject_skb e skb) in
    if not (selector e)
    then st
    else if not unused && st.found_unused
    then st
    else if mptcp_is_def_unavailable (socks e.sk)
    then st
    else if mptcp_is_temp_unavailable k socks e (skb_of skb) zero_wnd_test
    then record st { found_unused_una = unused || st.found_unused_una }
    else take_best socks unused e st

unfoldable pub look_at_each :
    Kernel
    → Socks
    → (zero_wnd_test : Bool) → Option RrSkb
    → (DefSub → Bool)
    → List DefSub
    → Search
    → Search
unfolding look_at
look_at_each k socks zero_wnd_test skb selector [] st = st
look_at_each k socks zero_wnd_test skb selector (e ∷ es) st =
    look_at_each k socks zero_wnd_test skb selector es
      (look_at k socks zero_wnd_test skb selector e st)

abbrev pub is_some {ℓ} : {A : Type ℓ} → Option A → Bool
is_some none = false
is_some (some a) = true

-- `bestsk` and `force`.
unfoldable pub get_subflow_from_selectors :
    Kernel
    → Socks
    → List DefSub
    → Option RrSkb
    → (DefSub → Bool)
    → (zero_wnd_test : Bool) → Option DefSub × Bool
unfolding look_at_each
get_subflow_from_selectors k socks es skb selector zero_wnd_test =
    let st = look_at_each k socks zero_wnd_test skb selector es search_start in
    (st.bestsk, if is_some st.bestsk then st.found_unused else st.found_unused_una)

-- The connection. The write queue is what was sent, and the rest from the send head on; the number
-- of subflows is the length of their list.
pub record DefMeta : Type 0 where
  pub rcv_shutdown : Bool
  pub dfin_path_index : ℕ
  pub infinite_mapping : Bool  -- `infinite_mapping_snd || send_infinite_mapping`
  pub subflows : List DefSub
  pub reinject_queue : List RrSkb
  pub sent : List RrSkb
  pub unsent : List RrSkb

unfoldable pub find_subflow : (DefSub → Bool) → List DefSub → Option DefSub
find_subflow test [] = none
find_subflow test (e ∷ es) = if test e then some e else find_subflow test es

-- What follows the data fin: active subflows, then backups. The segment's mask may be cleared.
unfoldable pub active_or_backup :
    Kernel
    → Socks
    → List DefSub
    → Option RrSkb
    → (zero_wnd_test : Bool) → Option DefSub × Option RrSkb
unfolding subflow_is_active subflow_is_backup get_subflow_from_selectors
active_or_backup k socks es skb zero_wnd_test =
    let (active, force) =
      get_subflow_from_selectors k socks es skb subflow_is_active zero_wnd_test in
    let (backup, force') =
      get_subflow_from_selectors k socks es skb subflow_is_backup zero_wnd_test in
    if force then (active, skb) else if force' then (backup, skb) else (backup, clear_mask skb)

-- The subflow, or NULL, and the segment.
unfoldable pub get_available_subflow :
    Kernel → Socks → DefMeta → Option RrSkb → (zero_wnd_test : Bool) → Option DefSub × Option RrSkb
unfolding mptcp_is_available find_subflow active_or_backup
get_available_subflow k socks m skb zero_wnd_test =
    let avail = λ (e : DefSub). mptcp_is_available k socks e (skb_of skb) zero_wnd_test in
    let answers = λ (e : DefSub). (e.path_index == m.dfin_path_index) && avail e in
    let other = active_or_backup k socks m.subflows skb zero_wnd_test in
    if length m.subflows == 1
    then (find_subflow avail m.subflows, skb)
    else if m.rcv_shutdown && has_data_fin skb
    then elim (find_subflow answers m.subflows) [ some e ↦ (some e, skb) | none ↦ other ]
    else other
