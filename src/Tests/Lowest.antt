-- ===== src/Tests/Lowest.antt =====
-- The default scheduler on two subflows, of which the second is faster.
use redundant_mptcp_r_mptcp.Prelude.{
  ℕ, ◌≡◌, ◌⊎◌, refl, true, false, some, [], ◌∷◌, ◌==◌, pos, ◌/◌, arith, if◌then◌else◌,
}
use mathlib.Core.List.{Memᴰ}
use redundant_mptcp_r_mptcp.Register.{Socks}
use redundant_mptcp_r_mptcp.RoundRobin.Subflow.{RrSkb}
use redundant_mptcp_r_mptcp.Default.Subflow.{
  DefSub, DefMeta, is_some, mptcp_is_available, subflow_is_active, subflow_is_backup,
  mptcp_dont_reinject_skb, get_subflow_from_selectors, get_available_subflow,
}
use redundant_mptcp_r_mptcp.Default.Choice.{
  any, is_ready, is_waiting, best, get_subflow_from_selectors-best,
}
use redundant_mptcp_r_mptcp.Default.Segment.{
  Around, DefState, mptcp_rcv_buf_optimization, mptcp_next_segment,
}
use redundant_mptcp_r_mptcp.Default.Available.{Timed, get_available_subflow_ready}
use redundant_mptcp_r_mptcp.Default.Retry.{get_available_subflow_retry}
use redundant_mptcp_r_mptcp.Default.Next.{Sendable, mptcp_next_segment-Sendable}
use redundant_mptcp_r_mptcp.Tests.Fixtures.{clock, segment, sock_at}

abbrev pub two_socks : Socks
two_socks sk = record (sock_at 10 20) { srtt_us = if sk == 2 then 4000 else 20000 }

timed : Timed two_socks
timed sk = ground arith

abbrev pub sub : ℕ → DefSub
sub n = record {
  sk = n;
  path_index = n;
  rcv_low_prio = false;
  low_prio = false;
  throttled = false;
  current_mss = 1000;
  snd_ssthresh = 20;
  gso_max_segs = 0;
  last_rbuf_opti = 0;
}

-- A segment, with the paths that sent it.
abbrev pub sent_on : (mask : ℕ) → RrSkb
sent_on mask = record { skb = segment; path_mask = mask; data_fin = false }

abbrev conn : DefMeta
conn = record {
  rcv_shutdown = false;
  dfin_path_index = 0;
  infinite_mapping = false;
  subflows = sub 1 ∷ sub 2 ∷ [];
  reinject_queue = [];
  sent = sent_on 1 ∷ [];
  unsent = sent_on 0 ∷ [];
}

-- The meta socket's window is closed.
abbrev around : Around
around = record {
  time_stamp = 5000;
  usecs_to_jiffies = λ us. us / 1000;
  stream_memory_free = false;
  sk_socket = true;
  nospace = false;
  stream_wspace = pos 0;
  stream_min_wspace = pos 0;
  snd_wnd_test = λ s mss. false;
  cwnd_test = λ s skb. 8;
}

abbrev before : DefState
before = record { socks = two_socks; conn = conn }

chosen_used :
    get_subflow_from_selectors clock two_socks conn.subflows
      (some (sent_on 2))
      subflow_is_active
      false
    ≡ (some (sub 1), true)
unfolding get_subflow_from_selectors subflow_is_active
chosen_used = refl

get_subflow_from_selectors-best_example :
    get_subflow_from_selectors clock two_socks conn.subflows
      (some (sent_on 2))
      subflow_is_active
      false
    ≡ best clock two_socks false (some (sent_on 2)) subflow_is_active conn.subflows
get_subflow_from_selectors-best_example =
    get_subflow_from_selectors-best clock two_socks false (some (sent_on 2)) subflow_is_active
      conn.subflows timed

takes_faster :
    (get_available_subflow clock two_socks conn (some (sent_on 0)) false).0 ≡ some (sub 2)
unfolding get_available_subflow
takes_faster = refl

both_ready :
    any (is_ready clock two_socks false (some (sent_on 3)) subflow_is_active) conn.subflows ≡ true
unfolding mptcp_is_available subflow_is_active
both_ready = refl

no_active_waits :
    any (is_waiting clock two_socks false (some (sent_on 3)) subflow_is_active) conn.subflows
    ≡ false
unfolding mptcp_dont_reinject_skb subflow_is_active
no_active_waits = refl

no_backup_waits :
    any (is_waiting clock two_socks false (some (sent_on 3)) subflow_is_backup) conn.subflows
    ≡ false
unfolding subflow_is_backup
no_backup_waits = refl

get_available_subflow_ready_example :
    Memᴰ (sub 2) conn.subflows
    × (mptcp_is_available clock two_socks (sub 2) (some segment) false ≡ true)
get_available_subflow_ready_example =
    get_available_subflow_ready clock two_socks false (some (sent_on 0)) conn (sub 2) timed
      takes_faster

get_available_subflow_retry_example :
    (let r = get_available_subflow clock two_socks conn (some (sent_on 3)) false in
      (is_some r.0 ≡ true)
      ⊎ (is_some (get_available_subflow clock two_socks conn r.1 false).0 ≡ true))
get_available_subflow_retry_example =
    get_available_subflow_retry clock two_socks false (sent_on 3) conn timed refl refl both_ready
      no_active_waits no_backup_waits

-- The window of the meta socket is closed, the slower subflow is punished, and the segment that it
-- sent is sent again.
punished :
    (let r = mptcp_next_segment clock around before in
      ((r.segment ≡ some (sent_on 1)) × ((r.state.socks 1).snd_cwnd ≡ 5)))
unfolding mptcp_next_segment mptcp_rcv_buf_optimization
punished = (refl, refl)

mptcp_next_segment-Sendable_example : Sendable clock (mptcp_next_segment clock around before)
mptcp_next_segment-Sendable_example = mptcp_next_segment-Sendable clock around before timed
