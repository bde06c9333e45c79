-- ===== src/Default/Segment.antt =====
-- `mptcp_rcv_buf_optimization` and `mptcp_next_segment` of mptcp_sched.c.
use redundant_mptcp_r_mptcp.Prelude.{
  ℕ, ◌-◌, ◌*◌, ◌/◌, ◌^◌, Bool, true, false, not, ◌&&◌, ◌||◌, Option, none, some, List, [], ◌∷◌, map,
  ltb, leb, ◌==◌, ℤ, pos, negsuc, ltb_ℤ, u32, sub32, bit, length, if◌then◌else◌,
}
use redundant_mptcp_r_mptcp.Register.{Sock, Socks, Kernel}
use redundant_mptcp_r_mptcp.RoundRobin.Subflow.{RrSkb}
use redundant_mptcp_r_mptcp.Default.Subflow.{
  DefSub, DefMeta, min_ℕ, mptcp_is_available, find_subflow, get_available_subflow,
}

-- What the kernel's functions and variables give: `tcp_time_stamp`, the meta socket's buffers,
-- `tcp_snd_wnd_test` for the meta socket, and `tcp_cwnd_test`.
pub record Around : Type 0 where
  pub time_stamp : ℕ
  pub usecs_to_jiffies : ℕ → ℕ
  pub stream_memory_free : Bool
  pub sk_socket : Bool
  pub nospace : Bool
  pub stream_wspace : ℤ
  pub stream_min_wspace : ℤ
  pub snd_wnd_test : RrSkb → (mss : ℕ) → Bool
  pub cwnd_test : Sock → RrSkb → ℕ

pub record DefState : Type 0 where
  pub socks : Socks
  pub conn : DefMeta

-- `TCP_CA_Open` of the kernel's tcp.h.
abbrev pub tcp_ca_open : ℕ
tcp_ca_open = 0

abbrev pub max_ℕ : ℕ → ℕ → ℕ
max_ℕ m n = if leb m n then n else m

-- Another subflow than `e` on which a segment was sent.
abbrev pub sent_on_other : DefSub → RrSkb → DefSub → Bool
sent_on_other e head t = not (t.sk == e.sk) && bit head.path_mask (t.path_index - 1)

-- `tp_it->snd_cwnd = max(tp_it->snd_cwnd >> 1U, 1U)`
abbrev pub half_cwnd : (sk : ℕ) → Socks → Socks
half_cwnd sk socks i =
    if i == sk then record (socks i) { snd_cwnd = max_ℕ ((socks i).snd_cwnd / 2) 1 } else socks i

-- The subflows after the penalty for `t`, which `e` gave it.
abbrev pub penalised : Around → Socks → (e t : DefSub) → List DefSub → List DefSub
penalised env socks e t = map (λ (x : DefSub).
    if x.sk == t.sk
    then record x {
      snd_ssthresh =
          if leb x.snd_ssthresh (socks t.sk).snd_cwnd
          then max_ℕ (x.snd_ssthresh / 2) 2
          else x.snd_ssthresh;
    }
    else if x.sk == e.sk
    then record x { last_rbuf_opti = env.time_stamp }
    else x)

-- The first loop of `mptcp_rcv_buf_optimization`.
unfoldable pub penalise : Around → DefSub → RrSkb → DefState → DefState
unfolding find_subflow
penalise env e head st =
    let srtt = (st.socks e.sk).srtt_us in
    elim (find_subflow (sent_on_other e head) st.conn.subflows) [
      | none ↦ st
      | some t ↦
          if ltb srtt (st.socks t.sk).srtt_us && ((st.socks t.sk).ca_state == tcp_ca_open)
          then record {
            socks = half_cwnd t.sk st.socks;
            conn = record st.conn { subflows = penalised env st.socks e t st.conn.subflows };
          }
          else st
    ]

-- The second loop, `do_retrans` so far.
unfoldable pub worth_retrans : Socks → DefSub → RrSkb → (do_retrans : Bool) → List DefSub → Bool
worth_retrans socks e head do_retrans [] = do_retrans
worth_retrans socks e head do_retrans (t ∷ ts) =
    let skip = worth_retrans socks e head do_retrans ts in
    let next = worth_retrans socks e head true ts in
    if not (sent_on_other e head t)
    then skip
    else if leb (socks t.sk).snd_cwnd 4
    then true
    else if leb (socks t.sk).srtt_us (u32 (4 * (socks e.sk).srtt_us))
    then false
    else next

-- From the label `retrans` on.
unfoldable pub retrans : Kernel → DefSub → RrSkb → DefState → Option RrSkb
unfolding worth_retrans mptcp_is_available
retrans k e head st =
    if not (bit head.path_mask (e.path_index - 1))
      && worth_retrans st.socks e head false st.conn.subflows
      && mptcp_is_available k st.socks e (some head.skb) false
    then some head
    else none

unfoldable pub mptcp_rcv_buf_optimization :
    Kernel → Around → DefSub → (penal : Bool) → DefState → DefState × Option RrSkb
unfolding penalise retrans
mptcp_rcv_buf_optimization k env e penal st =
    let since = sub32 env.time_stamp e.last_rbuf_opti in
    let rtt = env.usecs_to_jiffies ((st.socks e.sk).srtt_us / 2 ^ 3) in
    let lenient = (not penal && env.stream_memory_free) || ltb since rtt in
    elim st.conn.sent [
      | [] ↦ (st, none)
      | head ∷ rest ↦
          if length st.conn.subflows == 1
          then (st, none)
          else (let st' = if lenient then st else penalise env e head st in
              (st', retrans k e head st'))
    ]

abbrev pub head_of : List RrSkb → Option RrSkb
head_of [] = none
head_of (s ∷ q) = some s

-- The state, the segment and `reinject`, for the subflow that may take a retransmission.
unfoldable pub optimise : Kernel → Around → Option DefSub → DefState → DefState × Option RrSkb × ℤ
unfolding mptcp_rcv_buf_optimization
optimise k env none st = (st, none, pos 0)
optimise k env (some e) st =
    let (st', r) = mptcp_rcv_buf_optimization k env e false st in
    (st', r, elim r [ none ↦ pos 0 | some s ↦ negsuc 0 ])

-- `__mptcp_next_segment`
unfoldable pub peek_next_segment : Kernel → Around → DefState → DefState × Option RrSkb × ℤ
unfolding optimise get_available_subflow
peek_next_segment k env st =
    let full = env.sk_socket && env.nospace && ltb_ℤ env.stream_wspace env.stream_min_wspace in
    let free = (get_available_subflow k st.socks st.conn none false).0 in
    if st.conn.infinite_mapping
    then (st, head_of st.conn.unsent, pos 0)
    else elim st.conn.reinject_queue [
      | s ∷ q ↦ (st, some s, pos 1)
      | [] ↦ elim st.conn.unsent [
        | s ∷ q ↦ (st, some s, pos 0)
        | [] ↦ if full then optimise k env free st else (st, none, pos 0)
      ]
    ]

-- The segment in its queue, whose mask may have been cleared.
abbrev pub put_first : Option RrSkb → List RrSkb → List RrSkb
put_first none q = q
put_first (some s) [] = []
put_first (some s) (x ∷ q) = s ∷ q

abbrev pub put_back : (reinject : ℤ) → Option RrSkb → DefMeta → DefMeta
put_back (pos n) s m =
    if n == 1
    then record m { reinject_queue = put_first s m.reinject_queue }
    else record m { unsent = put_first s m.unsent }
put_back (negsuc n) s m = record m { sent = put_first s m.sent }

-- What `mptcp_next_segment` leaves; a NULL socket may also be one that is not written.
pub record DefResult : Type 0 where
  pub state : DefState
  pub segment : Option RrSkb
  pub subsk : Option DefSub
  pub limit : ℕ
  pub reinject : ℤ

-- The end of the function: the limit.
unfoldable pub limit_segment : Around → DefSub → RrSkb → ℤ → DefState → DefResult
limit_segment env e s reinject st =
    let sock = st.socks e.sk in
    let gso = if e.gso_max_segs == 0 then 1 else e.gso_max_segs in
    let max_segs = min_ℕ (env.cwnd_test sock s) gso in
    let max_len = u32 (e.current_mss * max_segs) in
    let window = sub32 sock.wnd_end sock.write_seq in
    let whole : DefResult = record {
      state = st;
      segment = some s;
      subsk = some e;
      limit = 0;
      reinject = reinject;
    } in
    if leb s.skb.len e.current_mss
    then whole
    else if max_segs == 0
    then record whole { segment = none }
    else record whole { limit = if leb max_len s.skb.len then max_len else min_ℕ s.skb.len window }

-- With a subflow.
unfoldable pub segment_for : Kernel → Around → DefSub → RrSkb → ℤ → DefState → DefResult
unfolding mptcp_rcv_buf_optimization limit_segment
segment_for k env e s reinject st =
    let (st', r) = mptcp_rcv_buf_optimization k env e true st in
    let fresh : Bool = elim reinject [ pos n ↦ n == 0 | negsuc n ↦ false ] in
    if fresh && not (env.snd_wnd_test s e.current_mss)
    then elim r [
      | none ↦ record {
        state = st';
        segment = none;
        subsk = some e;
        limit = 0;
        reinject = reinject;
      }
      | some h ↦ limit_segment env e h (negsuc 0) st'
    ]
    else limit_segment env e s reinject st

-- A call that found no segment or no subflow.
abbrev pub nothing_sent : ℤ → DefState → DefResult
nothing_sent reinject st = record {
  state = st;
  segment = none;
  subsk = none;
  limit = 0;
  reinject = reinject;
}

unfoldable pub send_to : Kernel → Around → ℤ → DefState → Option DefSub → Option RrSkb → DefResult
unfolding segment_for
send_to k env reinject st none skb = nothing_sent reinject st
send_to k env reinject st (some e) none = nothing_sent reinject st
send_to k env reinject st (some e) (some s) = segment_for k env e s reinject st

-- From the segment on.
unfoldable pub send_segment : Kernel → Around → DefState → Option RrSkb → ℤ → DefResult
unfolding get_available_subflow send_to
send_segment k env st none reinject = nothing_sent reinject st
send_segment k env st (some s) reinject =
    let (sub, skb) = get_available_subflow k st.socks st.conn (some s) false in
    send_to k env reinject (record st { conn = put_back reinject skb st.conn }) sub skb

unfoldable pub mptcp_next_segment : Kernel → Around → DefState → DefResult
unfolding peek_next_segment send_segment
mptcp_next_segment k env st =
    let (st', skb, reinject) = peek_next_segment k env st in send_segment k env st' skb reinject
