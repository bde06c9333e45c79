-- ===== src/Default/Next.antt =====
-- What `mptcp_next_segment` of mptcp_sched.c returns.
use redundant_mptcp_r_mptcp.Prelude.{
  ℕ, ◌*◌, ◌≤◌, ◌≡◌, refl, ◌∙◌, ap, sym, Bool, true, false, not, ◌&&◌, Bool-cases, Option-cases, inl,
  inr, Option, none, some, List, leb, ◌==◌, ltb_ℤ, ℤ, pos, negsuc, u32, sub32, length, arith,
  if◌then◌else◌,
}
use mathlib.Core.Path.{subst}
use redundant_mptcp_r_mptcp.Register.{Socks, Kernel}
use redundant_mptcp_r_mptcp.RoundRobin.Subflow.{RrSkb, skb_of, clear_mask, has_data_fin}
use redundant_mptcp_r_mptcp.Default.Subflow.{
  DefSub, DefMeta, min_ℕ, mptcp_is_available, find_subflow, active_or_backup, subflow_is_active,
  subflow_is_backup, get_available_subflow, get_subflow_from_selectors,
}
use redundant_mptcp_r_mptcp.Default.Segment.{
  Around, DefState, DefResult, mptcp_rcv_buf_optimization, optimise, peek_next_segment, put_back,
  limit_segment, segment_for, nothing_sent, send_to, send_segment, mptcp_next_segment,
}
use redundant_mptcp_r_mptcp.Default.Optimise.{
  List-cases, Optimised, mptcp_rcv_buf_optimization-Optimised,
}
use redundant_mptcp_r_mptcp.Default.Available.{Timed, get_available_subflow_ready}

-- A segment that is returned has a subflow that can take it now, and the limit is within it.
pub record Sendable (k : Kernel) (r : DefResult) : Type 0 where
  pub ready :
      (s : RrSkb)
      → r.segment ≡ some s
      → (e : DefSub) × (r.subsk ≡ some e)
        × (mptcp_is_available k r.state.socks e (some s.skb) false ≡ true)
  pub within : (s : RrSkb) → r.segment ≡ some s → r.limit ≤ s.skb.len

-- No segment.
Sendable-none : (k : Kernel) (r : DefResult) → r.segment ≡ none → Sendable k r
Sendable-none k r h = record { ready = λ s eq. absurd (cc); within = λ s eq. absurd (cc) }

limit-bound :
    (len max_len window : ℕ) → (if leb max_len len then max_len else min_ℕ len window) ≤ len
limit-bound len max_len window = ground arith

same-ready :
    (k : Kernel) (socks : Socks) (e : DefSub) (s t : RrSkb)
    → mptcp_is_available k socks e (some s.skb) false ≡ true
    → some s ≡ some t
    → (x : DefSub) × (some e ≡ some x) × (mptcp_is_available k socks x (some t.skb) false ≡ true)
same-ready k socks e s t h eq =
    let same : s ≡ t = cc in
    (e, refl, ap (λ (x : RrSkb). mptcp_is_available k socks e (some x.skb) false) (sym same) ∙ h)

limit_segment-Sendable :
    (k : Kernel) (env : Around) (e : DefSub) (s : RrSkb) (reinject : ℤ) (st : DefState)
    → mptcp_is_available k st.socks e (some s.skb) false ≡ true
    → Sendable k (limit_segment env e s reinject st)
unfolding limit_segment
limit_segment-Sendable k env e s reinject st h =
    let gso = if e.gso_max_segs == 0 then 1 else e.gso_max_segs in
    let max_segs = min_ℕ (env.cwnd_test (st.socks e.sk) s) gso in
    let max_len = u32 (e.current_mss * max_segs) in
    let window = sub32 (st.socks e.sk).wnd_end (st.socks e.sk).write_seq in
    elim (Bool-cases (leb s.skb.len e.current_mss)) [
      | inl small ↦ rw small (record {
        ready = λ t eq. same-ready k st.socks e s t h eq;
        within = λ t eq. omega arith;
      })
      | inr large ↦ elim (Bool-cases (max_segs == 0)) [
        | inl closed ↦ rw (large, closed) (Sendable-none k _ refl)
        | inr free ↦
            let bound = limit-bound s.skb.len max_len window in
            rw (large, free)
              (record {
                ready = λ t eq. same-ready k st.socks e s t h eq;
                within = λ t eq. (let same : s ≡ t = cc in rw (← same) bound);
              })
      ]
    ]

segment_for-Sendable :
    (k : Kernel) (env : Around) (e : DefSub) (s : RrSkb) (reinject : ℤ) (st : DefState)
    → mptcp_is_available k st.socks e (some s.skb) false ≡ true
    → Sendable k (segment_for k env e s reinject st)
unfolding segment_for
segment_for-Sendable k env e s reinject st h =
    let (st', r) = mptcp_rcv_buf_optimization k env e true st in
    let opt = mptcp_rcv_buf_optimization-Optimised k env e true st in
    let fresh : Bool = elim reinject [ pos n ↦ n == 0 | negsuc n ↦ false ] in
    let failed : DefResult = record {
      state = st';
      segment = none;
      subsk = some e;
      limit = 0;
      reinject = reinject;
    } in
    elim (Bool-cases (fresh && not (env.snd_wnd_test s e.current_mss))) [
      | inr whole ↦ rw whole (limit_segment-Sendable k env e s reinject st h)
      | inl closed ↦ elim (Option-cases r) [
        | inl null ↦ rw (closed, null) (Sendable-none k failed refl)
        | inr (x, eq) ↦
            let (at_head, new, on) = opt.retransmits x eq in
            rw (closed, eq) (limit_segment-Sendable k env e x (negsuc 0) st' on)
      ]
    ]

-- A call does not change which segment it is, only its mask.
clear_mask-skb : (skb : Option RrSkb) → skb_of (clear_mask skb) ≡ skb_of skb
clear_mask-skb none = refl
clear_mask-skb (some s) = refl

active_or_backup-skb :
    (k : Kernel) (socks : Socks) (es : List DefSub) (skb : Option RrSkb)
    → skb_of (active_or_backup k socks es skb false).1 ≡ skb_of skb
unfolding active_or_backup
active_or_backup-skb k socks es skb =
    let active = get_subflow_from_selectors k socks es skb subflow_is_active false in
    let backup = get_subflow_from_selectors k socks es skb subflow_is_backup false in
    elim (Bool-cases active.1) [
      | inl force ↦ rw force refl
      | inr weak ↦ elim (Bool-cases backup.1) [
        | inl force ↦ rw (weak, force) refl
        | inr weak' ↦ rw (weak, weak') (clear_mask-skb skb)
      ]
    ]

get_available_subflow-skb :
    (k : Kernel) (socks : Socks) (m : DefMeta) (skb : Option RrSkb)
    → skb_of (get_available_subflow k socks m skb false).1 ≡ skb_of skb
unfolding get_available_subflow
get_available_subflow-skb k socks m skb =
    let avail = λ (x : DefSub). mptcp_is_available k socks x (skb_of skb) false in
    let answers = λ (x : DefSub). (x.path_index == m.dfin_path_index) && avail x in
    let same = active_or_backup-skb k socks m.subflows skb in
    elim (Bool-cases (length m.subflows == 1)) [
      | inl single ↦ rw single refl
      | inr several ↦ elim (Bool-cases (m.rcv_shutdown && has_data_fin skb)) [
        | inr other ↦ rw (several, other) same
        | inl fin ↦ elim (Option-cases (find_subflow answers m.subflows)) [
          | inl none_of ↦ rw (several, fin, none_of) same
          | inr (x, eq) ↦ rw (several, fin, eq) refl
        ]
      ]
    ]

Optimised-Timed :
    {k : Kernel} {env : Around} {e : DefSub} {st st' : DefState} {r : Option RrSkb}
    → Optimised k env e st st' r
    → Timed st.socks
    → Timed st'.socks
Optimised-Timed opt timed sk = elim (opt.window sk) [
  | inl same ↦ rw same (timed sk)
  | inr (other, h) ↦ rw h.same (timed sk)
]

optimise-Timed :
    (k : Kernel) (env : Around) (e : Option DefSub) (st : DefState)
    → Timed st.socks
    → Timed (optimise k env e st).0.socks
unfolding optimise
optimise-Timed k env none st timed = timed
optimise-Timed k env (some e) st timed =
    Optimised-Timed (mptcp_rcv_buf_optimization-Optimised k env e false st) timed

peek_next_segment-Timed :
    (k : Kernel) (env : Around) (st : DefState)
    → Timed st.socks
    → Timed (peek_next_segment k env st).0.socks
unfolding peek_next_segment
peek_next_segment-Timed k env st timed =
    let full = env.sk_socket && env.nospace && ltb_ℤ env.stream_wspace env.stream_min_wspace in
    let free = (get_available_subflow k st.socks st.conn none false).0 in
    elim (Bool-cases st.conn.infinite_mapping) [
      | inl one ↦ rw one timed
      | inr many ↦ elim (List-cases st.conn.reinject_queue) [
        | inr (s, q, eq) ↦ rw (many, eq) timed
        | inl none_in ↦ elim (List-cases st.conn.unsent) [
          | inr (s, q, eq) ↦ rw (many, none_in, eq) timed
          | inl all_sent ↦ elim (Bool-cases full) [
            | inl on ↦
                let same : peek_next_segment k env st ≡ optimise k env free st =
                  simp (many, none_in, all_sent, on) refl in
                subst (λ (x : DefState × Option RrSkb × ℤ). Timed x.0.socks) (sym same)
                  (optimise-Timed k env free st timed)
            | inr off ↦ rw (many, none_in, all_sent, off) timed
          ]
        ]
      ]
    ]

send_to-Sendable :
    (k : Kernel) (env : Around) (reinject : ℤ) (st : DefState) (sub : Option DefSub)
    (skb : Option RrSkb)
    → ((e : DefSub) → sub ≡ some e → mptcp_is_available k st.socks e (skb_of skb) false ≡ true)
    → Sendable k (send_to k env reinject st sub skb)
unfolding send_to
send_to-Sendable k env reinject st none skb h = Sendable-none k (nothing_sent reinject st) refl
send_to-Sendable k env reinject st (some e) none h = Sendable-none k (nothing_sent reinject st) refl
send_to-Sendable k env reinject st (some e) (some s) h =
    segment_for-Sendable k env e s reinject st (h e refl)

send_segment-Sendable :
    (k : Kernel) (env : Around) (st : DefState) (skb : Option RrSkb) (reinject : ℤ)
    → Timed st.socks
    → Sendable k (send_segment k env st skb reinject)
unfolding send_segment
send_segment-Sendable k env st none reinject timed = Sendable-none k (nothing_sent reinject st) refl
send_segment-Sendable k env st (some s) reinject timed =
    let r = get_available_subflow k st.socks st.conn (some s) false in
    let same = get_available_subflow-skb k st.socks st.conn (some s) in
    send_to-Sendable k env reinject (record st { conn = put_back reinject r.1 st.conn }) r.0 r.1
      (λ e h.
        let (there, free) =
          get_available_subflow_ready k st.socks false (some s) st.conn e timed h in
        ap (λ x. mptcp_is_available k st.socks e x false) same ∙ free)

-- If every round trip time is below 2 ^ 32 - 1, a segment that `mptcp_next_segment` returns has a
-- subflow, which can take that segment now, and the limit is at most its length.
pub mptcp_next_segment-Sendable :
    (k : Kernel) (env : Around) (st : DefState)
    → Timed st.socks
    → Sendable k (mptcp_next_segment k env st)
unfolding mptcp_next_segment
mptcp_next_segment-Sendable k env st timed =
    let (st', skb, reinject) = peek_next_segment k env st in
    send_segment-Sendable k env st' skb reinject (peek_next_segment-Timed k env st timed)
