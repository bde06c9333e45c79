-- ===== src/RoundRobin/Segment.antt =====
-- `mptcp_rr_next_segment` of mptcp_rr.c. The `goto retry` runs on rounds, and `none` is that they
-- are used up.
use redundant_mptcp_r_mptcp.Prelude.{
  ℕ, zero, suc, ◌+◌, ◌-◌, ◌*◌, ◌/◌, ◌%◌, ◌^◌, Bool, true, false, not, ◌&&◌, Option, none, some,
  ◌>>=◌, List, [], ◌∷◌, map, ltb, leb, ◌==◌, u32, get_or, modify, if◌then◌else◌,
}
use redundant_mptcp_r_mptcp.Register.{Socks, Kernel}
use redundant_mptcp_r_mptcp.RoundRobin.Subflow.{
  RrSub, RrSkb, RrMeta, mptcp_rr_is_available, rr_get_available_subflow,
}

-- An `unsigned char`.
abbrev pub u8 : ℕ → ℕ
u8 n = n % 2 ^ 8

-- The segment and `reinject`.
unfoldable pub rr_next_segment_from : RrMeta → Option RrSkb × ℕ
rr_next_segment_from m =
    if m.infinite_mapping
    then (m.send_head, 0)
    else elim m.reinject_queue [ s ∷ rest ↦ (some s, 1) | [] ↦ (m.send_head, 0) ]

-- The variables of the search: the index of `choose_sk`, `split`, `iter`, `full_subs`, and whether
-- the code went to `found`.
pub record RrScan : Type 0 where
  pub choose : Option ℕ
  pub split : ℕ
  pub iter : ℕ
  pub full_subs : ℕ
  pub found : Bool

-- A subflow that is not in use: it is the choice if it is totally unused, and counts if it is full.
unfoldable pub consider : (num_segments i : ℕ) → RrSub → RrScan → RrScan
consider num i e s = record s {
  choose = if e.quota == 0 then some i else s.choose;
  split = if e.quota == 0 then num else s.split;
  iter = u8 (s.iter + 1);
  full_subs = if leb num e.quota then u8 (s.full_subs + 1) else s.full_subs;
}

-- The loop over the subflows, from index `i` on; `avail` is the test with `cwnd_limited`.
unfoldable pub scan : (avail : RrSub → Bool) → (num_segments i : ℕ) → RrScan → List RrSub → RrScan
unfolding consider
scan avail num i s [] = s
scan avail num i s (e ∷ es) =
    let used : RrScan = record s {
      choose = some i;
      split = num - e.quota;
      iter = u8 (s.iter + 1);
      found = true;
    } in
    let skip = scan avail num (suc i) s es in
    let next = scan avail num (suc i) (consider num i e s) es in
    if not (avail e) then skip else if ltb 0 e.quota && ltb e.quota num then used else next

-- The round starts again with the available subflows unused.
abbrev pub restart : (avail : RrSub → Bool) → List RrSub → List RrSub
restart avail = map (λ e. if avail e then record e { quota = 0 } else e)

-- The search with its retries, which keep the variables.
unfoldable pub rounds :
    (avail : RrSub → Bool)
    → (num_segments fuel : ℕ) → RrScan
    → List RrSub
    → Option (List RrSub × RrScan)
unfolding scan
rounds avail num zero s es = none
rounds avail num (suc fuel) s es =
    let s' = scan avail num 0 s es in
    let again = rounds avail num fuel s' (restart avail es) in
    if not s'.found && not (s'.iter == 0) && (s'.iter == s'.full_subs) then again else some (es, s')

abbrev pub start : (num_segments : ℕ) → RrScan
start num = record { choose = none; split = num; iter = 0; full_subs = 0; found = false }

-- What `mptcp_rr_next_segment` leaves: the connection, the segment it returns, the socket and the
-- limit that it writes, and `reinject`.
pub record RrResult : Type 0 where
  pub state : RrMeta
  pub segment : Option RrSkb
  pub subsk : Option ℕ
  pub limit : ℕ
  pub reinject : ℕ

abbrev pub empty_sub : RrSub
empty_sub = record { sk = 0; path_index = 0; quota = 0 }

-- The charge of a segment, `DIV_ROUND_UP(skb->len, mss_now)` or 1.
unfoldable pub charge : (len mss : ℕ) → ℕ
charge len mss = if ltb mss len then (len + (mss - 1)) / mss else 1

-- The label `found`, with a subflow at index `i`; `current_mss` is `tcp_current_mss`.
unfoldable pub send_on :
    Kernel → Socks → (current_mss : ℕ → ℕ) → RrSkb → (i split : ℕ) → RrMeta → RrResult
unfolding mptcp_rr_is_available charge
send_on k socks current_mss s i split m =
    let e = get_or m.subflows i empty_sub in
    let mss = current_mss e.sk in
    let pay = λ (x : RrSub). record x { quota = u8 (x.quota + charge s.skb.len mss) } in
    if not (mptcp_rr_is_available k (socks e.sk) (some s.skb) false true)
    then record { state = m; segment = none; subsk = none; limit = 0; reinject = 0 }
    else record {
      state = record m { subflows = modify pay i m.subflows };
      segment = some s;
      subsk = some e.sk;
      limit = u32 (split * mss);
      reinject = 0;
    }

-- The head of the reinject queue is the segment itself, so a cleared mask is seen there too.
put_head : Option RrSkb → List RrSkb → List RrSkb
put_head none q = q
put_head (some s) [] = []
put_head (some s) (x ∷ q) = s ∷ q

unfoldable pub reinject_segment : Kernel → Socks → RrSkb → RrMeta → RrResult
unfolding rr_get_available_subflow put_head
reinject_segment k socks s m =
    let (sk, s') = rr_get_available_subflow k socks m (some s) false in
    let m' = record m { reinject_queue = put_head s' m.reinject_queue } in
    elim sk [
      | none ↦ record { state = m'; segment = none; subsk = none; limit = 0; reinject = 1 }
      | some x ↦ record { state = m'; segment = s'; subsk = some x; limit = 0; reinject = 1 }
    ]

-- What follows the search.
unfoldable pub choose_segment :
    Kernel → Socks → (current_mss : ℕ → ℕ) → RrSkb → RrMeta → List RrSub × RrScan → RrResult
unfolding send_on
choose_segment k socks current_mss s m (es, t) =
    let m' = record m { subflows = es } in
    elim t.choose [
      | none ↦ record { state = m'; segment = none; subsk = none; limit = 0; reinject = 0 }
      | some i ↦ send_on k socks current_mss s i t.split m'
    ]

unfoldable pub mptcp_rr_next_segment :
    Kernel
    → Socks
    → (current_mss : ℕ → ℕ) → (num_segments : ℕ) → (cwnd_limited : Bool) → (fuel : ℕ) → RrMeta
    → Option RrResult
unfolding rr_next_segment_from rounds reinject_segment choose_segment mptcp_rr_is_available
mptcp_rr_next_segment k socks current_mss num cwnd_limited fuel m =
    let (skb, r) = rr_next_segment_from m in
    elim skb [
      | none ↦ some (record { state = m; segment = none; subsk = none; limit = 0; reinject = r })
      | some s ↦
          let avail =
            λ (e : RrSub). mptcp_rr_is_available k (socks e.sk) (some s.skb) false cwnd_limited in
          let search = rounds avail num fuel (start num) m.subflows >>= λ p.
          some (choose_segment k socks current_mss s m p) in
          if r == 0 then search else some (reinject_segment k socks s m)
    ]
