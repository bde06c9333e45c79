-- ===== src/Redundant/Segment.antt =====
-- The functions of mptcp_redundant.c. A pointer to a segment or a subflow is its number, and NULL is
-- `none`.
use redundant_mptcp_r_mptcp.Prelude.{
  ℕ, Bool, true, false, not, ◌&&◌, ◌||◌, Option, none, some, List, [], ◌∷◌, ◌++◌, map, ◌==◌,
  if◌then◌else◌,
}
use redundant_mptcp_r_mptcp.Register.{Skb, Socks, Kernel}
use redundant_mptcp_r_mptcp.RoundRobin.Subflow.{RrSkb}
use redundant_mptcp_r_mptcp.Default.Subflow.{
  DefSub, DefMeta, mptcp_is_def_unavailable, mptcp_is_available, subflow_is_backup,
  subflow_is_active, get_available_subflow,
}

-- A segment of a queue with the end of its data.
pub record RedSkb : Type 0 where
  pub id : ℕ
  pub end_seq : ℕ
  pub skb : RrSkb

-- A subflow with its `redsched_sock_data`.
pub record RedSub : Type 0 where
  pub sub : DefSub
  pub skb : Option ℕ
  pub skb_end_seq : ℕ

-- The connection with its `redsched_cb_data`.
pub record RedMeta : Type 0 where
  pub rcv_shutdown : Bool
  pub dfin_path_index : ℕ
  pub snd_una : ℕ
  pub subflows : List RedSub
  pub next_subflow : Option ℕ
  pub reinject_queue : List RedSkb
  pub write_queue : List RedSkb

-- The `bool` that is returned tells whether the count is not 0.
unfoldable pub redsched_get_active_valid_sks : Socks → List RedSub → Bool
unfolding subflow_is_active mptcp_is_def_unavailable
redsched_get_active_valid_sks socks [] = false
redsched_get_active_valid_sks socks (e ∷ es) =
    (subflow_is_active e.sub && not (mptcp_is_def_unavailable (socks e.sub.sk)))
    || redsched_get_active_valid_sks socks es

unfoldable pub redsched_use_subflow :
    Kernel → Socks → (active_valid_sks : Bool) → RedSub → RedSkb → Bool
unfolding mptcp_is_available subflow_is_active subflow_is_backup
redsched_use_subflow k socks active_valid_sks e s =
    if not (mptcp_is_available k socks e.sub (some s.skb.skb) false)
    then false
    else if not (s.skb.path_mask == 0)
    then subflow_is_active e.sub
    else not (subflow_is_backup e.sub && active_valid_sks)

-- A pointer to a segment that was acknowledged as a whole is dropped.
unfoldable pub redsched_correct_skb_pointers : Kernel → (snd_una : ℕ) → RedSub → RedSub
redsched_correct_skb_pointers k snd_una e = record e {
  skb = if k.seq_before snd_una e.skb_end_seq then e.skb else none;
}

-- The segment behind a given one.
unfoldable pub skb_after : (previous : ℕ) → List RedSkb → Option RedSkb
skb_after previous [] = none
skb_after previous (s ∷ []) = none
skb_after previous (s ∷ t ∷ queue) =
    if s.id == previous then some t else skb_after previous (t ∷ queue)

unfoldable pub redundant_next_skb_from_queue : List RedSkb → (previous : Option ℕ) → Option RedSkb
unfolding skb_after
redundant_next_skb_from_queue [] previous = none
redundant_next_skb_from_queue (s ∷ queue) none = some s
redundant_next_skb_from_queue (s ∷ queue) (some id) = skb_after id (s ∷ queue)

-- The subflows before `next_subflow`, and those from there on, where the loop starts.
unfoldable pub split_at : (next_subflow : Option ℕ) → List RedSub → List RedSub × List RedSub
split_at none es = ([], es)
split_at (some sk) [] = ([], [])
split_at (some sk) (e ∷ es) =
    let (before, after) = split_at (some sk) es in
    if e.sub.sk == sk then ([], e ∷ es) else (e ∷ before, after)

-- `tp->mptcp->next`
unfoldable pub next_of : (sk : ℕ) → List RedSub → Option ℕ
next_of sk [] = none
next_of sk (e ∷ []) = none
next_of sk (e ∷ f ∷ es) = if e.sub.sk == sk then some f.sub.sk else next_of sk (f ∷ es)

-- One round of the loop of `redundant_next_segment`: the subflow with its pointer corrected, and the
-- segment that it is to send.
unfoldable pub offer :
    Kernel → Socks → (active_valid_sks : Bool) → RedMeta → RedSub → RedSub × Option RedSkb
unfolding redsched_correct_skb_pointers redundant_next_skb_from_queue redsched_use_subflow
offer k socks active_valid_sks m e =
    let e' = redsched_correct_skb_pointers k m.snd_una e in
    elim (redundant_next_skb_from_queue m.write_queue e'.skb) [
      | none ↦ (e', none)
      | some s ↦
          if redsched_use_subflow k socks active_valid_sks e s
          then (record e' { skb = some s.id; skb_end_seq = s.end_seq }, some s)
          else (e', none)
    ]

-- A segment ends the loop; else the other subflows follow.
abbrev pub add_offer :
    RedSub × Option RedSkb
    → List RedSub
    → List RedSub × Option (RedSub × RedSkb)
    → List RedSub × Option (RedSub × RedSkb)
add_offer (e, some s) es rest = (e ∷ es, some (e, s))
add_offer (e, none) es rest = (e ∷ rest.0, rest.1)

-- The loop over some subflows, as they are afterwards, and the one that sends with its segment.
unfoldable pub offer_each :
    Kernel
    → Socks
    → (active_valid_sks : Bool) → RedMeta
    → List RedSub
    → List RedSub × Option (RedSub × RedSkb)
unfolding offer
offer_each k socks active m [] = ([], none)
offer_each k socks active m (e ∷ es) =
    add_offer (offer k socks active m e) es (offer_each k socks active m es)

-- The segment, the subflow and `reinject`.
pub record RedResult : Type 0 where
  pub state : RedMeta
  pub segment : Option RedSkb
  pub subsk : Option DefSub
  pub reinject : Bool

abbrev pub default_view : RedMeta → DefMeta
default_view m = record {
  rcv_shutdown = m.rcv_shutdown;
  dfin_path_index = m.dfin_path_index;
  infinite_mapping = false;
  subflows = map (λ (e : RedSub). e.sub) m.subflows;
  reinject_queue = [];
  sent = [];
  unsent = [];
}

abbrev pub take_segment : RedMeta → List RedSub → RedSub → RedSkb → RedResult
take_segment m es e s = record {
  state = record m { subflows = es; next_subflow = next_of e.sub.sk m.subflows };
  segment = some s;
  subsk = some e.sub;
  reinject = false;
}

-- What the two parts of the loop give: from `next_subflow` on, and then from the start of the list.
abbrev pub finish :
    RedMeta
    → (before : List RedSub) → (late early : List RedSub × Option (RedSub × RedSkb)) → RedResult
finish m before (after, some (e, s)) early = take_segment m (before ++ after) e s
finish m before (after, none) (before', some (e, s)) = take_segment m (before' ++ after) e s
finish m before (after, none) (before', none) = record {
  state = record m { subflows = before' ++ after };
  segment = none;
  subsk = none;
  reinject = false;
}

unfoldable pub send_next : Kernel → Socks → RedMeta → RedResult
unfolding redsched_get_active_valid_sks split_at offer_each
send_next k socks m =
    let active = redsched_get_active_valid_sks socks m.subflows in
    let (before, after) = split_at m.next_subflow m.subflows in
    finish m before (offer_each k socks active m after) (offer_each k socks active m before)

-- A reinjection takes the subflow that the default scheduler chooses; the mask of the segment may be
-- cleared.
unfoldable pub send_reinjection : Kernel → Socks → RedSkb → List RedSkb → RedMeta → RedResult
unfolding get_available_subflow
send_reinjection k socks s queue m =
    let (sub, skb) = get_available_subflow k socks (default_view m) (some s.skb) false in
    let s' : RedSkb = elim skb [ none ↦ s | some x ↦ record s { skb = x } ] in
    let m' = record m { reinject_queue = s' ∷ queue } in
    elim sub [
      | none ↦ record { state = m'; segment = none; subsk = none; reinject = false }
      | some e ↦ record { state = m'; segment = some s'; subsk = some e; reinject = true }
    ]

-- With the two queues.
unfoldable pub next_from :
    Kernel → Socks → RedMeta → (reinject_queue write_queue : List RedSkb) → RedResult
unfolding send_reinjection send_next
next_from k socks m (s ∷ queue) write_queue = send_reinjection k socks s queue m
next_from k socks m [] [] = record { state = m; segment = none; subsk = none; reinject = false }
next_from k socks m [] (s ∷ queue) = send_next k socks m

unfoldable pub redundant_next_segment : Kernel → Socks → RedMeta → RedResult
unfolding next_from
redundant_next_segment k socks m = next_from k socks m m.reinject_queue m.write_queue

unfoldable pub find_available :
    Kernel → Socks → Option RedSkb → (zero_wnd_test : Bool) → List RedSub → Option DefSub
unfolding mptcp_is_available
find_available k socks s zero_wnd_test [] = none
find_available k socks s zero_wnd_test (e ∷ es) =
    let skb : Option Skb = elim s [ none ↦ none | some x ↦ some x.skb.skb ] in
    if mptcp_is_available k socks e.sub skb zero_wnd_test
    then some e.sub
    else find_available k socks s zero_wnd_test es

abbrev on_path : ℕ → List RedSub → List RedSub
on_path index [] = []
on_path index (e ∷ es) =
    if e.sub.path_index == index then e ∷ on_path index es else on_path index es

unfoldable pub redundant_get_subflow :
    Kernel → Socks → RedMeta → Option RedSkb → (zero_wnd_test : Bool) → RedMeta × Option DefSub
unfolding find_available split_at next_of
redundant_get_subflow k socks m s zero_wnd_test =
    let fin : Bool = elim s [ none ↦ false | some x ↦ x.skb.data_fin ] in
    let answer : Option DefSub =
      if m.rcv_shutdown && fin
      then find_available k socks s zero_wnd_test (on_path m.dfin_path_index m.subflows)
      else none in
    let (before, after) = split_at m.next_subflow m.subflows in
    elim answer [
      | some e ↦ (m, some e)
      | none ↦ elim (find_available k socks s zero_wnd_test (after ++ before)) [
        | some e ↦ (record m { next_subflow = next_of e.sk m.subflows }, some e)
        | none ↦ (m, none)
      ]
    ]

unfoldable pub redundant_release : (sk : ℕ) → RedMeta → RedMeta
unfolding next_of
redundant_release sk m =
    let is_next = elim m.next_subflow as (λ o. Bool) [ none ↦ false | some n ↦ n == sk ] in
    if is_next then record m { next_subflow = next_of sk m.subflows } else m
