-- ===== src/Default/Choice.antt =====
-- `get_subflow_from_selectors`: the available subflow with the least round trip time, of those that
-- did not send the segment if there is one.
use redundant_mptcp_r_mptcp.Prelude.{
  ℕ, ◌-◌, ◌^◌, ◌<◌, ◌≡◌, refl, ◌∙◌, ap, Bool, true, false, not, ◌&&◌, ◌||◌, Bool-cases, inl, inr,
  Option, none, some, List, [], ◌∷◌, ltb, arith, if◌then◌else◌,
}
use redundant_mptcp_r_mptcp.Register.{Socks, Kernel}
use redundant_mptcp_r_mptcp.RoundRobin.Subflow.{RrSkb, skb_of}
use redundant_mptcp_r_mptcp.Default.Subflow.{
  DefSub, Search, search_start, take_best, look_at, look_at_each, is_some,
  get_subflow_from_selectors, mptcp_is_def_unavailable, mptcp_is_temp_unavailable,
  mptcp_is_available, mptcp_dont_reinject_skb,
}

-- The first of the subflows with the least round trip time among those that pass a test.
abbrev pub better : (rtt : DefSub → ℕ) → Option DefSub → DefSub → Option DefSub
better rtt none e = some e
better rtt (some b) e = if ltb (rtt e) (rtt b) then some e else some b

abbrev pub lowest :
    (rtt : DefSub → ℕ) → (DefSub → Bool) → Option DefSub → List DefSub → Option DefSub
lowest rtt test b [] = b
lowest rtt test b (e ∷ es) = lowest rtt test (if test e then better rtt b e else b) es

abbrev pub any : (DefSub → Bool) → List DefSub → Bool
any test [] = false
any test (e ∷ es) = test e || any test es

abbrev pub rtt_of : Socks → DefSub → ℕ
rtt_of socks e = (socks e.sk).srtt_us

-- A fresh subflow, else a used one, else NULL; and `force`.
abbrev pub chosen : (f u : Option DefSub) (waiting : Bool) → Option DefSub × Bool
chosen (some e) u w = (some e, true)
chosen none (some e) w = (some e, false)
chosen none none w = (none, w)

if_same : {A : Type 0} (b : Bool) (a : A) → (if b then a else a) ≡ a
if_same true a = refl
if_same false a = refl

or_false : (a : Bool) → (a || false) ≡ a
or_false true = refl
or_false false = refl

or_swap : (a b c : Bool) → (b || (a || c)) ≡ ((a || b) || c)
or_swap true true c = refl
or_swap true false c = refl
or_swap false b c = refl

-- The subflows for a segment that may send it at once, and those that may later.
module _ (k : Kernel) (socks : Socks) (zero_wnd_test : Bool) (skb : Option RrSkb)
    (selector : DefSub → Bool) where
  abbrev pub is_ready : DefSub → Bool
  is_ready e = selector e && mptcp_is_available k socks e (skb_of skb) zero_wnd_test

  abbrev pub is_fresh : DefSub → Bool
  is_fresh e = is_ready e && not (mptcp_dont_reinject_skb e skb)

  abbrev pub is_used : DefSub → Bool
  is_used e = is_ready e && mptcp_dont_reinject_skb e skb

  abbrev pub is_waiting : DefSub → Bool
  is_waiting e =
      selector e
      && not (mptcp_dont_reinject_skb e skb)
      && not (mptcp_is_def_unavailable (socks e.sk))
      && mptcp_is_temp_unavailable k socks e (skb_of skb) zero_wnd_test

  abbrev pub best : List DefSub → Option DefSub × Bool
  best es =
      let f = lowest (rtt_of socks) is_fresh none es in
      let u = lowest (rtt_of socks) is_used none es in chosen f u (any is_waiting es)

  -- The variables of the loop, from the best fresh subflow, the best used one and whether one waits.
  state : Option DefSub → Option DefSub → Bool → Search
  state (some f) u w = record {
    bestsk = some f;
    min_srtt = rtt_of socks f;
    found_unused = true;
    found_unused_una = w;
  }
  state none (some u) w = record {
    bestsk = some u;
    min_srtt = rtt_of socks u;
    found_unused = false;
    found_unused_una = w;
  }
  state none none w = record search_start { found_unused_una = w }

  state-waiting :
      (f u : Option DefSub) (w : Bool)
      → record (state f u w) { found_unused_una = true } ≡ state f u true
  unfolding state
  state-waiting (some f) u w = refl
  state-waiting none (some u) w = refl
  state-waiting none none w = refl

  take_best-fresh :
      (e : DefSub) (f u : Option DefSub) (w : Bool)
      → rtt_of socks e < 2 ^ 32 - 1
      → take_best socks true e (state f u w) ≡ state (better (rtt_of socks) f e) u w
  unfolding take_best state
  take_best-fresh e (some f) u w h = elim (Bool-cases (ltb (rtt_of socks e) (rtt_of socks f))) [
    | inl less ↦ rw less refl
    | inr more ↦ rw more refl
  ]
  take_best-fresh e none (some u) w h =
      let less : ltb (rtt_of socks e) (2 ^ 32 - 1) ≡ true = ground (arith, h) in rw less refl
  take_best-fresh e none none w h =
      let less : ltb (rtt_of socks e) (2 ^ 32 - 1) ≡ true = ground (arith, h) in rw less refl

  take_best-used :
      (e : DefSub) (f u : Option DefSub) (w : Bool)
      → rtt_of socks e < 2 ^ 32 - 1
      → (let st = state f u w in if st.found_unused then st else take_best socks false e st)
        ≡ state f (better (rtt_of socks) u e) w
  unfolding take_best state
  take_best-used e (some f) u w h = refl
  take_best-used e none (some u) w h = elim (Bool-cases (ltb (rtt_of socks e) (rtt_of socks u))) [
    | inl less ↦ rw less refl
    | inr more ↦ rw more refl
  ]
  take_best-used e none none w h =
      let less : ltb (rtt_of socks e) (2 ^ 32 - 1) ≡ true = ground (arith, h) in rw less refl

  -- The body of the loop.
  look_at-state :
      (e : DefSub) (f u : Option DefSub) (w : Bool)
      → rtt_of socks e < 2 ^ 32 - 1
      → look_at k socks zero_wnd_test skb selector e (state f u w)
        ≡ state
            (if is_fresh e then better (rtt_of socks) f e else f)
            (if is_used e then better (rtt_of socks) u e else u)
            (is_waiting e || w)
  unfolding look_at mptcp_is_available
  look_at-state e f u w h = elim (Bool-cases (selector e)) [
    | inr unwanted ↦ rw unwanted refl
    | inl wanted ↦ elim (Bool-cases (mptcp_dont_reinject_skb e skb)) [
      | inl used ↦ elim (Bool-cases (mptcp_is_def_unavailable (socks e.sk))) [
        | inl def ↦ rw (wanted, used, def) (if_same (state f u w).found_unused (state f u w))
        | inr live ↦
            elim (Bool-cases (mptcp_is_temp_unavailable k socks e (skb_of skb) zero_wnd_test)) [
              | inl temp ↦
                  rw (wanted, used, live, temp) (if_same (state f u w).found_unused (state f u w))
              | inr free ↦ rw (wanted, used, live, free) (take_best-used e f u w h)
            ]
      ]
      | inr fresh ↦ elim (Bool-cases (mptcp_is_def_unavailable (socks e.sk))) [
        | inl def ↦ rw (wanted, fresh, def) refl
        | inr live ↦
            elim (Bool-cases (mptcp_is_temp_unavailable k socks e (skb_of skb) zero_wnd_test)) [
              | inl temp ↦ rw (wanted, fresh, live, temp) (state-waiting f u w)
              | inr free ↦ rw (wanted, fresh, live, free) (take_best-fresh e f u w h)
            ]
      ]
    ]
  ]

  look_at_each-state :
      (es : List DefSub) (f u : Option DefSub) (w : Bool)
      → ((sk : ℕ) → (socks sk).srtt_us < 2 ^ 32 - 1)
      → look_at_each k socks zero_wnd_test skb selector es (state f u w)
        ≡ state
            (lowest (rtt_of socks) is_fresh f es)
            (lowest (rtt_of socks) is_used u es)
            (any is_waiting es || w)
  unfolding look_at_each
  look_at_each-state [] f u w h = refl
  look_at_each-state (e ∷ es) f u w h =
      let f' = if is_fresh e then better (rtt_of socks) f e else f in
      let u' = if is_used e then better (rtt_of socks) u e else u in
      let rest = any is_waiting es in
      ap (look_at_each k socks zero_wnd_test skb selector es) (look_at-state e f u w (h e.sk))
      ∙ look_at_each-state es f' u' (is_waiting e || w) h
      ∙ ap (state (lowest (rtt_of socks) is_fresh f' es) (lowest (rtt_of socks) is_used u' es))
          (or_swap (is_waiting e) rest w)

  state-chosen :
      (f u : Option DefSub) (w : Bool)
      → (let st = state f u w in
          (st.bestsk, if is_some st.bestsk then st.found_unused else st.found_unused_una))
        ≡ chosen f u w
  unfolding state
  state-chosen (some f) u w = refl
  state-chosen none (some u) w = refl
  state-chosen none none w = refl

  -- If every round trip time is below 2 ^ 32 - 1, the search gives the first of the subflows with the
  -- least one among the ready ones that did not send the segment, and `force`; if there is none, the
  -- first with the least one among the ready ones that did send it, without `force`; and if there is
  -- none either, NULL, and `force` tells whether one that did not send it has to wait.
  pub get_subflow_from_selectors-best :
      (es : List DefSub)
      → ((sk : ℕ) → (socks sk).srtt_us < 2 ^ 32 - 1)
      → get_subflow_from_selectors k socks es skb selector zero_wnd_test ≡ best es
  unfolding get_subflow_from_selectors state
  get_subflow_from_selectors-best es h =
      let f = lowest (rtt_of socks) is_fresh none es in
      let u = lowest (rtt_of socks) is_used none es in
      ap (λ st. (st.bestsk, if is_some st.bestsk then st.found_unused else st.found_unused_una))
        (look_at_each-state es none none false h)
      ∙ state-chosen f u (any is_waiting es || false)
      ∙ ap (chosen f u) (or_false (any is_waiting es))
