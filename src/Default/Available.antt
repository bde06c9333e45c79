-- ===== src/Default/Available.antt =====
-- What `get_available_subflow` gives.
use redundant_mptcp_r_mptcp.Prelude.{
  ℕ, ◌-◌, ◌^◌, ◌<◌, ◌≡◌, refl, ◌∙◌, ap, sym, Bool, true, false, ◌&&◌, Bool-cases, Option-cases, inl,
  inr, Option, none, some, List, ◌==◌, length, arith, if◌then◌else◌,
}
use mathlib.Core.List.{Memᴰ}
use redundant_mptcp_r_mptcp.Default.Lowest.{IsLowest, lowest-cases, find_subflow-test}
use mathlib.Core.Path.{subst}
use redundant_mptcp_r_mptcp.Register.{Socks, Kernel}
use redundant_mptcp_r_mptcp.RoundRobin.Subflow.{RrSkb, skb_of, clear_mask, has_data_fin}
use redundant_mptcp_r_mptcp.Default.Subflow.{
  DefSub, DefMeta, is_some, get_subflow_from_selectors, mptcp_is_available, subflow_is_active,
  subflow_is_backup, find_subflow, active_or_backup, get_available_subflow,
}
use redundant_mptcp_r_mptcp.Default.Choice.{
  chosen, lowest, any, rtt_of, is_ready, is_fresh, is_used, is_waiting, best,
  get_subflow_from_selectors-best,
}

-- Every round trip time is below the one that the search starts from.
abbrev pub Timed : Socks → Type 0
Timed socks = (sk : ℕ) → (socks sk).srtt_us < 2 ^ 32 - 1

and-right : (a b : Bool) → (a && b) ≡ true → b ≡ true
and-right true b h = h
and-right false b h = absurd (cc)

module _ (k : Kernel) (socks : Socks) (zero_wnd_test : Bool) (skb : Option RrSkb) where
  -- The choice among the subflows that a selector wants, by cases.
  data Chosen (selector : DefSub → Bool) (es : List DefSub) : Option DefSub × Bool → Type 0 where
    fresh :
        (e : DefSub)
        → IsLowest (rtt_of socks) (is_fresh k socks zero_wnd_test skb selector) es e
        → Chosen selector es (some e, true)
    used :
        (e : DefSub)
        → any (is_fresh k socks zero_wnd_test skb selector) es ≡ false
        → IsLowest (rtt_of socks) (is_used k socks zero_wnd_test skb selector) es e
        → Chosen selector es (some e, false)
    nothing :
        any (is_fresh k socks zero_wnd_test skb selector) es ≡ false
        → any (is_used k socks zero_wnd_test skb selector) es ≡ false
        → Chosen selector es (none, any (is_waiting k socks zero_wnd_test skb selector) es)

  best-Chosen :
      (selector : DefSub → Bool) (es : List DefSub)
      → Chosen selector es (best k socks zero_wnd_test skb selector es)
  best-Chosen selector es =
      let rtt = rtt_of socks in
      let fresh_test = is_fresh k socks zero_wnd_test skb selector in
      let used_test = is_used k socks zero_wnd_test skb selector in
      let w = any (is_waiting k socks zero_wnd_test skb selector) es in
      let u = lowest rtt used_test none es in
      elim (lowest-cases rtt fresh_test es) [
        | inr (e, eq, low) ↦ subst (λ f. Chosen selector es (chosen f u w)) (sym eq) (fresh e low)
        | inl (eq, no_fresh) ↦
            subst (λ f. Chosen selector es (chosen f u w)) (sym eq)
              (elim (lowest-cases rtt used_test es) [
                | inr (e, eq', low) ↦
                    subst (λ x. Chosen selector es (chosen none x w)) (sym eq')
                      (used e no_fresh low)
                | inl (eq', no_used) ↦
                    subst (λ x. Chosen selector es (chosen none x w)) (sym eq')
                      (nothing no_fresh no_used)
              ])
      ]

  get_subflow_from_selectors-Chosen :
      (selector : DefSub → Bool) (es : List DefSub)
      → Timed socks
      → Chosen selector es (get_subflow_from_selectors k socks es skb selector zero_wnd_test)
  get_subflow_from_selectors-Chosen selector es timed =
      rw (get_subflow_from_selectors-best k socks zero_wnd_test skb selector es timed)
        (best-Chosen selector es)

  ready_available :
      (selector : DefSub → Bool) (e : DefSub) (b : Bool)
      → (is_ready k socks zero_wnd_test skb selector e && b) ≡ true
      → mptcp_is_available k socks e (skb_of skb) zero_wnd_test ≡ true
  ready_available selector e b h = ground (arith, h)

  -- What is chosen is in the list and available.
  Chosen-is_ready :
      (selector : DefSub → Bool) (es : List DefSub) (r : Option DefSub × Bool) (e : DefSub)
      → Chosen selector es r
      → r.0 ≡ some e
      → Memᴰ e es × (mptcp_is_available k socks e (skb_of skb) zero_wnd_test ≡ true)
  Chosen-is_ready selector es r e (fresh x low) h =
      let same : x ≡ e = cc in rw (← same) (low.there, ready_available selector x _ low.passes)
  Chosen-is_ready selector es r e (used x no_fresh low) h =
      let same : x ≡ e = cc in rw (← same) (low.there, ready_available selector x _ low.passes)
  Chosen-is_ready selector es r e (nothing no_fresh no_used) h = absurd (cc)

  active_or_backup_ready :
      (es : List DefSub) (e : DefSub)
      → Timed socks
      → (active_or_backup k socks es skb zero_wnd_test).0 ≡ some e
      → Memᴰ e es × (mptcp_is_available k socks e (skb_of skb) zero_wnd_test ≡ true)
  unfolding active_or_backup
  active_or_backup_ready es e timed h =
      let active = get_subflow_from_selectors k socks es skb subflow_is_active zero_wnd_test in
      let backup = get_subflow_from_selectors k socks es skb subflow_is_backup zero_wnd_test in
      elim (Bool-cases active.1) [
        | inl force ↦
            Chosen-is_ready subflow_is_active es active e
              (get_subflow_from_selectors-Chosen subflow_is_active es timed) (rw force at h)
        | inr weak ↦ elim (Bool-cases backup.1) [
          | inl force ↦
              Chosen-is_ready subflow_is_backup es backup e
                (get_subflow_from_selectors-Chosen subflow_is_backup es timed)
                (rw (weak, force) at h)
          | inr weak' ↦
              Chosen-is_ready subflow_is_backup es backup e
                (get_subflow_from_selectors-Chosen subflow_is_backup es timed)
                (rw (weak, weak') at h)
        ]
      ]

  -- If every round trip time is below 2 ^ 32 - 1, a subflow that `get_available_subflow` gives is one
  -- of the connection's, and it is available for the segment.
  pub get_available_subflow_ready :
      (m : DefMeta) (e : DefSub)
      → Timed socks
      → (get_available_subflow k socks m skb zero_wnd_test).0 ≡ some e
      → Memᴰ e m.subflows × (mptcp_is_available k socks e (skb_of skb) zero_wnd_test ≡ true)
  unfolding get_available_subflow
  get_available_subflow_ready m e timed h =
      let avail = λ (x : DefSub). mptcp_is_available k socks x (skb_of skb) zero_wnd_test in
      let answers = λ (x : DefSub). (x.path_index == m.dfin_path_index) && avail x in
      elim (Bool-cases (length m.subflows == 1)) [
        | inl single ↦ find_subflow-test avail m.subflows e (rw single at h)
        | inr several ↦ elim (Bool-cases (m.rcv_shutdown && has_data_fin skb)) [
          | inr other ↦ active_or_backup_ready m.subflows e timed (rw (several, other) at h)
          | inl fin ↦ elim (Option-cases (find_subflow answers m.subflows)) [
            | inl none_of ↦
                active_or_backup_ready m.subflows e timed (rw (several, fin, none_of) at h)
            | inr (x, eq) ↦
                let same : x ≡ e = cc (rw (several, fin, eq) at h) in
                let (there, t) = find_subflow-test answers m.subflows x eq in
                rw (← same) (there, and-right _ _ t)
          ]
        ]
      ]

  none_waits :
      (selector : DefSub → Bool) (es : List DefSub) (r : Option DefSub × Bool)
      → Chosen selector es r
      → any (is_waiting k socks zero_wnd_test skb selector) es ≡ false
      → r.1 ≡ true
      → is_some r.0 ≡ true
  none_waits selector es r (fresh e low) quiet force = refl
  none_waits selector es r (used e no_fresh low) quiet force = refl
  none_waits selector es r (nothing no_fresh no_used) quiet force = absurd (cc)

  fresh-best :
      (selector : DefSub → Bool) (es : List DefSub)
      → Timed socks
      → any (is_fresh k socks zero_wnd_test skb selector) es ≡ true
      → (e : DefSub) × (get_subflow_from_selectors k socks es skb selector zero_wnd_test
          ≡ (some e, true))
        × IsLowest (rtt_of socks) (is_fresh k socks zero_wnd_test skb selector) es e
  fresh-best selector es timed h =
      let rtt = rtt_of socks in
      let test = is_fresh k socks zero_wnd_test skb selector in
      let w = any (is_waiting k socks zero_wnd_test skb selector) es in
      let u = lowest rtt (is_used k socks zero_wnd_test skb selector) none es in
      elim (lowest-cases rtt test es) [
        | inl (eq, no_fresh) ↦ absurd (cc)
        | inr (e, eq, low) ↦ (
          e,
          get_subflow_from_selectors-best k socks zero_wnd_test skb selector es timed
              ∙ ap (λ f. chosen f u w) eq,
          low,
        )
      ]

  -- With `force` the active subflow, or NULL, is taken.
  active-force :
      (es : List DefSub) (b : Option DefSub)
      → get_subflow_from_selectors k socks es skb subflow_is_active zero_wnd_test ≡ (b, true)
      → active_or_backup k socks es skb zero_wnd_test ≡ (b, skb)
  unfolding active_or_backup
  active-force es b eq =
      let (backup, force') =
        get_subflow_from_selectors k socks es skb subflow_is_backup zero_wnd_test in
      let rest = if force' then (backup, skb) else (backup, clear_mask skb) in
      ap (λ (r : Option DefSub × Bool). if r.1 then (r.0, skb) else rest) eq

  -- If every round trip time is below 2 ^ 32 - 1, the connection has not one subflow, the segment is
  -- no data fin after a shutdown, and an available active subflow did not send the segment, then
  -- `get_available_subflow` gives one of these with the least round trip time, and the segment keeps
  -- its mask.
  pub get_available_subflow_active :
      (m : DefMeta)
      → Timed socks
      → (length m.subflows == 1) ≡ false
      → (m.rcv_shutdown && has_data_fin skb) ≡ false
      → any (is_fresh k socks zero_wnd_test skb subflow_is_active) m.subflows ≡ true
      → (e : DefSub) × (get_available_subflow k socks m skb zero_wnd_test ≡ (some e, skb))
        × IsLowest
            (rtt_of socks)
            (is_fresh k socks zero_wnd_test skb subflow_is_active)
            m.subflows
            e
  unfolding get_available_subflow
  get_available_subflow_active m timed several other h =
      let (e, eq, low) = fresh-best subflow_is_active m.subflows timed h in
      (e, rw (several, other) (active-force m.subflows (some e) eq), low)

  -- The choice of one selector gives NULL without `force` only if nothing is fresh or waits.
  pub no_force :
      (selector : DefSub → Bool) (es : List DefSub)
      → Timed socks
      → any (is_waiting k socks zero_wnd_test skb selector) es ≡ false
      → (let r = get_subflow_from_selectors k socks es skb selector zero_wnd_test in
          r.1 ≡ true → is_some r.0 ≡ true)
  no_force selector es timed quiet force =
      none_waits selector es _ (get_subflow_from_selectors-Chosen selector es timed) quiet force
