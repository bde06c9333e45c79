-- ===== src/Default/Retry.antt =====
-- `get_available_subflow` for a segment that all available subflows have sent.
use redundant_mptcp_r_mptcp.Prelude.{
  ℕ, ◌-◌, ◌≡◌, ◌⊎◌, refl, ◌∙◌, ap, sym, Bool, true, false, ◌&&◌, Bool-cases, Option-cases, inl, inr,
  Option, none, some, List, [], ◌∷◌, ◌==◌, bit, length, arith,
}
use redundant_mptcp_r_mptcp.Register.{Socks, Kernel}
use redundant_mptcp_r_mptcp.RoundRobin.Subflow.{RrSkb, clear_mask}
use redundant_mptcp_r_mptcp.Default.Subflow.{
  DefSub, DefMeta, is_some, get_subflow_from_selectors, mptcp_dont_reinject_skb, subflow_is_active,
  subflow_is_backup, active_or_backup, get_available_subflow,
}
use redundant_mptcp_r_mptcp.Default.Choice.{any, is_ready, is_fresh, is_waiting}
use redundant_mptcp_r_mptcp.Default.Available.{Timed, get_available_subflow_active, no_force}

bit-zero : (i : ℕ) → bit 0 i ≡ false
bit-zero i = ground arith

and_true : (a : Bool) → (a && true) ≡ a
and_true true = refl
and_true false = refl

any-cong :
    (p q : DefSub → Bool) (es : List DefSub) → ((e : DefSub) → p e ≡ q e) → any p es ≡ any q es
any-cong p q [] h = refl
any-cong p q (e ∷ es) h = rw (h e, any-cong p q es h) refl

-- With the mask cleared nothing was sent.
cleared-is_fresh :
    (k : Kernel) (socks : Socks) (zero_wnd_test : Bool) (s : RrSkb) (selector : DefSub → Bool)
    (e : DefSub)
    → is_fresh k socks zero_wnd_test (some (record s { path_mask = 0 })) selector e
      ≡ is_ready k socks zero_wnd_test (some s) selector e
unfolding mptcp_dont_reinject_skb
cleared-is_fresh k socks zero_wnd_test s selector e =
    rw (bit-zero (e.path_index - 1)) (and_true (is_ready k socks zero_wnd_test (some s) selector e))

-- NULL comes without a flag, and the mask is cleared.
null-clears :
    (k : Kernel) (socks : Socks) (zero_wnd_test : Bool) (s : RrSkb) (es : List DefSub)
    → Timed socks
    → any (is_waiting k socks zero_wnd_test (some s) subflow_is_active) es ≡ false
    → any (is_waiting k socks zero_wnd_test (some s) subflow_is_backup) es ≡ false
    → (let r = active_or_backup k socks es (some s) zero_wnd_test in
        r.0 ≡ none → r.1 ≡ clear_mask (some s))
unfolding active_or_backup
null-clears k socks zero_wnd_test s es timed quiet quiet' h =
    let active = get_subflow_from_selectors k socks es (some s) subflow_is_active zero_wnd_test in
    let backup = get_subflow_from_selectors k socks es (some s) subflow_is_backup zero_wnd_test in
    elim (Bool-cases active.1) [
      | inl force ↦
          let found =
            no_force k socks zero_wnd_test (some s) subflow_is_active es timed quiet force in
          let null : active.0 ≡ none = rw force at h in absurd (cc (ap (is_some {A = DefSub}) null))
      | inr weak ↦ elim (Bool-cases backup.1) [
        | inl force ↦
            let found =
              no_force k socks zero_wnd_test (some s) subflow_is_backup es timed quiet' force in
            let null : backup.0 ≡ none = rw (weak, force) at h in
            absurd (cc (ap (is_some {A = DefSub}) null))
        | inr weak' ↦ rw (weak, weak') refl
      ]
    ]

-- If every round trip time is below 2 ^ 32 - 1, the connection has not one subflow, the segment is no
-- data fin after a shutdown, an active subflow is available for it and no subflow that did not send it
-- has to wait, then `get_available_subflow` gives a subflow, or NULL and the segment with an empty
-- mask, with which the next call gives a subflow.
pub get_available_subflow_retry :
    (k : Kernel) (socks : Socks) (zero_wnd_test : Bool) (s : RrSkb) (m : DefMeta)
    → Timed socks
    → (length m.subflows == 1) ≡ false
    → (m.rcv_shutdown && s.data_fin) ≡ false
    → any (is_ready k socks zero_wnd_test (some s) subflow_is_active) m.subflows ≡ true
    → any (is_waiting k socks zero_wnd_test (some s) subflow_is_active) m.subflows ≡ false
    → any (is_waiting k socks zero_wnd_test (some s) subflow_is_backup) m.subflows ≡ false
    → (let r = get_available_subflow k socks m (some s) zero_wnd_test in
        (is_some r.0 ≡ true)
        ⊎ (is_some (get_available_subflow k socks m r.1 zero_wnd_test).0 ≡ true))
get_available_subflow_retry k socks zero_wnd_test s m timed several other ready quiet quiet' =
    let r = get_available_subflow k socks m (some s) zero_wnd_test in
    elim (Option-cases r.0) [
      | inr (e, eq) ↦ inl (ap is_some eq)
      | inl null ↦
          let s' = record s { path_mask = 0 } in
          let same : r ≡ active_or_backup k socks m.subflows (some s) zero_wnd_test =
            unfold get_available_subflow in rw (several, other) refl in
          let cleared : r.1 ≡ some s' =
            ap (λ (x : Option DefSub × Option RrSkb). x.1) same
            ∙ null-clears k socks zero_wnd_test s m.subflows timed quiet quiet'
                (sym (ap (λ (x : Option DefSub × Option RrSkb). x.0) same) ∙ null) in
          let fresh =
            any-cong (is_fresh k socks zero_wnd_test (some s') subflow_is_active)
              (is_ready k socks zero_wnd_test (some s) subflow_is_active) m.subflows
              (cleared-is_fresh k socks zero_wnd_test s subflow_is_active)
            ∙ ready in
          let (e, eq, low) =
            get_available_subflow_active k socks zero_wnd_test (some s') m timed several other
              fresh in
          inr (
            ap (λ t. is_some (get_available_subflow k socks m t zero_wnd_test).0) cleared
            ∙ ap (λ (x : Option DefSub × Option RrSkb). is_some x.0) eq)
    ]
