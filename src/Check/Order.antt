-- ===== src/Check/Order.antt =====
-- The check keeps the order of the list, and every socket in it once.
use redundant_mptcp_r_mptcp.Prelude.{
  ℕ, zero, suc, ◌≡◌, ◌≢◌, refl, ap, ◌∙◌, sym, true, false, ◌&&◌, ◌||◌, if◌then◌else◌, ltb,
  Bool-cases, inl, inr, Option, List, [], ◌∷◌, ℤ, All, modify, leb, ◌==◌, arith,
}
use redundant_mptcp_r_mptcp.Register.{RedSk, Register, Socks, Kernel, Skb, Sysctl}
use redundant_mptcp_r_mptcp.Keeps.{sks}
use redundant_mptcp_r_mptcp.Quota.{set_q_actual}
use redundant_mptcp_r_mptcp.SkList.Insert.{IsSorted}
use redundant_mptcp_r_mptcp.SkList.Order.{Distinct, IsList, IsList-sks, IsStore}
use redundant_mptcp_r_mptcp.Check.{
  set_available, visit, last_or, Verdict, sweep, kick, decide_send, swept, verdict, conclude,
  check_avail_sk,
}
use redundant_mptcp_r_mptcp.Check.Kick.{kick_keeps}
use redundant_mptcp_r_mptcp.Check.Decision.{check_avail_sk-slots}

-- The order of `le_addr`, by the sockets.
abbrev Above : Socks → (sk j : ℕ) → Type 0
Above socks sk j =
    (ltb (socks sk).saddr (socks j).saddr
      || ((socks sk).saddr == (socks j).saddr && leb (socks sk).daddr (socks j).daddr))
    ≡ true

-- A property of the sockets, on the list of entries and on that of sockets.
All-of-sks : (P : ℕ → Type 0) (es : List RedSk) → All P (sks es) → All (λ e. P e.sk) es
All-of-sks P [] h = tt
All-of-sks P (e ∷ es) h = (h.0, All-of-sks P es h.1)

All-sks : (P : ℕ → Type 0) (es : List RedSk) → All (λ e. P e.sk) es → All P (sks es)
All-sks P [] h = tt
All-sks P (e ∷ es) h = (h.0, All-sks P es h.1)

module _ (k : Kernel) (socks : Socks) (skb : Option Skb) (run_start : ℤ) (max_noshow : ℕ) where
  visit-sk : (e : RedSk) → (visit k socks skb run_start max_noshow e).entry.sk ≡ e.sk
  unfolding visit
  visit-sk e = ground arith

  -- What holds of every socket of the list holds of those that stay.
  sweep-All :
      (P : ℕ → Type 0) (es spare : List RedSk)
      → All (λ e. P e.sk) es
      → All (λ e. P e.sk) (sweep k socks skb run_start max_noshow es spare).kept
  unfolding sweep
  sweep-All P [] spare h = tt
  sweep-All P (e ∷ es) spare h =
      let v = visit k socks skb run_start max_noshow e in
      let spare' = if v.removed then last_or v.entry es ∷ spare else spare in
      let rest = sweep-All P es spare' h.1 in
      elim (Bool-cases v.removed) [
        | inl gone ↦ rw (gone, sweep) (rw gone at rest)
        | inr stays ↦ rw (stays, sweep) (rw (visit-sk e) h.0, rw stays at rest)
      ]

  sweep-IsSorted :
      (es spare : List RedSk)
      → IsSorted socks es
      → IsSorted socks (sweep k socks skb run_start max_noshow es spare).kept
  unfolding sweep
  sweep-IsSorted [] spare s = tt
  sweep-IsSorted (e ∷ es) spare s =
      let v = visit k socks skb run_start max_noshow e in
      let spare' = if v.removed then last_or v.entry es ∷ spare else spare in
      let rest = sweep-IsSorted es spare' s.1 in
      let above = sweep-All (Above socks e.sk) es spare' s.0 in
      elim (Bool-cases v.removed) [
        | inl gone ↦ rw (gone, sweep) (rw gone at rest)
        | inr stays ↦ rw (stays, sweep, visit-sk e) (rw stays at above, rw stays at rest)
      ]

  sweep-Distinct :
      (es spare : List RedSk)
      → Distinct (sks es)
      → Distinct (sks (sweep k socks skb run_start max_noshow es spare).kept)
  unfolding sweep
  sweep-Distinct [] spare d = tt
  sweep-Distinct (e ∷ es) spare d =
      let v = visit k socks skb run_start max_noshow e in
      let spare' = if v.removed then last_or v.entry es ∷ spare else spare in
      let rest = sweep-Distinct es spare' d.1 in
      let other = sweep-All (λ j. j ≢ e.sk) es spare' (All-of-sks (λ j. j ≢ e.sk) es d.0) in
      elim (Bool-cases v.removed) [
        | inl gone ↦ rw (gone, sweep) (rw gone at rest)
        | inr stays ↦
            rw (stays, sweep, visit-sk e)
              (All-sks (λ j. j ≢ e.sk) _ (rw stays at other), rw stays at rest)
      ]

kick-sks : (k : Kernel) (q num main : ℕ) (es : List RedSk) → sks (kick k q num main es).0 ≡ sks es
kick-sks k q num main es =
    kick_keeps (λ xs. sks xs ≡ sks es) (λ i xs h. unavailable i xs ∙ h) k q num main es refl
  where
    unavailable : (i : ℕ) (xs : List RedSk) → sks (modify (set_available false) i xs) ≡ sks xs
    unavailable i [] = refl
    unavailable zero (x ∷ xs) = refl
    unavailable (suc i) (x ∷ xs) = ap (◌∷◌ x.sk) (unavailable i xs)

module _ (k : Kernel) (socks : Socks) (skb : Option Skb) (sys : Sysctl) (run_start : ℤ) where
  decide_send-same :
      (num main : ℕ) (r : Register)
      → let v = decide_send k sys run_start num main r in
        (sks v.reg.sk_list ≡ sks r.sk_list) × (v.reg.state ≡ r.state)
  unfolding decide_send
  decide_send-same num main r = ground (arith, kick-sks k r.q_control num main r.sk_list)

  conclude-same :
      (v : Verdict)
      → ((conclude v).0.sk_list ≡ v.reg.sk_list) × ((conclude v).0.state ≡ v.reg.state)
  unfolding conclude set_q_actual
  conclude-same v = ground arith

  -- The check of the availability.
  pub check_avail_sk-IsStore :
      (r : Register)
      → IsStore socks r
      → let r' = (check_avail_sk k socks sys skb run_start r).0 in
        IsStore socks r' × (r'.state ≡ r.state)
  unfolding check_avail_sk verdict swept
  check_avail_sk-IsStore r s =
      let swp = sweep k socks skb run_start r.max_sk_noshow r.sk_list r.spare in
      let v = verdict k socks sys skb run_start r in
      let kept : IsList socks swp.kept = record {
        sorted =
            sweep-IsSorted k socks skb run_start r.max_sk_noshow r.sk_list r.spare s.list.sorted;
        once = sweep-Distinct k socks skb run_start r.max_sk_noshow r.sk_list r.spare s.list.once;
      } in
      let (same, state) = decide_send-same swp.num_available swp.main_available (swept swp r) in
      let (list, state') = conclude-same v in
      (
        record {
          array = check_avail_sk-slots k socks skb sys run_start r ∙ s.array;
          list = rw list (IsList-sks socks swp.kept v.reg.sk_list (sym same) kept);
        },
        state' ∙ state,
      )
