-- ===== src/Check/Scan.antt =====
-- What the first loop of `rmptcp_check_avail_sk` counts and keeps.
use redundant_mptcp_r_mptcp.Prelude.{
  Bool-cases, inl, inr, ℕ, ◌+◌, ◌≡◌, refl, true, false, Option, List, [], ◌∷◌, ℤ, length, All,
  arith, if◌then◌else◌,
}
use redundant_mptcp_r_mptcp.Register.{RedSk, Socks, Skb, Kernel}
use redundant_mptcp_r_mptcp.Availability.{is_available}
use redundant_mptcp_r_mptcp.Check.{visit, last_or, Sweep, sweep}
use redundant_mptcp_r_mptcp.Check.Counts.{count_avail, count_avail_main}

-- Where an entry is marked as available, its socket can take the segment now.
abbrev pub Ready : Kernel → Socks → Option Skb → RedSk → Type 0
Ready k socks skb e = e.state.available ≡ true → is_available k (socks e.sk) skb false true ≡ 0

-- The counts are those of the list that is kept, the two parts fill as many slots as before, and
-- every available entry is ready.
pub record Swept (k : Kernel) (socks : Socks) (skb : Option Skb) (es spare : List RedSk) (s : Sweep)
    : Type 0 where
  pub counted : s.num_available ≡ count_avail s.kept
  pub main_counted : s.main_available ≡ count_avail_main s.kept
  pub slots : length s.kept + length s.spare ≡ length es + length spare
  pub ready : All (Ready k socks skb) s.kept

module _ (k : Kernel) (socks : Socks) (skb : Option Skb) (run_start : ℤ) (max_noshow : ℕ) where
  visit_lem :
      (e : RedSk)
      → let v = visit k socks skb run_start max_noshow e in
        (v.counted ≡ v.entry.state.available)
        × (v.removed ≡ true → v.counted ≡ false)
        × Ready k socks skb v.entry
  unfolding visit
  visit_lem e = (ground arith, λ h. ground arith, λ h. ground arith)

  pub sweep-Swept :
      (es spare : List RedSk)
      → Swept k socks skb es spare (sweep k socks skb run_start max_noshow es spare)
  unfolding sweep
  sweep-Swept [] spare = record { counted = refl; main_counted = refl; slots = refl; ready = tt }
  sweep-Swept (e ∷ es) spare =
      let v = visit k socks skb run_start max_noshow e in
      let facts = visit_lem e in
      let spare' = if v.removed then last_or v.entry es ∷ spare else spare in
      let ih = sweep-Swept es spare' in
      elim (Bool-cases v.removed) [
        | inl gone ↦ ground (arith, facts, ih)
        | inr stays ↦ ground (arith, facts, ih)
      ]
