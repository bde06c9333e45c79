-- ===== src/AdaptPath/Frame.antt =====
-- The choice of substitutes leaves the sockets alone.
use redundant_mptcp_r_mptcp.Prelude.{ℕ, ◌≡◌, refl, true, false, List, map, arith, if◌then◌else◌}
use redundant_mptcp_r_mptcp.Register.{RedSk, Register, Socks, slot}
use redundant_mptcp_r_mptcp.Keeps.{sks, Keeps, sks-map}
use redundant_mptcp_r_mptcp.Quota.{first_cong}
use redundant_mptcp_r_mptcp.AdaptPath.{set_sub, is_substitute, fastest, adapt_path}

mark_substitute-sks :
    (socks : Socks) (failed best : ℕ) (es : List RedSk)
    → sks (map (λ e. if is_substitute socks failed best e then set_sub true e else e) es) ≡ sks es
mark_substitute-sks socks failed best = sks-map _ (λ e. ground arith)

pub adapt_path-Keeps : (socks : Socks) (r : Register) → Keeps r (adapt_path socks r)
unfolding adapt_path
adapt_path-Keeps socks r =
    let failed = (slot r (first_cong r.sk_list)).sk in
    let best = (slot r (fastest 0 0 0 r.sk_list)).sk in
    ground (
      arith,
      mark_substitute-sks socks failed best r.sk_list,
      sks-map (set_sub false) (λ e. refl) r.sk_list,
    )
