-- ===== src/SkList/Frame.antt =====
-- The flags of the path mask leave the sockets alone.
use redundant_mptcp_r_mptcp.Prelude.{ℕ, suc, ◌≡◌, refl, List, [], ◌∷◌, arith}
use mathlib.Core.Path.{ap₂}
use redundant_mptcp_r_mptcp.Register.{RedSk, Register}
use redundant_mptcp_r_mptcp.Keeps.{sks, Keeps}
use redundant_mptcp_r_mptcp.SkList.{set_enable_flag, enable_from, enable_flag}

enable_from-sks : (mask i : ℕ) (es : List RedSk) → sks (enable_from mask i es) ≡ sks es
unfolding enable_from enable_flag
enable_from-sks mask i [] = refl
enable_from-sks mask i (e ∷ es) = ap₂ ◌∷◌ (ground arith) (enable_from-sks mask (suc i) es)

pub set_enable_flag-Keeps : (r : Register) → Keeps r (set_enable_flag r)
unfolding set_enable_flag
set_enable_flag-Keeps r = record {
  same = enable_from-sks r.enable_mask 0 r.sk_list;
  spare = refl;
  state = refl;
}
