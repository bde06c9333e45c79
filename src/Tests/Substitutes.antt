-- ===== src/Tests/Substitutes.antt =====
-- The choice of substitutes on a mesh of two by two addresses, where the first subflow fails.
use redundant_mptcp_r_mptcp.Prelude.{
  ◌+◌, ◌/◌, ◌%◌, ◌≡◌, refl, true, false, List, [], ◌∷◌, map, pos, replicate, arith,
}
use redundant_mptcp_r_mptcp.Register.{RedSk, Register, Socks, empty_slot, redf_cong}
use redundant_mptcp_r_mptcp.AdaptPath.{adapt_path}
use redundant_mptcp_r_mptcp.AdaptPath.Fastest.{IsFastest}
use redundant_mptcp_r_mptcp.AdaptPath.Substitutes.{Substituted, adapt_path-Substituted}
use redundant_mptcp_r_mptcp.Tests.Program.{program}
use redundant_mptcp_r_mptcp.Tests.Fixtures.{subflow, sock_at, open_reg}

abbrev mesh : Socks
mesh sk = sock_at (10 + sk / 2) (20 + sk % 2)

-- Subflow 2 is congested; 5, on the other two addresses, is the fastest.
abbrev failed : RedSk
failed = record (subflow 2 (pos 0)) { state = record (subflow 2 (pos 0)).state { cong = true } }

abbrev entries : List RedSk
entries =
    failed
    ∷ subflow 3 (pos 0)
    ∷ subflow 4 (pos 0)
    ∷ record (subflow 5 (pos 0)) { bandwidth_mean = 9000 }
    ∷ []

abbrev cong_reg : Register
cong_reg = record open_reg {
  state = redf_cong;
  cong_flag = 1;
  sk_list = entries;
  spare = replicate 20 empty_slot;
}

-- The two subflows that share one address with it substitute.
two_substitutes :
    map (λ e. e.state.sub) (adapt_path mesh cong_reg).sk_list ≡ false ∷ true ∷ true ∷ false ∷ []
unfolding program
two_substitutes = refl

adapt_path-Substituted_example :
    (b : RedSk) × IsFastest entries b
    × Substituted mesh cong_reg (adapt_path mesh cong_reg) failed b
adapt_path-Substituted_example =
    adapt_path-Substituted mesh cong_reg failed 3 (omega arith) refl refl (omega arith) refl
      (omega arith) (omega arith, (omega arith, (omega arith, (omega arith, tt))))
