-- ===== src/AdaptPath.antt =====
-- `rmptcp_adaptPath` of rmptcp.c: substitutes for a congested subflow.
pub mod Frame
pub mod Fastest
pub mod Substitutes
use redundant_mptcp_r_mptcp.Prelude.{
  ℕ, suc, Bool, true, false, not, ◌&&◌, ◌||◌, List, [], ◌∷◌, map, u32, ltb, ◌==◌, if◌then◌else◌,
}
use redundant_mptcp_r_mptcp.Register.{RedSk, Register, Socks, slot}
use redundant_mptcp_r_mptcp.Quota.{first_cong}

-- The index of the enabled and uncongested subflow with the highest mean bandwidth, or the index
-- given; the running maximum is an `unsigned int`.
pub fastest : (i highest highest_i : ℕ) → List RedSk → ℕ
fastest i highest highest_i [] = highest_i
fastest i highest highest_i (e ∷ es) =
    let better = e.state.enabled && not e.state.cong && ltb highest e.bandwidth_mean in
    fastest (suc i) (if better then u32 e.bandwidth_mean else highest)
      (if better then i else highest_i) es

abbrev pub set_sub : Bool → RedSk → RedSk
set_sub b e = record e { state = record e.state { sub = b } }

-- A substitute joins an address of the congested subflow with the other end of the fastest one.
pub is_substitute : Socks → (failed best : ℕ) → RedSk → Bool
is_substitute socks failed best e =
    let s = (socks e.sk).saddr in
    let d = (socks e.sk).daddr in
    not e.state.cong
    && ((s == (socks failed).saddr && d == (socks best).daddr)
        || (d == (socks failed).daddr && s == (socks best).saddr))

unfoldable pub adapt_path : Socks → Register → Register
unfolding fastest is_substitute
adapt_path socks r =
    let failed = (slot r (first_cong r.sk_list)).sk in
    let best = (slot r (fastest 0 0 0 r.sk_list)).sk in
    if not (r.cong_flag == 0) && r.state.in_cong
    then record r {
      sk_list =
          map (λ e. if is_substitute socks failed best e then set_sub true e else e) r.sk_list;
    }
    else if not (r.cong_flag == 0) && r.state.in_recovery
    then record r { sk_list = map (set_sub false) r.sk_list }
    else r
