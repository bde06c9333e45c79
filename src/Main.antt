-- ===== src/Main.antt =====
-- The choice of the main subflows: `rmptcp_set_all_main`, `rmptcp_set_all_uncong_main` and
-- `rmptcp_update_main_sk` of rmptcp.c.
pub mod Choice
pub mod Frame
use redundant_mptcp_r_mptcp.Prelude.{
  ℕ, ◌+◌, ◌/◌, ◌^◌, ◌-◌, Bool, true, false, not, ◌&&◌, ◌||◌, List, [], ◌∷◌, map, ℤ, pos, ◌+ℤ◌, u32,
  u32_of, ltb, ◌==◌, to_ℕ, if◌then◌else◌,
}
use Prim.Native.Nat.{◌*◌}
use redundant_mptcp_r_mptcp.Register.{RedSk, Register, Socks, Sysctl}

-- `state & (REDF_SK_Enabled | REDF_SK_Sub)`
abbrev pub is_usable : RedSk → Bool
is_usable e = e.state.enabled || e.state.sub

abbrev pub set_main : Bool → RedSk → RedSk
set_main b e = record e { state = record e.state { main = b } }

unfoldable pub set_all_main : List RedSk → List RedSk
set_all_main = map (λ e. set_main (is_usable e) e)

abbrev is_uncong : RedSk → Bool
is_uncong e = is_usable e && not e.state.cong

-- `c` of the source.
count_uncong : List RedSk → ℕ
count_uncong [] = 0
count_uncong (e ∷ es) = to_ℕ (is_uncong e) + count_uncong es

-- If every subflow is congested, all are main.
unfoldable pub set_all_uncong_main : List RedSk → List RedSk
unfolding set_all_main count_uncong
set_all_uncong_main es =
    let marked = map (λ e. set_main (is_uncong e) e) es in
    if count_uncong es == 0 then set_all_main marked else marked

-- The lowest round trip time and the highest mean bandwidth of the uncongested subflows. The
-- latter is an `unsigned int`, so a u64 bandwidth is cut to 32 bits where it is stored.
lowest_rtt : Socks → ℕ → List RedSk → ℕ
lowest_rtt socks lowest [] = lowest
lowest_rtt socks lowest (e ∷ es) =
    lowest_rtt socks
      (if is_uncong e && ltb (socks e.sk).srtt_us lowest then (socks e.sk).srtt_us else lowest) es

highest_bw : ℕ → List RedSk → ℕ
highest_bw highest [] = highest
highest_bw highest (e ∷ es) =
    highest_bw
      (if is_uncong e && ltb highest e.bandwidth_mean then u32 e.bandwidth_mean else highest) es

-- The three branches of the second loop on one entry, with the entry and whether it counts as
-- main. The products and quotients are of `unsigned int`.
mark : Socks → (ratio : ℤ) → (lowest highest : ℕ) → RedSk → RedSk × Bool
mark socks ratio lowest highest e =
    let above = u32_of (ratio +ℤ pos 1) in
    let rtt = (socks e.sk).srtt_us in
    if not (is_usable e)
    then (e, false)
    else if ltb (u32 (above * lowest)) rtt || ltb e.bandwidth_mean (highest / above) || e.state.cong
    then (set_main false e, false)
    else if ltb rtt (u32 (u32_of ratio * lowest)) && ltb (highest / u32_of ratio) e.bandwidth_mean
    then (set_main true e, true)
    else (e, e.state.main)

mark_all : Socks → (ratio : ℤ) → (lowest highest : ℕ) → List RedSk → List RedSk
mark_all socks ratio lowest highest = map (λ e. (mark socks ratio lowest highest e).0)

-- `num_main`
count_main : Socks → (ratio : ℤ) → (lowest highest : ℕ) → List RedSk → ℕ
count_main socks ratio lowest highest [] = 0
count_main socks ratio lowest highest (e ∷ es) =
    to_ℕ (mark socks ratio lowest highest e).1 + count_main socks ratio lowest highest es

-- The marking by round trip time and bandwidth, of the open and the timeout state.
choose_main : Socks → (ratio : ℤ) → List RedSk → List RedSk
unfolding lowest_rtt highest_bw mark mark_all count_main
choose_main socks ratio es =
    let lowest = lowest_rtt socks (2 ^ 32 - 1) es in
    let highest = highest_bw 0 es in
    let marked = mark_all socks ratio lowest highest es in
    if count_main socks ratio lowest highest es == 0 then set_all_uncong_main marked else marked

unfoldable pub update_main_sk : Socks → Sysctl → Register → Register
unfolding choose_main
update_main_sk socks sys r =
    if r.state.in_recovery
    then record r { sk_list = set_all_main r.sk_list }
    else if r.state.in_cong
    then record r { sk_list = set_all_uncong_main r.sk_list }
    else record r { sk_list = choose_main socks sys.main_ratio r.sk_list }
