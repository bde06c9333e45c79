-- ===== src/Check.antt =====
-- `rmptcp_check_avail_sk` of rmptcp.c: which subflows take the segment, and is it sent now?
pub mod Counts
pub mod Kick
pub mod Scan
pub mod Order
pub mod Decision
use redundant_mptcp_r_mptcp.Prelude.{
  ℕ, zero, suc, ◌+◌, ◌-◌, Bool, true, false, not, ◌&&◌, Option, none, some, List, [], ◌∷◌, ℤ, pos,
  ◌+ℤ◌, ◌*ℤ◌, quot, ltb_ℤ, nonzero, u32_of, s32, s64, ltb, leb, ◌==◌, to_ℕ, modify, if◌then◌else◌,
}
use redundant_mptcp_r_mptcp.Register.{RedSk, Register, Socks, Skb, Sysctl, Kernel}
use redundant_mptcp_r_mptcp.Availability.{is_available}
use redundant_mptcp_r_mptcp.Main.{is_usable}
use redundant_mptcp_r_mptcp.Quota.{set_q_actual}

abbrev pub set_available : Bool → RedSk → RedSk
set_available b e = record e { state = record e.state { available = b } }

-- What the first loop does with one entry: its new flags, and whether it leaves the list or is
-- counted.
pub record Visit : Type 0 where
  pub entry : RedSk
  pub removed : Bool
  pub counted : Bool

visit : Kernel → Socks → Option Skb → (run_start : ℤ) → (max_noshow : ℕ) → RedSk → Visit
visit k socks skb run_start max_noshow e =
    if not (is_available k (socks e.sk) skb false true == 0)
    then record {
      entry = set_available false e;
      removed = k.ktime_before (k.ktime_add_ms e.last_used max_noshow) run_start;
      counted = false;
    }
    else (let use_it =
          is_usable e && not (e.state.cong && e.state.sub && ltb 0 (socks e.sk).packets_out) in
        record { entry = set_available use_it e; removed = false; counted = use_it })

-- The last entry of a list, or the one given.
last_or : RedSk → List RedSk → RedSk
last_or e [] = e
last_or e (x ∷ es) = last_or x es

-- The list after the loop with the spare slots behind it and the two counts.
pub record Sweep : Type 0 where
  pub kept : List RedSk
  pub spare : List RedSk
  pub num_available : ℕ
  pub main_available : ℕ

-- A removal moves the later entries down by one, so the last one stays behind as a spare copy.
unfoldable pub sweep :
    Kernel
    → Socks
    → Option Skb
    → (run_start : ℤ) → (max_noshow : ℕ) → List RedSk
    → (spare : List RedSk) → Sweep
unfolding visit last_or
sweep k socks skb run_start max_noshow [] spare = record {
  kept = [];
  spare = spare;
  num_available = 0;
  main_available = 0;
}
sweep k socks skb run_start max_noshow (e ∷ es) spare =
    let v = visit k socks skb run_start max_noshow e in
    let rest =
      sweep k socks skb run_start max_noshow es
        (if v.removed then last_or v.entry es ∷ spare else spare) in
    record {
      kept = if v.removed then rest.kept else v.entry ∷ rest.kept;
      spare = rest.spare;
      num_available = to_ℕ v.counted + rest.num_available;
      main_available = to_ℕ (v.counted && v.entry.state.main) + rest.main_available;
    }

abbrev pub is_avail_main : RedSk → Bool
is_avail_main e = e.state.available && e.state.main

-- The index of the available main subflow that was used last, with that time: the first loop finds
-- the first such subflow and the second compares the later ones with it.
latest_main : Kernel → (i : ℕ) → (latest : Option (ℕ × ℤ)) → List RedSk → Option (ℕ × ℤ)
latest_main k i latest [] = latest
latest_main k i none (e ∷ es) =
    latest_main k (suc i) (if is_avail_main e then some (i, e.last_used) else none) es
latest_main k i (some (j, used)) (e ∷ es) =
    latest_main k (suc i)
      (if is_avail_main e && k.ktime_before used e.last_used
        then some (i, e.last_used)
        else some (j, used))
      es

-- The `while` loop that takes subflows beyond the target out again. It ends where no subflow is
-- found and `latest_i` is still -1. While `main_available` counts the available main subflows, as
-- it does from the start, each round finds one, so an index of an earlier round is never used.
kick_loop : Kernel → (fuel : ℕ) → (q_control num main : ℕ) → List RedSk → List RedSk × ℕ
unfolding latest_main
kick_loop k zero q_control num main es = (es, num)
kick_loop k (suc fuel) q_control num main es =
    let stop : List RedSk × ℕ = (es, num) in
    let go = λ (i : ℕ).
      kick_loop k fuel q_control (num - 1) (main - 1) (modify (set_available false) i es) in
    elim (ltb q_control num && ltb 1 main) [
      | false ↦ stop
      | true ↦ elim (latest_main k 0 none es) [ none ↦ stop | some (i, used) ↦ go i ]
    ]

-- Every round takes one subflow off the count, so as many rounds as there are suffice.
unfoldable pub kick : Kernel → (q_control num main : ℕ) → List RedSk → List RedSk × ℕ
unfolding kick_loop
kick k q_control num main es = kick_loop k num q_control num main es

-- "make sure the target is possible, but it has to be at least 1"
unfoldable pub limit_control : Register → ℕ
limit_control r =
    let q = if ltb r.num_enabled r.q_control then r.num_enabled else r.q_control in
    if ltb q 1 then 1 else q

-- `((100+sysctl_rmptcp_varperiod_th) * times * send_period_max)/100`; `times` is 1 or 2.
unfoldable pub patience : Sysctl → (times : ℕ) → Register → ℤ
patience sys times r =
    quot (s64 (s32 (s32 (pos 100 +ℤ sys.varperiod_th) *ℤ pos times) *ℤ r.send_period_max)) 100

-- `delta_send`
waited : Kernel → (run_start : ℤ) → Register → ℤ
waited k run_start r =
    if nonzero r.timeout_start then k.ktime_us_delta run_start r.timeout_start else pos 0

-- The decision, from the counts and the register after the first loop. The result is `go`, the
-- number of subflows that take the segment, and the register.
pub record Verdict : Type 0 where
  pub go : Bool
  pub num : ℕ
  pub reg : Register

decide_send : Kernel → Sysctl → (run_start : ℤ) → (num main : ℕ) → Register → Verdict
unfolding kick waited
decide_send k sys run_start num main r =
    let delta_send = waited k run_start r in
    let kicked = kick k r.q_control num main r.sk_list in
    if leb r.q_control num && not (main == 0)
    then (if nonzero sys.enable_kick
        then record { go = true; num = kicked.1; reg = record r { sk_list = kicked.0 } }
        else record { go = true; num = num; reg = r })
    else if r.state.in_cong && ltb_ℤ (patience sys 2 r) delta_send && ltb 0 num
    then record { go = true; num = num; reg = r }
    else if not r.state.in_cong && ltb_ℤ (patience sys 1 r) delta_send
    then record { go = ltb 0 num; num = num; reg = record r { timeout = u32_of delta_send } }
    else record {
      go = false;
      num = num;
      reg = if nonzero r.timeout_start then r else record r { timeout_start = run_start };
    }

-- What follows the decision.
conclude : Verdict → Register × Bool
conclude v =
    let go = if v.num == 0 then false else v.go in
    if go
    then (record (set_q_actual v.num v.reg) { timeout_start = pos 0 }, true)
    else (v.reg, false)

-- The register after the first loop and the limits on `q_control`.
unfoldable pub swept : Sweep → Register → Register
swept s r = record r { sk_list = s.kept; spare = s.spare; q_control = limit_control r }

-- The first loop, the limits and the decision. The time waited is read before the loop, which does
-- not change it.
unfoldable pub verdict : Kernel → Socks → Sysctl → Option Skb → (run_start : ℤ) → Register → Verdict
unfolding sweep swept decide_send
verdict k socks sys skb run_start r =
    let s = sweep k socks skb run_start r.max_sk_noshow r.sk_list r.spare in
    decide_send k sys run_start s.num_available s.main_available (swept s r)

unfoldable pub check_avail_sk :
    Kernel → Socks → Sysctl → Option Skb → (run_start : ℤ) → Register → Register × Bool
unfolding verdict conclude
check_avail_sk k socks sys skb run_start r = conclude (verdict k socks sys skb run_start r)
