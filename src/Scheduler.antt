-- ===== src/Scheduler.antt =====
-- `rmptcp_send_next_segment` of rmptcp.c, the entry of the scheduler. The state is the register
-- with the settings and the path index, and the variables of the path check.
pub mod Delivery
pub mod Preparation
pub mod Invariant
pub mod Reach
use redundant_mptcp_r_mptcp.Prelude.{
  ℕ, Bool, true, false, Option, some, ◌>>=◌, List, [], ℤ, ◌-ℤ◌, ltb_ℤ, nonzero, s64, ◌==◌,
  if◌then◌else◌,
}
use redundant_mptcp_r_mptcp.Register.{Register, Socks, Skb, Kernel}
use redundant_mptcp_r_mptcp.SkList.{update_sk_list}
use redundant_mptcp_r_mptcp.Main.{update_main_sk}
use redundant_mptcp_r_mptcp.Bandwidth.{update_bw}
use redundant_mptcp_r_mptcp.Quota.{set_q, adapt_r, calc_control_q}
use redundant_mptcp_r_mptcp.AdaptPath.{adapt_path}
use redundant_mptcp_r_mptcp.Failure.{check_failure}
use redundant_mptcp_r_mptcp.Check.{check_avail_sk}
use redundant_mptcp_r_mptcp.SendPeriod.{calc_send_period}
use redundant_mptcp_r_mptcp.Send.{send_skb}
use redundant_mptcp_r_mptcp.Settings.{Settings, update_sysctl, reset_meta}
use redundant_mptcp_r_mptcp.PathCheck.{Checker, Checked, path_checker}

-- What one call is given: the kernel, its sockets and their answers, the subflows of the
-- connection, the meta socket, the segment and the time.
pub record Call : Type 0 where
  pub kernel : Kernel
  pub socks : Socks
  pub subflows : List ℕ
  pub entail : ℕ → Bool
  pub meta_sk : ℕ
  pub skb : Skb
  pub reinject : Bool
  pub run_start : ℤ

abbrev pub set_reg : Settings → Register → Settings
set_reg s r = record s { reg = r }

-- A new meta socket.
pub new_meta : Call → Settings → Settings
new_meta c s =
    if s.reg.meta_sk == c.meta_sk
    then s
    else reset_meta (set_reg s (record s.reg { meta_sk = c.meta_sk }))

-- The update that runs once in each update period.
periodic : Call → Settings → Option Settings
periodic c s =
    let s' = update_sysctl s in
    update_sk_list c.kernel c.socks c.run_start c.subflows (some c.skb) s'.reg >>= λ r.
    let r' = update_bw c.kernel c.socks s'.sys c.run_start true r in
    some (set_reg s' (update_main_sk c.socks s'.sys r'))

-- Has the update period passed?
is_due : Call → Register → Bool
is_due c r = ltb_ℤ r.sk_reg_update_period (s64 (c.run_start -ℤ r.last_update))

-- The adaptive algorithms and the control value.
adapt : Call → Settings → Settings
adapt c s =
    let r = if nonzero s.sys.adaptiv_path_enable then adapt_path c.socks s.reg else s.reg in
    let adapted = update_main_sk c.socks s.sys (adapt_r c.kernel s.sys c.run_start r) in
    let r' = if nonzero s.sys.adaptiv_r_enable then adapted else set_q r in
    set_reg s (calc_control_q (record r' { cong_flag = 0 }))

normal : Call → Settings → Option Settings
unfolding periodic is_due adapt
normal c s =
    let due = periodic c s in (if is_due c s.reg then due else some s) >>= λ s'. some (adapt c s')

-- With the path check on, the quota is the user's.
checking : Call → Settings → Checker → Option Checked
checking c s ch = path_checker c.kernel c.socks c.run_start s ch >>= λ p.
    let s' = p.settings in
    let r = update_bw c.kernel c.socks s'.sys c.run_start true s'.reg in
    some (record p { settings = set_reg s' (calc_control_q (set_q r)) })

pub prepare : Call → Settings → Checker → Option Checked
unfolding checking normal
prepare c s ch =
    let checked = checking c s ch in
    let scheduled = normal c s >>= λ s'. some (record { settings = s'; checker = ch }) in
    if nonzero s.sys.runpathcheck then checked else scheduled

-- The measurements and the failure detection between the check and the transmission.
measure_send : Call → Settings → Register → Register
measure_send c s r =
    let r' =
      check_failure c.kernel c.socks s.sys c.run_start
        (calc_send_period c.kernel s.sys c.run_start r) in
    record r' { timeout = 0 }

-- The register after the call, the sockets that took the segment, and the result.
transmit : Call → Settings → Register × List ℕ × Bool
unfolding measure_send
transmit c s =
    let (r, go) = check_avail_sk c.kernel c.socks s.sys (some c.skb) c.run_start s.reg in
    let sent = send_skb c.entail c.skb c.reinject c.run_start (measure_send c s r) in
    if go then sent else (r, [], false)

-- The outcome of a call.
pub record Outcome : Type 0 where
  pub state : Checked
  pub sockets : List ℕ
  pub result : Bool

finish : Call → Checked → Outcome
unfolding transmit
finish c p =
    let (r, sockets, result) = transmit c p.settings in
    record {
      state = record p { settings = set_reg p.settings r };
      sockets = sockets;
      result = result;
    }

unfoldable pub send_next_segment : Call → Settings → Checker → Option Outcome
unfolding new_meta prepare finish
send_next_segment c s ch = prepare c (new_meta c s) ch >>= λ p. some (finish c p)
