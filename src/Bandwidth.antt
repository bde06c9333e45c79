-- ===== src/Bandwidth.antt =====
-- `rmptcp_update_bw` of rmptcp.c: the bandwidth of each subflow, the total and the effective one,
-- their means, and the loss ratio.
pub mod Mean
pub mod Frame
use redundant_mptcp_r_mptcp.Prelude.{
  ℕ, ◌+◌, ◌*◌, ◌/◌, Bool, not, ◌&&◌, List, [], ◌∷◌, map, ℤ, pos, negsuc, ◌+ℤ◌, ◌-ℤ◌, quot, ltb_ℤ,
  nonzero, u32_of, u64, u64_of, s64, s64_of, sub32, sub64, ltb, if◌then◌else◌,
}
use redundant_mptcp_r_mptcp.Register.{RedSk, Register, Sock, Socks, Sysctl, Kernel}

-- `err = (s64) sample; err -= mean;`
unfoldable pub deviation : (sample mean : ℕ) → ℤ
deviation sample mean = s64_of (sub64 sample mean)

-- `mean + err/div`, the running mean over `div` samples.
unfoldable pub running_mean : (div sample mean : ℕ) → ℕ
running_mean div sample mean = u64 (mean + u64_of (quot (deviation sample mean) div))

-- `if (err < 0) err = -err; err -= var; var += err/32;`
running_var : (err : ℤ) (var : ℕ) → ℕ
running_var err var =
    let size = if ltb_ℤ err (pos 0) then s64 (pos 0 -ℤ err) else err in
    u64 (var + u64_of (quot (s64_of (sub64 (u64_of size) var)) 32))

-- Bytes since the last measurement as kilobit per second; `delta_t` is in microseconds.
rate : (bytes old : ℕ) → (delta_t : ℤ) → ℕ
rate bytes old delta_t = u64 (sub64 bytes old * 8 * 1000) / u64_of delta_t

-- `(s64) lost_out*1000/packets_out`, less the old ratio.
loss_err : Sock → (ratio : ℕ) → ℤ
loss_err s ratio = pos (s.lost_out * 1000 / s.packets_out) -ℤ pos ratio

-- The loss ratio where the bandwidth of the subflows is measured, and where it is not.
loss_measured : Sock → RedSk → ℕ
unfolding loss_err
loss_measured s e =
    let err = loss_err s e.loss_ratio in
    if ltb 0 s.packets_out
    then (if ltb_ℤ (negsuc 7) err && ltb_ℤ err (pos 0)
        then sub32 e.loss_ratio 1
        else u32_of (pos e.loss_ratio +ℤ quot err 8))
    else if not e.state.enabled
    then 0
    else e.loss_ratio

loss_skipped : Sock → RedSk → ℕ
unfolding loss_err
loss_skipped s e =
    if ltb 0 s.packets_out
    then u32_of (pos e.loss_ratio +ℤ quot (loss_err s e.loss_ratio) 16)
    else if not e.state.enabled
    then 0
    else e.loss_ratio

-- The bodies of the two loops.
measure : Socks → (delta_t : ℤ) → RedSk → RedSk
unfolding rate running_mean loss_measured
measure socks delta_t e =
    let bw = rate e.byte_count e.byte_count_old delta_t in
    record e {
      bandwidth = bw;
      byte_count_old = e.byte_count;
      bandwidth_mean = running_mean 16 bw e.bandwidth_mean;
      loss_ratio = loss_measured (socks e.sk) e;
    }

skip_measure : Socks → RedSk → RedSk
unfolding loss_skipped
skip_measure socks e = record e {
  byte_count_old = e.byte_count;
  loss_ratio = loss_skipped (socks e.sk) e;
}

sum_bw : ℕ → List RedSk → ℕ
sum_bw acc [] = acc
sum_bw acc (e ∷ es) = sum_bw (u64 (acc + e.bandwidth)) es

measure_subflows : Socks → (delta_t : ℤ) → (calc_subflows : Bool) → Register → Register
unfolding measure skip_measure sum_bw
measure_subflows socks delta_t calc_subflows r =
    let measured = map (measure socks delta_t) r.sk_list in
    let total = sum_bw 0 measured in
    if calc_subflows
    then record r {
      sk_list = measured;
      total_bw = total;
      total_bw_mean = running_mean 16 total r.total_bw_mean;
    }
    else record r { sk_list = map (skip_measure socks) r.sk_list }

-- The mean of the mean and its variance, over `div` samples.
update_mean_mean : (div : ℕ) → Register → Register
unfolding running_var
update_mean_mean div r =
    let err = deviation r.effective_util_mean r.effective_util_mean_mean in
    record r {
      effective_util_mean_mean = running_mean div r.effective_util_mean r.effective_util_mean_mean;
      effective_util_var = running_var err r.effective_util_var;
    }

measure_util : (run_start delta_t : ℤ) → Register → Register
unfolding rate
measure_util run_start delta_t r =
    let util = rate r.effective_byte_count r.effective_byte_count_old delta_t in
    record r {
      effective_util = util;
      effective_byte_count_old = r.effective_byte_count;
      last_update = run_start;
      effective_util_mean = running_mean 16 util r.effective_util_mean;
    }

-- Measurements closer than `min_delta_t` microseconds are skipped. A division by 0 is undefined in
-- C; here it gives 0.
unfoldable pub update_bw :
    Kernel → Socks → Sysctl → (run_start : ℤ) → (calc_subflows : Bool) → Register → Register
unfolding measure_subflows measure_util update_mean_mean
update_bw k socks sys run_start calc_subflows r =
    let delta_t = k.ktime_us_delta run_start r.last_update in
    let measured =
      measure_util run_start delta_t (measure_subflows socks delta_t calc_subflows r) in
    if ltb_ℤ delta_t sys.min_delta_t
    then r
    else if r.state.is_open
    then update_mean_mean 32 measured
    else if r.state.in_recovery && not (nonzero sys.adaptiv_path_enable)
    then update_mean_mean 16 measured
    else measured
