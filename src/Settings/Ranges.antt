-- ===== src/Settings/Ranges.antt =====
-- What `rmptcp_update_sysctl` and `rmptcp_reset_meta` establish.
use redundant_mptcp_r_mptcp.Prelude.{
  ◌*ℤ◌, ◌&&◌, if◌then◌else◌, ℕ, ◌+◌, ◌^◌, ◌≤◌, ◌<◌, ◌≡◌, refl, true, length, length-append, ℤ, pos,
  negsuc, pos_part, ◌≤ℤ◌, ltb_ℤ, u32_of, u64_of, s32, arith, [], get_or,
}
use redundant_mptcp_r_mptcp.Register.{Register, Sysctl, PathIndex, phase, opened}
use redundant_mptcp_r_mptcp.Settings.{
  Settings, at_least_one, min_quota, select_path, next_active, wants_path, copy_settings,
  update_sysctl, reset_meta, empty_measurements,
}

-- The ranges that the register's settings are in, whatever the user wrote.
pub record InRange (r : Register) : Type 0 where
  pub period : pos 1 ≤ℤ r.sk_reg_update_period
  pub noshow : 1 ≤ r.max_sk_noshow
  pub timeout : pos 1 ≤ℤ r.red_timeout

at_least_one_lem : (a : ℤ) → pos 1 ≤ℤ at_least_one a
unfolding at_least_one
at_least_one_lem a = ground arith

copy_settings-InRange : (sys : Sysctl) (r : Register) → InRange (copy_settings sys r)
unfolding copy_settings
copy_settings-InRange sys r = record {
  period = at_least_one_lem (s32 (sys.skreg_update *ℤ pos 1000000));
  noshow = ground arith;
  timeout = at_least_one_lem sys.timeout;
}

min_quota_lem :
    (sys : Sysctl)
    → pos_part sys.quota < 2 ^ 31
    → (100 ≤ u32_of (min_quota sys).quota) × (u32_of (min_quota sys).quota < 2 ^ 31)
unfolding min_quota u32_of
min_quota_lem sys h = ground arith

-- The selection of a path and the limit on the quota leave the other settings alone.
select_path-same :
    (p : PathIndex) (sys : Sysctl)
    → let sys' = (select_path p (min_quota sys)).1 in
      (sys'.quota ≡ (min_quota sys).quota)
      × (sys'.collapse_th ≡ sys.collapse_th)
      × (sys'.maxnoshow ≡ sys.maxnoshow)
unfolding select_path min_quota
select_path-same p sys = (ground arith, ground arith, ground arith)

-- After an update the period, the no-show time and the timeout are at least 1, and the user's quota
-- is at least 100 and fits an `int`, whatever the user wrote; only the quota's own range as an
-- `int` is used. The threshold of a collapse is taken over exactly if it lies between 0 and 100.
pub update_sysctl-InRange :
    (s : Settings)
    → pos_part s.sys.quota < 2 ^ 31
    → let s' = update_sysctl s in
      InRange s'.reg
      × (100 ≤ s'.reg.q_target_user)
      × (s'.reg.q_target_user < 2 ^ 31)
      × (s'.reg.collapse_th ≡ (
          if ltb_ℤ (pos 0) s.sys.collapse_th && ltb_ℤ s.sys.collapse_th (pos 100)
          then s.sys.collapse_th
          else s.reg.collapse_th))
unfolding update_sysctl copy_settings
update_sysctl-InRange s h =
    let (paths, sys) = select_path s.paths (min_quota s.sys) in
    let q = min_quota_lem s.sys h in
    let (quota, th, noshow) = select_path-same s.paths s.sys in
    (copy_settings-InRange sys s.reg, rw quota q.0, rw quota q.1, rw th)

-- The test on the no-show time has no effect on a negative setting, which becomes a time of at
-- least 2 ^ 63 milliseconds.
update_sysctl_negative_noshow :
    (s : Settings) (n : ℕ)
    → n < 2 ^ 31
    → s.sys.maxnoshow ≡ negsuc n
    → 2 ^ 63 ≤ (update_sysctl s).reg.max_sk_noshow
unfolding update_sysctl copy_settings u64_of
update_sysctl_negative_noshow s n h e = rw ((select_path-same s.paths s.sys).2, e) (ground arith)

next_active-lt :
    (p : PathIndex)
    → 1 ≤ p.num_path_combinations
    → (pos_part (next_active p) < p.num_path_combinations)
      × (next_active p ≡ pos (pos_part (next_active p)))
unfolding next_active s32 u32_of
next_active-lt p some = (ground arith, ground arith)

-- A request for the next path combination, when there is one, selects an index below the number of
-- combinations, and the subflows of that combination are the ones enabled from then on.
update_sysctl_selects :
    (s : Settings)
    → wants_path s.sys s.paths ≡ true
    → let s' = update_sysctl s in
      (i : ℕ) × (i < s.paths.num_path_combinations)
      × (s'.paths.active ≡ pos i)
      × (s'.reg.enable_mask ≡ (get_or s.paths.path_measurements i empty_measurements).mask)
      × (s'.sys.set_path ≡ pos 0)
unfolding update_sysctl copy_settings select_path min_quota wants_path
update_sysctl_selects s h =
    let (below, nonneg) = next_active-lt s.paths (ground arith) in
    (pos_part (next_active s.paths), below, ground (arith, nonneg), ground arith, ground arith)

-- A new connection starts in the open state with an empty list; the array keeps its size.
pub reset_meta_lem :
    (s : Settings)
    → let s' = reset_meta s in
      (phase s'.reg.state ≡ opened)
      × (s'.reg.sk_list ≡ [])
      × (length s'.reg.sk_list + length s'.reg.spare ≡ length s.reg.sk_list + length s.reg.spare)
unfolding reset_meta
reset_meta_lem s = (refl, refl, omega (arith, length-append s.reg.sk_list s.reg.spare))
