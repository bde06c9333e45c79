-- ===== src/Failure/Congestion.antt =====
-- What entering and leaving the congestion state does to the register.
use redundant_mptcp_r_mptcp.Prelude.{
  ◌||◌, length-map, ℕ, zero, suc, ◌+◌, ◌≤◌, ◌<◌, ◌≡◌, ◌≢◌, refl, Bool, true, false, List, [], ◌∷◌,
  ◌++◌, map, ℤ, length, modify, ltb, All, arith, ◌-◌, if◌then◌else◌,
}
use redundant_mptcp_r_mptcp.Register.{
  RedSk, Register, Socks, Sysctl, Kernel, Phase, opened, recovery, timed_out, congested, invalid,
  phase, is_congested, IsArray, max_num_red_sk,
}
use redundant_mptcp_r_mptcp.Failure.{
  check_failure, switch, set_cong, mark_cong, statechange_cong, worst_event, update_sub, suspect,
  s64_max, expected, earliest, case_open, case_recovery, case_timeout, statechange_timeout2cong,
  statechange_event2cong,
}

-- Some entry of the array is marked as congested.
abbrev pub any_cong : List RedSk → Bool
any_cong [] = false
any_cong (e ∷ es) = e.state.cong || any_cong es

any_cong-mark :
    (xs ys : List RedSk) (i : ℕ)
    → i < length xs + length ys
    → any_cong (
        modify (set_cong true) i xs
        ++ (if ltb i (length xs) then ys else modify (set_cong true) (i - length xs) ys))
      ≡ true
any_cong-mark [] [] i h = absurd (omega arith)
any_cong-mark [] (y ∷ ys) zero h = refl
any_cong-mark [] (y ∷ ys) (suc i) h = ground (arith, any_cong-mark [] ys i)
any_cong-mark (x ∷ xs) ys zero h = ground arith
any_cong-mark (x ∷ xs) ys (suc i) h = ground (arith, any_cong-mark xs ys i)

-- The register says that a subflow failed at this time.
pub record Failed (run_start : ℤ) (r : Register) : Type 0 where
  pub marked : any_cong (r.sk_list ++ r.spare) ≡ true
  pub flag : r.cong_flag ≡ 1
  pub since : r.last_ca_state ≡ run_start

statechange_cong-Failed :
    (i : ℕ) (run_start : ℤ) (r : Register)
    → IsArray r
    → i < max_num_red_sk
    → Failed run_start (statechange_cong i run_start r)
unfolding statechange_cong mark_cong
statechange_cong-Failed i run_start r full h = record {
  marked = any_cong-mark r.sk_list r.spare i (omega arith);
  flag = refl;
  since = refl;
}

-- The searches for a subflow stay inside the array.
worst_event-lt :
    (socks : Socks) (i event event_i : ℕ) (es : List RedSk) (n : ℕ)
    → event_i < n
    → i + length es ≤ n
    → (worst_event socks i event event_i es).1 < n
unfolding worst_event
worst_event-lt socks i event event_i [] n h k = h
worst_event-lt socks i event event_i (e ∷ es) n h k =
    worst_event-lt socks (suc i) _ _ es n (ground arith) (omega arith)

earliest-lt :
    (at : RedSk → ℤ) (i : ℕ) (best : ℤ) (best_i : ℕ) (es : List RedSk) (n : ℕ)
    → best_i < n
    → i + length es ≤ n
    → (earliest at i best best_i es).1 < n
unfolding earliest
earliest-lt at i best best_i [] n h k = h
earliest-lt at i best best_i (e ∷ es) n h k =
    earliest-lt at (suc i) _ _ es n (ground arith) (omega arith)

suspect-lt :
    (k : Kernel) (sys : Sysctl) (es : List RedSk)
    → length es ≤ max_num_red_sk
    → suspect k sys es < max_num_red_sk
unfolding suspect
suspect-lt k sys es h =
    let fits : 0 + length es ≤ max_num_red_sk = omega arith in
    let (best, best_i) = earliest (expected k sys) 0 s64_max 0 es in
    let first = earliest-lt (expected k sys) 0 s64_max 0 es max_num_red_sk (omega arith) fits in
    let last_used = λ (e : RedSk). k.ktime_to_us e.last_used in
    ground (arith, earliest-lt last_used 0 best best_i es max_num_red_sk first fits)

-- What holds after a step that may have entered the congestion state.
abbrev pub Enters : ℤ → Register → Type 0
Enters run_start r = phase r.state ≡ congested → Failed run_start r

module _ (k : Kernel) (sys : Sysctl) (run_start : ℤ) (r : Register) (full : IsArray r) where
  by_timeout : Failed run_start (statechange_timeout2cong k sys run_start r)
  unfolding statechange_timeout2cong
  by_timeout =
      statechange_cong-Failed (suspect k sys r.sk_list) run_start r full
        (suspect-lt k sys r.sk_list (omega arith))

  by_event : (i : ℕ) → i < max_num_red_sk → Failed run_start (statechange_event2cong i run_start r)
  unfolding statechange_event2cong
  by_event i h = statechange_cong-Failed i run_start r full h

  module _ (event event_i : ℕ) (inside : event_i < max_num_red_sk) where
    case_open-Enters :
        phase r.state ≡ opened → Enters run_start (case_open k sys run_start event event_i r)
    unfolding case_open
    case_open-Enters p h = ground (arith, by_timeout, by_event event_i inside)

    case_timeout-Enters :
        phase r.state ≡ timed_out → Enters run_start (case_timeout k sys run_start event event_i r)
    unfolding case_timeout
    case_timeout-Enters p h = ground (arith, by_timeout, by_event event_i inside)

    case_recovery-Enters :
        phase r.state ≡ recovery
        → r.previous_skevent_i < max_num_red_sk
        → Enters run_start (case_recovery k sys run_start event event_i r)
    unfolding case_recovery
    case_recovery-Enters p before h =
        ground (arith, by_timeout, by_event event_i inside, by_event r.previous_skevent_i before)

switch-Enters :
    (p : Phase) (k : Kernel) (sys : Sysctl) (run_start : ℤ) (event event_i : ℕ) (r : Register)
    → IsArray r
    → event_i < max_num_red_sk
    → r.previous_skevent_i < max_num_red_sk
    → phase r.state ≡ p
    → p ≢ congested
    → Enters run_start (switch p k sys run_start event event_i r)
unfolding switch
switch-Enters opened k sys run_start event event_i r full h before e n =
    case_open-Enters k sys run_start r full event event_i h e
switch-Enters recovery k sys run_start event event_i r full h before e n =
    case_recovery-Enters k sys run_start r full event event_i h e before
switch-Enters timed_out k sys run_start event event_i r full h before e n =
    case_timeout-Enters k sys run_start r full event event_i h e
switch-Enters congested k sys run_start event event_i r full h before e n = absurd (n refl)
switch-Enters invalid k sys run_start event event_i r full h before e n = λ p. cc

-- When a check enters the congestion state from another one, the time is noted, the flag for the
-- adaptive algorithms is set, and a subflow of the array is marked as congested, if the array is
-- full-length and the index kept from an earlier event lies inside it.
pub check_failure_enters :
    (k : Kernel) (socks : Socks) (sys : Sysctl) (run_start : ℤ) (r : Register)
    → IsArray r
    → r.previous_skevent_i < max_num_red_sk
    → phase r.state ≢ congested
    → phase (check_failure k socks sys run_start r).state ≡ congested
    → Failed run_start (check_failure k socks sys run_start r)
unfolding check_failure
check_failure_enters k socks sys run_start r full before n =
    let fits : 0 + length r.sk_list ≤ max_num_red_sk = omega arith in
    let inside = worst_event-lt socks 0 0 0 r.sk_list max_num_red_sk (omega arith) fits in
    let subs = update_sub k socks sys run_start (is_congested (phase r.state)) in
    switch-Enters (phase r.state) k sys run_start _ _ _ (omega (arith, length-map subs r.sk_list))
      inside before refl n

abbrev pub IsClear : RedSk → Type 0
IsClear e = e.state.cong ≡ false

map-IsClear : (es : List RedSk) → All IsClear (map (set_cong false) es)
map-IsClear [] = tt
map-IsClear (e ∷ es) = (refl, map-IsClear es)

-- How the congestion state was left, from the register before.
pub record Left (run_start : ℤ) (before after : Register) : Type 0 where
  pub to_recovery : phase after.state ≡ recovery
  pub clear : All IsClear after.sk_list
  pub flag : after.cong_flag ≡ 1
  pub since : after.start_recovery ≡ run_start
  pub restored : after.send_period_max ≡ before.send_period_max_before_cong
  pub lowered : after.effective_util_mean_mean ≤ before.effective_util_mean_mean

switch-Left :
    (p : Phase) (k : Kernel) (sys : Sysctl) (run_start : ℤ) (event event_i : ℕ) (r : Register)
    → phase r.state ≡ p
    → p ≡ congested
    → let r' = switch p k sys run_start event event_i r in
      phase r'.state ≢ congested → Left run_start r r'
unfolding switch
switch-Left congested k sys run_start event event_i r e h n = ground (arith, map-IsClear r.sk_list)
switch-Left opened k sys run_start event event_i r e h n = cc
switch-Left recovery k sys run_start event event_i r e h n = cc
switch-Left timed_out k sys run_start event event_i r e h n = cc
switch-Left invalid k sys run_start event event_i r e h n = cc

-- The congestion state is left for the recovery state only: then no subflow of the list is marked
-- any more, the flag for the adaptive algorithms is set, the recovery starts now, the longest
-- normal send period is that from before the congestion, and the mean of the mean utilization has
-- not risen.
pub check_failure_leaves :
    (k : Kernel) (socks : Socks) (sys : Sysctl) (run_start : ℤ) (r : Register)
    → phase r.state ≡ congested
    → phase (check_failure k socks sys run_start r).state ≢ congested
    → Left run_start r (check_failure k socks sys run_start r)
unfolding check_failure
check_failure_leaves k socks sys run_start r e n =
    let left = switch-Left (phase r.state) k sys run_start _ _ _ refl e n in ground (arith, left)
