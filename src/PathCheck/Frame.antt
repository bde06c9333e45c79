-- ===== src/PathCheck/Frame.antt =====
-- The path check keeps the state valid.
use redundant_mptcp_r_mptcp.Prelude.{
  ℕ, ◌≡◌, ◌∙◌, ap, Bool, Bool-cases, inl, inr, sym, true, false, none, some, ℤ, negsuc, not, leb,
  ◌+◌, length-modify, get_or, ◌*ℤ◌, pos, u64_of, s32, ◌>>=◌, Option, if◌then◌else◌,
}
use redundant_mptcp_r_mptcp.Register.{Socks, Kernel, PathIndex}
use redundant_mptcp_r_mptcp.Validity.{IsValid, Keeps-IsValid}
use redundant_mptcp_r_mptcp.Settings.{Settings, empty_measurements}
use redundant_mptcp_r_mptcp.SkList.Frame.{set_enable_flag-Keeps}
use redundant_mptcp_r_mptcp.Main.Frame.{set_all_main-sks}
use redundant_mptcp_r_mptcp.PathCheck.{
  Checker, Checked, activate, get_measurements, start_check, next_check, path_checker,
}
use redundant_mptcp_r_mptcp.PathCheck.Search.{get_path_combinations-free}

activate-IsValid :
    (socks : Socks) (index : ℕ) (s : Settings) → IsValid socks s → IsValid socks (activate index s)
unfolding activate
activate-IsValid socks index s v =
    let m = get_or s.paths.path_measurements index empty_measurements in
    let flags = set_enable_flag-Keeps (record s.reg { enable_mask = m.mask }) in
    Keeps-IsValid socks s _
      (record { same = set_all_main-sks _ ∙ flags.same; spare = flags.spare; state = flags.state })
      v

-- The settings of a result.
abbrev settings_or : Settings → Option Checked → Settings
settings_or s none = s
settings_or s (some out) = out.settings

start_check-IsValid :
    (socks : Socks) (run_start : ℤ) (s : Settings) (out : Checked)
    → start_check socks run_start s ≡ some out
    → IsValid socks s
    → IsValid socks out.settings
unfolding start_check
start_check-IsValid socks run_start s out h v =
    elim (get_path_combinations-free socks s.reg.sk_list s.paths v.paths) [
      | inl (fault, many) ↦ absurd (cc)
      | inr (q, done, all, count, bound, k, whole) ↦
          let begun : Settings = record s { paths = record q { active = negsuc 0 } } in
          let v' : IsValid socks begun = record {
            store = v.store;
            machine = v.machine;
            paths = whole;
          } in
          let same : go q ≡ some out = sym (ap (λ o. o >>= go) done) ∙ h in
          rw (← ap (settings_or s) same) (activate-IsValid socks 0 begun v')
    ]
  where
    go : PathIndex → Option Checked
    go p = some (record {
      settings = activate 0 (record s { paths = record p { active = negsuc 0 } });
      checker = record { running = true; test_index = 0; start_last_combination = run_start };
    })

next_check-IsValid :
    (socks : Socks) (run_start : ℤ) (s : Settings) (c : Checker)
    → IsValid socks s
    → IsValid socks (next_check socks run_start s c).settings
unfolding next_check get_measurements
next_check-IsValid socks run_start s c v =
    let s' : Settings = record s { paths = get_measurements socks c.test_index s.reg s.paths } in
    let v' : IsValid socks s' = record {
      store = v.store;
      machine = v.machine;
      paths = length-modify _ c.test_index s.paths.path_measurements ∙ v.paths;
    } in
    elim (Bool-cases (leb s.paths.num_path_combinations (c.test_index + 1))) [
      | inl last ↦
          rw (last, next_check)
            (record { store = v'.store; machine = v'.machine; paths = v'.paths })
      | inr more ↦ rw (more, next_check) (activate-IsValid socks (c.test_index + 1) s' v')
    ]

-- The three outcomes of a call.
outcome-IsValid :
    {socks : Socks} {out : Checked}
    → (running over : Bool) → (start : Option Checked) → (next wait : Checked)
    → (if not running then start else if over then some next else some wait) ≡ some out
    → (start ≡ some out → IsValid socks out.settings)
    → IsValid socks next.settings
    → IsValid socks wait.settings
    → IsValid socks out.settings
outcome-IsValid false over start next wait h begun later same = begun h
outcome-IsValid true true start next wait h begun later same =
    rw (← ap (settings_or next.settings) h) later
outcome-IsValid true false start next wait h begun later same =
    rw (← ap (settings_or next.settings) h) same

pub path_checker-IsValid :
    (k : Kernel) (socks : Socks) (run_start : ℤ) (s : Settings) (c : Checker) (out : Checked)
    → path_checker k socks run_start s c ≡ some out
    → IsValid socks s
    → IsValid socks out.settings
unfolding path_checker
path_checker-IsValid k socks run_start s c out h v =
    let duration = u64_of (s32 (s.sys.runpathcheck_duration *ℤ pos 1000)) in
    let over = k.ktime_before (k.ktime_add_ms c.start_last_combination duration) run_start in
    let next = next_check socks run_start s c in
    let wait : Checked = record { settings = s; checker = c } in
    outcome-IsValid c.running over (start_check socks run_start s) next wait h
      (λ begun. start_check-IsValid socks run_start s out begun v)
      (next_check-IsValid socks run_start s c v) v
