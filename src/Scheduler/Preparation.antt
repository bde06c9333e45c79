-- ===== src/Scheduler/Preparation.antt =====
-- What `rmptcp_send_next_segment` does before the check keeps the state valid.
use redundant_mptcp_r_mptcp.Prelude.{
  ◌≡◌, refl, ap, Bool, true, false, Bool-cases, Option-cases, inl, inr, some, ◌>>=◌, nonzero,
  if◌then◌else◌,
}
use redundant_mptcp_r_mptcp.Register.{Register}
use redundant_mptcp_r_mptcp.Keeps.{Keeps, Keeps-refl, Keeps-trans}
use redundant_mptcp_r_mptcp.Validity.{IsValid, Keeps-IsValid}
use redundant_mptcp_r_mptcp.SkList.{update_sk_list}
use redundant_mptcp_r_mptcp.SkList.Order.{update_sk_list-IsStore}
use redundant_mptcp_r_mptcp.Main.{update_main_sk}
use redundant_mptcp_r_mptcp.Main.Frame.{update_main_sk-Keeps}
use redundant_mptcp_r_mptcp.Bandwidth.{update_bw}
use redundant_mptcp_r_mptcp.Bandwidth.Frame.{update_bw-Keeps}
use redundant_mptcp_r_mptcp.Quota.{set_q, adapt_r, calc_control_q}
use redundant_mptcp_r_mptcp.Quota.Frame.{adapt_r-Keeps, set_q-Keeps, calc_control_q-Keeps}
use redundant_mptcp_r_mptcp.AdaptPath.{adapt_path}
use redundant_mptcp_r_mptcp.AdaptPath.Frame.{adapt_path-Keeps}
use redundant_mptcp_r_mptcp.Settings.{Settings, update_sysctl}
use redundant_mptcp_r_mptcp.Settings.Frame.{update_sysctl-IsValid, reset_meta-IsValid}
use redundant_mptcp_r_mptcp.PathCheck.{Checker, Checked, path_checker}
use redundant_mptcp_r_mptcp.PathCheck.Frame.{path_checker-IsValid}
use redundant_mptcp_r_mptcp.Scheduler.{
  Call, set_reg, new_meta, periodic, is_due, adapt, normal, checking, prepare,
}

-- A choice between two states.
if-IsValid :
    (c : Call) (b : Bool) (s t : Settings)
    → IsValid c.socks s
    → IsValid c.socks t
    → IsValid c.socks (if b then s else t)
if-IsValid c true s t v w = v
if-IsValid c false s t v w = w

pub new_meta-IsValid :
    (c : Call) (s : Settings) → IsValid c.socks s → IsValid c.socks (new_meta c s)
unfolding new_meta
new_meta-IsValid c s v =
    let s' = set_reg s (record s.reg { meta_sk = c.meta_sk }) in
    let v' : IsValid c.socks s' = record {
      store = record { array = v.store.array; list = v.store.list };
      machine = v.machine;
      paths = v.paths;
    } in
    if-IsValid c _ s _ v (reset_meta-IsValid c.socks s' v')

-- The list is brought up to date, and then measured.
updated-IsValid :
    (c : Call) (s : Settings) (r : Register)
    → update_sk_list c.kernel c.socks c.run_start c.subflows (some c.skb) s.reg ≡ some r
    → IsValid c.socks s
    → let r' = update_bw c.kernel c.socks s.sys c.run_start true r in
      IsValid c.socks (set_reg s (update_main_sk c.socks s.sys r'))
updated-IsValid c s r done v =
    let r' = update_bw c.kernel c.socks s.sys c.run_start true r in
    let (store, state) =
      update_sk_list-IsStore c.kernel c.socks (some c.skb) c.run_start c.subflows s.reg r done
        v.store in
    let measured = update_bw-Keeps c.kernel c.socks s.sys c.run_start true r in
    Keeps-IsValid c.socks (set_reg s r) _
      (Keeps-trans measured (update_main_sk-Keeps c.socks s.sys r'))
      (record { store = store; machine = rw state v.machine; paths = v.paths })

periodic-IsValid :
    (c : Call) (s s' : Settings) → periodic c s ≡ some s' → IsValid c.socks s → IsValid c.socks s'
unfolding periodic
periodic-IsValid c s s' h v =
    let t = update_sysctl s in
    elim (Option-cases
      (update_sk_list c.kernel c.socks c.run_start c.subflows (some c.skb) t.reg)) [
        | inl fault ↦ absurd (cc)
        | inr (r, done) ↦
            let r' = update_bw c.kernel c.socks t.sys c.run_start true r in
            let same : set_reg t (update_main_sk c.socks t.sys r') ≡ s' = cc in
            rw (← same) (updated-IsValid c t r done (update_sysctl-IsValid c.socks s v))
      ]

if-Keeps : (b : Bool) (r s t : Register) → Keeps r s → Keeps r t → Keeps r (if b then s else t)
if-Keeps true r s t k l = k
if-Keeps false r s t k l = l

adapt-IsValid : (c : Call) (s : Settings) → IsValid c.socks s → IsValid c.socks (adapt c s)
unfolding adapt
adapt-IsValid c s v =
    let r = if nonzero s.sys.adaptiv_path_enable then adapt_path c.socks s.reg else s.reg in
    let chosen : Keeps s.reg r =
      if-Keeps _ s.reg _ _ (adapt_path-Keeps c.socks s.reg) (Keeps-refl s.reg) in
    let a = adapt_r c.kernel s.sys c.run_start r in
    let adapted =
      Keeps-trans (adapt_r-Keeps c.kernel s.sys c.run_start r)
        (update_main_sk-Keeps c.socks s.sys a) in
    let r' = if nonzero s.sys.adaptiv_r_enable then update_main_sk c.socks s.sys a else set_q r in
    let quota : Keeps r r' = if-Keeps _ r _ _ adapted (set_q-Keeps r) in
    let cleared : Keeps r' (record r' { cong_flag = 0 }) = record {
      same = refl;
      spare = refl;
      state = refl;
    } in
    let control = calc_control_q-Keeps (record r' { cong_flag = 0 }) in
    Keeps-IsValid c.socks s _ (Keeps-trans chosen (Keeps-trans quota (Keeps-trans cleared control)))
      v

-- The update, when it is due.
due-IsValid :
    (c : Call) (s s' : Settings)
    → (b : Bool) → (if b then periodic c s else some s) ≡ some s'
    → IsValid c.socks s
    → IsValid c.socks s'
due-IsValid c s s' true h v = periodic-IsValid c s s' h v
due-IsValid c s s' false h v = let same : s ≡ s' = cc in rw (← same) v

normal-IsValid :
    (c : Call) (s s' : Settings) → normal c s ≡ some s' → IsValid c.socks s → IsValid c.socks s'
unfolding normal
normal-IsValid c s s' h v = elim (Option-cases (if is_due c s.reg then periodic c s else some s)) [
  | inl fault ↦ absurd (cc)
  | inr (t, done) ↦
      let same : adapt c t ≡ s' = cc (ap (λ o. o >>= λ (x : Settings). some (adapt c x)) done) in
      rw (← same) (adapt-IsValid c t (due-IsValid c s t (is_due c s.reg) done v))
]

checking-IsValid :
    (c : Call) (s : Settings) (ch : Checker) (p : Checked)
    → checking c s ch ≡ some p
    → IsValid c.socks s
    → IsValid c.socks p.settings
unfolding checking
checking-IsValid c s ch p h v =
    elim (Option-cases (path_checker c.kernel c.socks c.run_start s ch)) [
      | inl fault ↦ absurd (cc)
      | inr (q, done) ↦
          let t = q.settings in
          let r = update_bw c.kernel c.socks t.sys c.run_start true t.reg in
          let valid = path_checker-IsValid c.kernel c.socks c.run_start s ch q done v in
          let step =
            Keeps-trans (update_bw-Keeps c.kernel c.socks t.sys c.run_start true t.reg)
              (Keeps-trans (set_q-Keeps r) (calc_control_q-Keeps (set_q r))) in
          let same : record q { settings = set_reg t (calc_control_q (set_q r)) } ≡ p = cc in
          rw (← same) (Keeps-IsValid c.socks t _ step valid)
    ]

pub prepare-IsValid :
    (c : Call) (s : Settings) (ch : Checker) (p : Checked)
    → prepare c s ch ≡ some p
    → IsValid c.socks s
    → IsValid c.socks p.settings
unfolding prepare
prepare-IsValid c s ch p h v = elim (Bool-cases (nonzero s.sys.runpathcheck)) [
  | inl on ↦ checking-IsValid c s ch p (rw (on, prepare) at h) v
  | inr off ↦ elim (Option-cases (normal c s)) [
    | inl fault ↦ absurd (cc (rw (off, prepare) at h))
    | inr (t, done) ↦
        let same : record { settings = t; checker = ch } ≡ p = cc (rw (off, prepare) at h) in
        rw (← same) (normal-IsValid c s t done v)
  ]
]
