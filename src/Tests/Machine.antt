-- ===== src/Tests/Machine.antt =====
-- The state machine, the settings and the transmission at concrete registers.
use redundant_mptcp_r_mptcp.Prelude.{
  ℕ, ◌≡◌, ◌≢◌, ◌≤◌, ◌<◌, ◌^◌, refl, ◌↔◌, Bool, true, false, [], ◌∷◌, pos, negsuc, All, arith, ◌==◌,
  not,
}
use redundant_mptcp_r_mptcp.Register.{
  Register, phase, opened, recovery, congested, invalid, redf_cong,
}
use redundant_mptcp_r_mptcp.Failure.{check_failure}
use redundant_mptcp_r_mptcp.Failure.Machine.{Move, check_failure-Move}
use redundant_mptcp_r_mptcp.Failure.Congestion.{
  Failed, Left, check_failure_enters, check_failure_leaves,
}
use redundant_mptcp_r_mptcp.Send.{send_skb}
use redundant_mptcp_r_mptcp.Send.Delivery.{
  Charged, Accepts, IsIdle, send_skb_delivers, send_skb-iff-Accepts,
}
use redundant_mptcp_r_mptcp.Settings.{Settings, update_sysctl, empty_measurements}
use redundant_mptcp_r_mptcp.Settings.Ranges.{InRange, update_sysctl-InRange}
use redundant_mptcp_r_mptcp.Tests.Fixtures.{
  clock, sockets, defaults, now, open_reg, open_settings, no_paths, segment, two_subflows,
}
use redundant_mptcp_r_mptcp.Tests.Program.{program}

-- A timeout that is too long to wait for a second one.
abbrev late_reg : Register
late_reg = record open_reg { timeout = 90000; send_period_max = pos 40000 }

late_fails : phase (check_failure clock sockets defaults now late_reg).state ≡ congested
unfolding program
late_fails = refl

check_failure-Move_example :
    let next = phase (check_failure clock sockets defaults now late_reg).state in
    Move opened next × (next ≢ invalid)
check_failure-Move_example = check_failure-Move clock sockets defaults now late_reg (λ e. cc)

check_failure_enters_example : Failed now (check_failure clock sockets defaults now late_reg)
check_failure_enters_example =
    check_failure_enters clock sockets defaults now late_reg refl (omega arith) (λ e. cc) late_fails

-- The hold period of the congestion is over.
abbrev healed_reg : Register
healed_reg = record open_reg { state = redf_cong; last_ca_state = negsuc 2000000000 }

healed : phase (check_failure clock sockets defaults now healed_reg).state ≡ recovery
unfolding program
healed = refl

check_failure_leaves_example :
    Left now healed_reg (check_failure clock sockets defaults now healed_reg)
check_failure_leaves_example =
    check_failure_leaves clock sockets defaults now healed_reg refl (λ e. cc healed)

-- Every socket but 2 takes the segment.
abbrev all_but_2 : ℕ → Bool
all_but_2 sk = not (sk == 2)

abbrev all_take : ℕ → Bool
all_take sk = true

send_skb-iff-Accepts_example :
    ((send_skb all_take segment false now open_reg).2 ≡ true) ↔ Accepts all_take two_subflows
send_skb-iff-Accepts_example = send_skb-iff-Accepts all_take segment false now open_reg

send_skb_delivers_example :
    let (r', sent, done) = send_skb all_take segment false now open_reg in
    (sent ≡ 1 ∷ 2 ∷ [])
    × Charged now 1400 two_subflows r'.sk_list
    × All IsIdle r'.sk_list
    × (r'.effective_byte_count ≡ 1400)
unfolding program
send_skb_delivers_example = send_skb_delivers all_take segment false now open_reg refl

update_sysctl-InRange_example :
    let s' = update_sysctl open_settings in
    InRange s'.reg
    × (100 ≤ s'.reg.q_target_user)
    × (s'.reg.q_target_user < 2 ^ 31)
    × (s'.reg.collapse_th ≡ pos 90)
update_sysctl-InRange_example = update_sysctl-InRange open_settings (omega arith)

-- Two combinations are known, and the user asks for the next one.
abbrev choosing : Settings
choosing = record open_settings {
  sys = record defaults { set_path = pos 1 };
  paths = record no_paths {
    num_path_combinations = 2;
    path_measurements =
        record empty_measurements { mask = 6 } ∷ record empty_measurements { mask = 9 } ∷ [];
  };
}

chosen_mask : (update_sysctl choosing).reg.enable_mask ≡ 9
unfolding program
chosen_mask = refl

abbrev negative_noshow : Settings
negative_noshow = record open_settings { sys = record defaults { maxnoshow = negsuc 0 } }
