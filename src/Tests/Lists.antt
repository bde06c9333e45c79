-- ===== src/Tests/Lists.antt =====
-- The list of subflows at concrete registers.
use redundant_mptcp_r_mptcp.Prelude.{
  ◌≡◌, ◌≤◌, refl, ◌↔◌, true, false, none, some, List, [], ◌∷◌, ◌++◌, pos, All, length, replicate,
  nonzero, arith,
}
use redundant_mptcp_r_mptcp.Register.{RedSk, Register, IsArray, slot, empty_slot}
use redundant_mptcp_r_mptcp.SkList.{position, fill, insert_sk}
use redundant_mptcp_r_mptcp.SkList.Insert.{
  IsSorted, insert_sk-none-iff-full, insert_sk-IsSorted, insert_sk_inherits,
}
use redundant_mptcp_r_mptcp.Main.{update_main_sk}
use redundant_mptcp_r_mptcp.Main.Choice.{any, is_usable_main, any-update_main_sk}
use redundant_mptcp_r_mptcp.Check.{kick, limit_control, sweep, check_avail_sk}
use redundant_mptcp_r_mptcp.Check.Counts.{count_avail}
use redundant_mptcp_r_mptcp.Check.Kick.{Kicked, kick-Kicked}
use redundant_mptcp_r_mptcp.Check.Scan.{Ready}
use redundant_mptcp_r_mptcp.Quota.Actual.{Stepped}
use redundant_mptcp_r_mptcp.Check.Decision.{check_avail_sk_sends, check_avail_sk_target}
use redundant_mptcp_r_mptcp.Tests.Fixtures.{
  clock, sockets, defaults, now, open_reg, segment, subflow, two_subflows,
}
use redundant_mptcp_r_mptcp.Tests.Program.{program}

-- Socket 3 is new: the register after it was added, and one that is full.
abbrev three_reg : Register
three_reg = record open_reg {
  sk_list = two_subflows ++ (fill now 3 empty_slot ∷ []);
  spare = replicate 21 empty_slot;
}

abbrev full_reg : Register
full_reg = record open_reg { sk_list = replicate 24 (subflow 1 (pos 0)); spare = [] }

inserted : insert_sk sockets now 3 open_reg ≡ some three_reg
unfolding program insert_sk
inserted = refl

insert_sk-IsSorted_example :
    IsSorted sockets three_reg.sk_list
    × IsArray three_reg
    × ((pre post : List RedSk) × (x : RedSk) × (two_subflows ≡ pre ++ post)
        × (three_reg.sk_list ≡ pre ++ (fill now 3 x ∷ post)))
insert_sk-IsSorted_example =
    insert_sk-IsSorted sockets now 3 open_reg three_reg inserted refl ((refl, tt), (tt, tt))

insert_sk-none-iff-full_example :
    (insert_sk sockets now 3 full_reg ≡ none) ↔ (length full_reg.sk_list ≡ 24)
insert_sk-none-iff-full_example = insert_sk-none-iff-full sockets now 3 full_reg refl

insert_sk_inherits_example :
    let i = position sockets 12 22 open_reg.sk_list in
    (slot three_reg i).bandwidth_mean ≡ (slot open_reg i).bandwidth_mean
insert_sk_inherits_example = insert_sk_inherits sockets now 3 open_reg three_reg inserted

-- The mask enables the second subflow only.
abbrev masked : Register
masked = record open_reg { enable_mask = 2 }

any-update_main_sk_example :
    any is_usable_main (update_main_sk sockets defaults open_reg).sk_list ≡ true
any-update_main_sk_example = any-update_main_sk sockets defaults open_reg refl

-- One copy is asked for and two subflows are available: the one used last is taken out.
kicked_last : count_avail (kick clock 1 2 2 two_subflows).0 ≡ 1
unfolding program
kicked_last = refl

kick-Kicked_example : Kicked 1 two_subflows (kick clock 1 2 2 two_subflows)
kick-Kicked_example = kick-Kicked clock 1 two_subflows (omega arith) (omega arith)

check_sends : (check_avail_sk clock sockets defaults (some segment) now open_reg).1 ≡ true
unfolding program
check_sends = refl

check_avail_sk_sends_example :
    let r' = (check_avail_sk clock sockets defaults (some segment) now open_reg).0 in
    (1 ≤ count_avail r'.sk_list)
    × All (Ready clock sockets (some segment)) r'.sk_list
    × Stepped (count_avail r'.sk_list) 0 r'.q_actual
    × (r'.timeout_start ≡ pos 0)
check_avail_sk_sends_example =
    check_avail_sk_sends clock sockets (some segment) defaults now open_reg (omega arith)
      (omega arith) check_sends

check_avail_sk_target_example :
    let s = sweep clock sockets (some segment) now 20000 open_reg.sk_list open_reg.spare in
    let out = check_avail_sk clock sockets defaults (some segment) now open_reg in
    (out.1 ≡ true)
    × (nonzero defaults.enable_kick ≡ true
        → Kicked (limit_control open_reg) s.kept (out.0.sk_list, count_avail out.0.sk_list))
    × (nonzero defaults.enable_kick ≡ false → out.0.sk_list ≡ s.kept)
unfolding program
check_avail_sk_target_example =
    check_avail_sk_target clock sockets (some segment) defaults now open_reg (omega arith)
      (omega arith)
