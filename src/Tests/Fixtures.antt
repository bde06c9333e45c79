-- ===== src/Tests/Fixtures.antt =====
-- A kernel, sockets, settings and registers for the tests.
use redundant_mptcp_r_mptcp.Prelude.{
  ℕ, ◌*◌, true, false, List, [], ◌∷◌, replicate, ℤ, pos, ◌+ℤ◌, ◌-ℤ◌, quot, ltb_ℤ, ltb, ◌==◌,
  if◌then◌else◌,
}
use redundant_mptcp_r_mptcp.Register.{
  RedSk, Register, Sock, Socks, Skb, Kernel, Sysctl, PathIndex, empty_slot, initial,
}
use redundant_mptcp_r_mptcp.Settings.{Settings, empty_measurements}
use redundant_mptcp_r_mptcp.PathCheck.{Checker}
use redundant_mptcp_r_mptcp.Scheduler.{Call}

-- Times in nanoseconds; sequence numbers that do not wrap.
abbrev pub clock : Kernel
clock = record {
  ktime_us_delta = λ a b. quot (a -ℤ b) 1000;
  ktime_to_us = λ a. quot a 1000;
  ktime_before = λ a b. ltb_ℤ a b;
  ktime_add_ms = λ a ms. a +ℤ pos (ms * 1000000);
  seq_before = λ a b. ltb a b;
}

-- An established socket with an open window.
abbrev pub sock_at : (saddr daddr : ℕ) → Sock
sock_at s d = record {
  saddr = s;
  daddr = d;
  passive_fastopen = false;
  sending_state = true;
  pre_established = false;
  pf = false;
  ca_state = 0;
  is_reno = false;
  snd_una = 100;
  high_seq = 0;
  fully_established = true;
  second_packet = false;
  last_end_data_seq = 0;
  packets_in_flight = 2;
  snd_cwnd = 10;
  mss_cache = 1400;
  write_seq = 500;
  snd_nxt = 500;
  wnd_end = 9000;
  srtt_us = 8000;
  packets_out = 0;
  lost_out = 0;
}

-- Socket 1 on the first path, 2 on the second, 3 in recovery on the third.
abbrev pub sockets : Socks
sockets sk =
    if sk == 1
    then sock_at 10 20
    else if sk == 2
    then sock_at 11 21
    else record (sock_at 12 22) { ca_state = 3 }

abbrev pub segment : Skb
segment = record { seq = 700; len = 1400 }

-- An enabled main subflow on a socket, last used at a time.
abbrev pub subflow : (sk : ℕ) → (last_used : ℤ) → RedSk
subflow sk t = record empty_slot {
  sk = sk;
  last_used = t;
  bandwidth_mean = 1000;
  state = record {
    active = true;
    available = true;
    enabled = true;
    main = true;
    cong = false;
    sub = false;
  };
}

abbrev pub two_subflows : List RedSk
two_subflows = subflow 1 (pos 5000000) ∷ subflow 2 (pos 6000000) ∷ []

-- Two subflows in the open state.
abbrev pub open_reg : Register
open_reg = record initial {
  meta_sk = 7;
  sk_list = two_subflows;
  spare = replicate 22 empty_slot;
  num_enabled = 2;
  enable_mask = 3;
  q_target_user = 100;
  q_control = 1;
  last_update = pos 9000000;
  last_send = pos 9000000;
  sk_reg_update_period = pos 20000000;
  max_sk_noshow = 20000;
  red_timeout = pos 50;
  collapse_th = pos 90;
}

-- The settings that the source starts with.
abbrev pub defaults : Sysctl
defaults = record {
  quota = pos 100;
  skreg_update = pos 20;
  maxnoshow = pos 20000;
  timeout = pos 50;
  enablemask = 0xffff;
  cs_hold = pos 2000;
  adaptiv_r_enable = pos 0;
  adaptiv_path_enable = pos 1;
  main_ratio = pos 2;
  varperiod_th = pos 30;
  num_in_time = pos 20;
  runpathcheck = pos 0;
  runpathcheck_duration = pos 5;
  set_path = pos 0;
  collapse_th = pos 90;
  enable_kick = pos 1;
  min_delta_t = pos 20000;
}

abbrev pub no_paths : PathIndex
no_paths = record {
  num_path_combinations = 0;
  max_num_parallel_paths = 0;
  active = pos 0;
  src_addr = [];
  dst_addr = [];
  path_measurements = replicate 24 empty_measurements;
}

abbrev pub open_settings : Settings
open_settings = record { reg = open_reg; sys = defaults; paths = no_paths }

abbrev pub idle_checker : Checker
idle_checker = record { running = false; test_index = 0; start_last_combination = pos 0 }

abbrev pub now : ℤ
now = pos 10000000

abbrev pub call : Call
call = record {
  kernel = clock;
  socks = sockets;
  subflows = 1 ∷ 2 ∷ [];
  entail = λ sk. true;
  meta_sk = 7;
  skb = segment;
  reinject = false;
  run_start = now;
}
