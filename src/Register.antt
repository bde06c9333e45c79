-- ===== src/Register.antt =====
-- rmptcp.h: the subflow record, the register `red_sk_reg`, the path index and the sysctl variables,
-- with what the scheduler reads of a kernel socket. A flag field is a record of Booleans, one for
-- each bit that the enum names; an unsigned field is a number, a signed one and a time an integer.
use redundant_mptcp_r_mptcp.Prelude.{
  ℕ, ◌+◌, ◌≡◌, Bool, true, false, List, [], replicate, ◌++◌, ℤ, pos, length, get_or,
}

-- The six bits of `red_sk.state`.
pub record SkState : Type 0 where
  pub active : Bool
  pub available : Bool
  pub enabled : Bool
  pub main : Bool
  pub cong : Bool
  pub sub : Bool

-- The four bits of `redundant_socket_register.state`.
pub record RedState : Type 0 where
  pub is_open : Bool
  pub in_recovery : Bool
  pub in_timeout : Bool
  pub in_cong : Bool

abbrev pub redf_open : RedState
redf_open = record { is_open = true; in_recovery = false; in_timeout = false; in_cong = false }

abbrev pub redf_recovery : RedState
redf_recovery = record { is_open = false; in_recovery = true; in_timeout = false; in_cong = false }

abbrev pub redf_timeout : RedState
redf_timeout = record { is_open = false; in_recovery = false; in_timeout = true; in_cong = false }

abbrev pub redf_cong : RedState
redf_cong = record { is_open = false; in_recovery = false; in_timeout = false; in_cong = true }

-- What a `switch` or an `==` on the whole field sees.
pub data Phase : Type 0 where
  opened recovery timed_out congested invalid : Phase

abbrev phase_of : Bool → Bool → Bool → Bool → Phase
phase_of true false false false = opened
phase_of false true false false = recovery
phase_of false false true false = timed_out
phase_of false false false true = congested
phase_of _ _ _ _ = invalid

abbrev pub phase : RedState → Phase
phase s = phase_of s.is_open s.in_recovery s.in_timeout s.in_cong

abbrev pub is_congested : Phase → Bool
is_congested congested = true
is_congested _ = false

-- `struct red_sk`. `sk` is the address of the socket, and 0 is NULL.
pub record RedSk : Type 0 where
  pub sk : ℕ
  pub state : SkState
  pub last_used : ℤ
  pub last_cong : ℤ
  pub seg_count : ℕ
  pub byte_count : ℕ
  pub byte_count_old : ℕ
  pub bandwidth : ℕ
  pub bandwidth_mean : ℕ
  pub send_period : ℤ
  pub send_period_mean : ℤ
  pub send_period_var : ℤ
  pub loss_ratio : ℕ

abbrev pub max_num_red_sk : ℕ
max_num_red_sk = 24

-- `struct redundant_socket_register`. The array `sk_list[MAX_NUM_RED_SK]` is kept in two parts: the
-- entries below `sk_list_size`, and in `spare` those from there to the end of the array, whose old
-- contents the code does not clear.
pub record Register : Type 0 where
  pub meta_sk : ℕ
  pub state : RedState
  pub cong_flag : ℕ
  pub last_ca_state : ℤ
  pub last_update : ℤ
  pub last_in_decrease : ℤ
  pub start_recovery : ℤ
  pub last_send : ℤ
  pub send_period : ℤ
  pub send_period_mean : ℤ
  pub send_period_var : ℤ
  pub send_period_max : ℤ
  pub send_period_max_before_cong : ℤ
  pub last_period_max : ℤ
  pub previous_skevent_i : ℕ
  pub timeout : ℕ
  pub in_time_cnt : ℕ
  pub timeout_start : ℤ
  pub total_bw : ℕ
  pub total_bw_mean : ℕ
  pub effective_util : ℕ
  pub effective_util_mean : ℕ
  pub effective_util_mean_mean : ℕ
  pub effective_util_var : ℕ
  pub effective_util_mean_before_cong : ℕ
  pub effective_byte_count : ℕ
  pub effective_byte_count_old : ℕ
  pub sk_reg_update_period : ℤ
  pub max_sk_noshow : ℕ
  pub red_timeout : ℤ
  pub enable_mask : ℕ  -- the bit pattern of the int
  pub collapse_th : ℤ
  pub q_control : ℕ
  pub q_control_high : ℕ
  pub q_control_low : ℕ
  pub q_actual : ℕ
  pub q_target : ℕ
  pub q_target_user : ℕ
  pub num_enabled : ℕ
  pub sk_list : List RedSk
  pub spare : List RedSk

abbrev pub sk_list_size : Register → ℕ
sk_list_size r = length r.sk_list

-- The two parts fill the array.
abbrev pub IsArray : Register → Type 0
IsArray r = length r.sk_list + length r.spare ≡ max_num_red_sk

-- A slot of the array in its initial state, all zero.
abbrev pub empty_slot : RedSk
empty_slot = record {
  sk = 0;
  state = record {
    active = false;
    available = false;
    enabled = false;
    main = false;
    cong = false;
    sub = false;
  };
  last_used = pos 0;
  last_cong = pos 0;
  seg_count = 0;
  byte_count = 0;
  byte_count_old = 0;
  bandwidth = 0;
  bandwidth_mean = 0;
  send_period = pos 0;
  send_period_mean = pos 0;
  send_period_var = pos 0;
  loss_ratio = 0;
}

-- The initial value of `red_sk_reg` in rmptcp.c; what the initializer does not name is 0.
abbrev pub initial : Register
initial = record {
  meta_sk = 0;
  state = redf_open;
  cong_flag = 0;
  last_ca_state = pos 0;
  last_update = pos 0;
  last_in_decrease = pos 0;
  start_recovery = pos 0;
  last_send = pos 0;
  send_period = pos 0;
  send_period_mean = pos 0;
  send_period_var = pos 0;
  send_period_max = pos 0;
  send_period_max_before_cong = pos 0;
  last_period_max = pos 0;
  previous_skevent_i = 0;
  timeout = 0;
  in_time_cnt = 0;
  timeout_start = pos 0;
  total_bw = 0;
  total_bw_mean = 0;
  effective_util = 0;
  effective_util_mean = 0;
  effective_util_mean_mean = 0;
  effective_util_var = 0;
  effective_util_mean_before_cong = 0;
  effective_byte_count = 0;
  effective_byte_count_old = 0;
  sk_reg_update_period = pos 0;
  max_sk_noshow = 0;
  red_timeout = pos 0;
  enable_mask = 0;
  collapse_th = pos 0;
  q_control = 0;
  q_control_high = 0;
  q_control_low = 0;
  q_actual = 0;
  q_target = 0;
  q_target_user = 0;
  num_enabled = 0;
  sk_list = [];
  spare = replicate max_num_red_sk empty_slot;
}

-- `sk_list[i]` at any index of the array.
abbrev pub slot : Register → ℕ → RedSk
slot r i = get_or (r.sk_list ++ r.spare) i empty_slot

-- `struct pathMeasurements` and `struct pathIndex`; the addresses are in order of discovery and
-- their counts are the lengths. `path_measurements` is the array `pM`.
pub record PathMeasurements : Type 0 where
  pub mask : ℕ
  pub lowest_rtt : ℕ
  pub rtt_sum : ℕ
  pub total_bw : ℕ
  pub min_subflow_bw : ℕ

pub record PathIndex : Type 0 where
  pub num_path_combinations : ℕ
  pub max_num_parallel_paths : ℕ
  pub active : ℤ
  pub src_addr : List ℕ
  pub dst_addr : List ℕ
  pub path_measurements : List PathMeasurements

-- The sysctl variables of rMPTCP, all `int`.
pub record Sysctl : Type 0 where
  pub quota : ℤ
  pub skreg_update : ℤ
  pub maxnoshow : ℤ
  pub timeout : ℤ
  pub enablemask : ℕ  -- the bit pattern of the int
  pub cs_hold : ℤ
  pub adaptiv_r_enable : ℤ
  pub adaptiv_path_enable : ℤ
  pub main_ratio : ℤ
  pub varperiod_th : ℤ
  pub num_in_time : ℤ
  pub runpathcheck : ℤ
  pub runpathcheck_duration : ℤ
  pub set_path : ℤ
  pub collapse_th : ℤ
  pub enable_kick : ℤ
  pub min_delta_t : ℤ

-- What the scheduler reads of the socket at an address: fields of `struct sock`, `tcp_sock`,
-- `mptcp_tcp_sock` and `inet_connection_sock`, and the values of the kernel's inline helpers
-- (`tcp_passive_fastopen`, `tcp_is_reno`, `tcp_packets_in_flight`, `tcp_wnd_end`).
pub record Sock : Type 0 where
  pub saddr : ℕ
  pub daddr : ℕ
  pub passive_fastopen : Bool
  pub sending_state : Bool  -- `sk_state` is TCP_ESTABLISHED or TCP_CLOSE_WAIT
  pub pre_established : Bool
  pub pf : Bool
  pub ca_state : ℕ
  pub is_reno : Bool
  pub snd_una : ℕ
  pub high_seq : ℕ
  pub fully_established : Bool
  pub second_packet : Bool
  pub last_end_data_seq : ℕ
  pub packets_in_flight : ℕ
  pub snd_cwnd : ℕ
  pub mss_cache : ℕ
  pub write_seq : ℕ
  pub snd_nxt : ℕ
  pub wnd_end : ℕ
  pub srtt_us : ℕ
  pub packets_out : ℕ
  pub lost_out : ℕ

-- The sockets by address.
abbrev pub Socks : Type 0
Socks = ℕ → Sock

-- `enum tcp_ca_state` of linux/tcp.h.
abbrev pub tcp_ca_recovery : ℕ
tcp_ca_recovery = 3

abbrev pub tcp_ca_loss : ℕ
tcp_ca_loss = 4

-- The segment that is to be sent: TCP_SKB_CB(skb)->seq and skb->len.
pub record Skb : Type 0 where
  pub seq : ℕ
  pub len : ℕ

-- The kernel's functions on times and on sequence numbers, which are not part of the repository.
pub record Kernel : Type 0 where
  pub ktime_us_delta : ℤ → ℤ → ℤ
  pub ktime_to_us : ℤ → ℤ
  pub ktime_before : ℤ → ℤ → Bool
  pub ktime_add_ms : ℤ → ℕ → ℤ
  pub seq_before : ℕ → ℕ → Bool
