-- ===== src/Options/Header.antt =====
-- mptcp.h: the numbers of the MPTCP options, what a sender puts into them and what a receiver gets.
-- `TCPOPT_EOL`, `TCPOPT_NOP` and `TCPOPT_MPTCP` are those of the kernel's tcp.h.
use redundant_mptcp_r_mptcp.Prelude.{ℕ, ◌+◌, ◌*◌, Bool, Option, List, to_ℕ}

abbrev pub tcpopt_eol : ℕ
tcpopt_eol = 0

abbrev pub tcpopt_nop : ℕ
tcpopt_nop = 1

abbrev pub tcpopt_mptcp : ℕ
tcpopt_mptcp = 30

-- `MPTCP_VERSION_1`
abbrev pub version_1 : ℕ
version_1 = 1

-- `MPTCP_SUB_...`
abbrev pub sub_capable : ℕ
sub_capable = 0

abbrev pub sub_join : ℕ
sub_join = 1

abbrev pub sub_dss : ℕ
sub_dss = 2

abbrev pub sub_add_addr : ℕ
sub_add_addr = 3

abbrev pub sub_remove_addr : ℕ
sub_remove_addr = 4

abbrev pub sub_prio : ℕ
sub_prio = 5

abbrev pub sub_fail : ℕ
sub_fail = 6

abbrev pub sub_fclose : ℕ
sub_fclose = 7

-- `MPTCP_SUB_LEN_...`
abbrev pub len_capable_syn : ℕ
len_capable_syn = 12

abbrev pub len_capable_ack : ℕ
len_capable_ack = 20

abbrev pub len_join_syn : ℕ
len_join_syn = 12

abbrev pub len_join_synack : ℕ
len_join_synack = 16

abbrev pub len_join_ack : ℕ
len_join_ack = 24

abbrev pub len_add_addr4 : ℕ
len_add_addr4 = 8

abbrev pub len_add_addr4_ver1 : ℕ
len_add_addr4_ver1 = 16

abbrev pub len_add_addr6 : ℕ
len_add_addr6 = 20

abbrev pub len_add_addr6_ver1 : ℕ
len_add_addr6_ver1 = 28

abbrev pub len_remove_addr : ℕ
len_remove_addr = 4

abbrev pub len_prio : ℕ
len_prio = 3

abbrev pub len_prio_addr : ℕ
len_prio_addr = 4

abbrev pub len_fail : ℕ
len_fail = 12

abbrev pub len_fclose : ℕ
len_fclose = 12

-- `mptcp_sub_len_dss`, from the bits A, a, M and m of the option.
unfoldable pub mptcp_sub_len_dss : (has_ack ack_64 has_map map_64 csum : Bool) → ℕ
mptcp_sub_len_dss has_ack ack_64 has_map map_64 csum =
    4 + to_ℕ has_ack * (4 + to_ℕ ack_64 * 4) + to_ℕ has_map * (10 + to_ℕ map_64 * 4 + to_ℕ csum * 2)

-- The bits of `mptcp_options`.
pub record OptionFlags : Type 0 where
  pub type_syn : Bool
  pub type_synack : Bool
  pub type_ack : Bool
  pub mp_capable : Bool
  pub data_ack : Bool
  pub add_addr : Bool
  pub mp_join : Bool
  pub mp_fail : Bool
  pub mp_fclose : Bool
  pub remove_addr : Bool
  pub mp_prio : Bool

-- `struct tcp_out_options`, as far as MPTCP uses it. An IPv6 address is its 16 bytes.
pub record OutOptions : Type 0 where
  pub flags : OptionFlags
  pub sender_key : ℕ
  pub receiver_key : ℕ
  pub token : ℕ
  pub sender_nonce : ℕ
  pub sender_truncated_mac : ℕ
  pub join_low_prio : Bool
  pub addr_id : ℕ
  pub ver : ℕ
  pub dss_csum : Bool
  pub add_addr_v4 : Bool
  pub add_addr_v6 : Bool
  pub add_addr4 : ℕ × ℕ × ℕ  -- addr_id, addr, trunc_mac
  pub add_addr6 : ℕ × List ℕ × ℕ
  pub remove_addrs : ℕ

-- What the writer reads of the subflow's socket and its connection.
pub record OutSock : Type 0 where
  pub mptcp_ver : ℕ
  pub mpcb_dss_csum : Bool
  pub csum_cutoff_seq : ℕ
  pub rcv_nxt : ℕ
  pub low_prio : Bool
  pub sender_mac : List ℕ
  pub write_seq : ℕ
  pub snt_isn : ℕ

-- The segment: its control block, the high-order half of its sequence number, its checksum, and the
-- 20 bytes of the saved mapping.
pub record OutSkb : Type 0 where
  pub seq : ℕ
  pub end_seq : ℕ
  pub len : ℕ
  pub is_seq : Bool
  pub is_fin : Bool
  pub is_inf : Bool
  pub hdseq : ℕ
  pub csum : ℕ
  pub dss : List ℕ

-- `struct mptcp_options_received`. A pointer to an option is its offset from the first one.
pub record OptionsReceived : Type 0 where
  pub saw_mpc : Bool
  pub dss_csum : Bool
  pub drop_me : Bool
  pub is_mp_join : Bool
  pub join_ack : Bool
  pub saw_low_prio : ℕ
  pub low_prio : Bool
  pub saw_add_addr : Bool
  pub more_add_addr : Bool
  pub saw_rem_addr : Bool
  pub more_rem_addr : Bool
  pub mp_fail : Bool
  pub mp_fclose : Bool
  pub rem_id : ℕ
  pub prio_addr_id : ℕ
  pub add_addr_ptr : Option ℕ
  pub rem_addr_ptr : Option ℕ
  pub data_ack : ℕ
  pub data_seq : ℕ
  pub data_len : ℕ
  pub mptcp_ver : ℕ
  pub mptcp_sender_key : ℕ
  pub mptcp_receiver_key : ℕ
  pub mptcp_rem_token : ℕ
  pub mptcp_recv_nonce : ℕ
  pub mptcp_recv_tmac : ℕ
  pub mptcp_recv_mac : List ℕ

-- What the parser sets in the control block of the segment.
pub record ControlBlock : Type 0 where
  pub hdr_seq : Bool
  pub hdr_fin : Bool
  pub hdr_ack : Bool
  pub hdr_seq64_set : Bool
  pub hdr_dss_csum : Bool
  pub dss_off : ℕ

-- Both, as the parser changes them.
pub record Parsed : Type 0 where
  pub mopt : OptionsReceived
  pub tcb : ControlBlock
