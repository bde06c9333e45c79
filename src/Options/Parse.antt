-- ===== src/Options/Parse.antt =====
-- `mptcp_parse_options` and `tcp_parse_mptcp_options` of mptcp_input.c.
use redundant_mptcp_r_mptcp.Prelude.{
  ℕ, zero, suc, ◌+◌, ◌-◌, ◌/◌, ◌%◌, Bool, true, false, not, ◌&&◌, ◌||◌, Option, none, some, List,
  ltb, leb, ◌==◌, u32, bit, if◌then◌else◌,
}
use redundant_mptcp_r_mptcp.Options.Wire.{
  byte, skip, from_raw, from_be16, from_be32, from_be64, first_bytes,
}
use redundant_mptcp_r_mptcp.Options.Header.{
  OptionsReceived, Parsed, tcpopt_eol, tcpopt_nop, tcpopt_mptcp, version_1, sub_capable, sub_join,
  sub_dss, sub_add_addr, sub_remove_addr, sub_prio, sub_fail, sub_fclose, len_capable_syn,
  len_capable_ack, len_join_syn, len_join_synack, len_join_ack, len_add_addr4, len_add_addr4_ver1,
  len_add_addr6, len_add_addr6_ver1, len_remove_addr, len_prio, len_prio_addr, len_fail, len_fclose,
  mptcp_sub_len_dss,
}

-- What the parser is given: `sysctl_mptcp_checksum`, CONFIG_IPV6, and the version of the connection,
-- which is there only with its socket.
pub record ParseEnv : Type 0 where
  pub checksum : Bool
  pub ipv6 : Bool
  pub version : Option ℕ

abbrev pub no_socket : (checksum ipv6 : Bool) → ParseEnv
no_socket checksum ipv6 = record { checksum = checksum; ipv6 = ipv6; version = none }

-- The four high bits of the third byte.
abbrev pub sub_of : List ℕ → ℕ
sub_of bs = byte bs 2 / 16

unfoldable pub parse_capable : ParseEnv → List ℕ → (opsize : ℕ) → OptionsReceived → OptionsReceived
parse_capable env bs opsize m =
    let m' = record m {
      saw_mpc = true;
      dss_csum = env.checksum || bit (byte bs 3) 7;
      mptcp_sender_key =
          if leb len_capable_syn opsize then from_raw 8 (skip 4 bs) else m.mptcp_sender_key;
      mptcp_receiver_key =
          if opsize == len_capable_ack then from_raw 8 (skip 12 bs) else m.mptcp_receiver_key;
      mptcp_ver = byte bs 2 % 16;
    } in
    if not (opsize == len_capable_syn) && not (opsize == len_capable_ack)
    then m
    else if bit (byte bs 3) 6
    then record m { drop_me = true }
    else if not (bit (byte bs 3) 0)
    then m
    else m'

unfoldable pub parse_join : List ℕ → (opsize : ℕ) → OptionsReceived → OptionsReceived
parse_join bs opsize m =
    let low = bit (byte bs 2) 0 in
    if opsize == len_join_syn
    then record m {
      is_mp_join = true;
      saw_mpc = true;
      low_prio = low;
      rem_id = byte bs 3;
      mptcp_rem_token = from_raw 4 (skip 4 bs);
      mptcp_recv_nonce = from_raw 4 (skip 8 bs);
    }
    else if opsize == len_join_synack
    then record m {
      saw_mpc = true;
      low_prio = low;
      rem_id = byte bs 3;
      mptcp_recv_tmac = from_raw 8 (skip 4 bs);
      mptcp_recv_nonce = from_raw 4 (skip 12 bs);
    }
    else if opsize == len_join_ack
    then record m { saw_mpc = true; join_ack = true; mptcp_recv_mac = first_bytes 20 (skip 4 bs) }
    else m

-- The mapping of a DSS option, `at` the offset of its bytes `bs`; `csum` tells whether the length is
-- that with a checksum.
unfoldable pub parse_mapping : (map_64 fin csum : Bool) → List ℕ → Parsed → Parsed
parse_mapping map_64 fin csum bs p =
    let tail = skip (if map_64 then 12 else 8) bs in
    record {
      mopt = record p.mopt {
        data_seq = if map_64 then u32 (from_be64 bs) else from_be32 bs;
        data_len = from_be16 tail;
      };
      tcb = record p.tcb {
        hdr_seq64_set = map_64 || p.tcb.hdr_seq64_set;
        hdr_seq = true;
        hdr_dss_csum = csum || p.tcb.hdr_dss_csum;
        hdr_fin = fin || p.tcb.hdr_fin;
      };
    }

-- `dss_off` counts from the TCP header, which is 20 bytes long without its options.
unfoldable pub parse_dss : (off : ℕ) → List ℕ → (opsize : ℕ) → Parsed → Parsed
unfolding mptcp_sub_len_dss parse_mapping
parse_dss off bs opsize p =
    let flags = byte bs 3 in
    let has_ack = bit flags 0 in
    let ack_64 = bit flags 1 in
    let has_map = bit flags 2 in
    let map_64 = bit flags 3 in
    let ack_len = if has_ack then (if ack_64 then 8 else 4) else 0 in
    let body = skip 4 bs in
    let acked = record p {
      mopt = record p.mopt {
        data_ack =
            if has_ack
            then (if ack_64 then u32 (from_be64 body) else from_be32 body)
            else p.mopt.data_ack;
      };
      tcb = record p.tcb { hdr_ack = has_ack || p.tcb.hdr_ack; dss_off = 20 + off + 4 + ack_len };
    } in
    let with_csum = opsize == mptcp_sub_len_dss has_ack ack_64 has_map map_64 true in
    let mapped = parse_mapping map_64 (bit flags 4) with_csum (skip ack_len body) acked in
    if not (opsize == mptcp_sub_len_dss has_ack ack_64 has_map map_64 false) && not with_csum
    then p
    else if has_map
    then mapped
    else acked

-- With or without the two bytes of a port.
is_valid_addropt_opsize : (ipv6 : Bool) → (mptcp_ver ipver opsize : ℕ) → Bool
is_valid_addropt_opsize ipv6 mptcp_ver ipver opsize =
    let one_of = λ (n : ℕ). (opsize == n) || (opsize == n + 2) in
    if ipv6 && ltb mptcp_ver version_1 && (ipver == 6)
    then one_of len_add_addr6
    else if ipv6 && leb version_1 mptcp_ver && (ipver == 6)
    then one_of len_add_addr6_ver1
    else if ltb mptcp_ver version_1 && (ipver == 4)
    then one_of len_add_addr4
    else if leb version_1 mptcp_ver && (ipver == 4)
    then one_of len_add_addr4_ver1
    else false

unfoldable pub parse_add_addr :
    ParseEnv → (off : ℕ) → List ℕ → (opsize : ℕ) → OptionsReceived → OptionsReceived
unfolding is_valid_addropt_opsize
parse_add_addr env off bs opsize m = elim env.version [
  | none ↦ m
  | some ver ↦
      if not (is_valid_addropt_opsize env.ipv6 ver (byte bs 2 % 16) opsize)
      then m
      else if m.saw_add_addr
      then record m { more_add_addr = true }
      else record m { saw_add_addr = true; add_addr_ptr = some off }
]

unfoldable pub parse_remove_addr : (off opsize : ℕ) → OptionsReceived → OptionsReceived
parse_remove_addr off opsize m =
    if ltb opsize len_remove_addr
    then m
    else if m.saw_rem_addr
    then record m { more_rem_addr = true }
    else record m { saw_rem_addr = true; rem_addr_ptr = some off }

unfoldable pub parse_prio : List ℕ → (opsize : ℕ) → OptionsReceived → OptionsReceived
parse_prio bs opsize m =
    let m' = record m { saw_low_prio = 1; low_prio = bit (byte bs 2) 0 } in
    if not (opsize == len_prio) && not (opsize == len_prio_addr)
    then m
    else if opsize == len_prio_addr
    then record m' { saw_low_prio = 2; prio_addr_id = byte bs 3 }
    else m'

unfoldable pub parse_fclose : List ℕ → (opsize : ℕ) → OptionsReceived → OptionsReceived
parse_fclose bs opsize m =
    if not (opsize == len_fclose)
    then m
    else record m { mp_fclose = true; mptcp_sender_key = from_raw 8 (skip 4 bs) }

-- The `switch` on the subtype; `off` is the offset of the option and `bs` the memory from there on.
unfoldable pub mptcp_parse_options : ParseEnv → (off : ℕ) → List ℕ → (opsize : ℕ) → Parsed → Parsed
unfolding parse_capable parse_join parse_dss parse_add_addr parse_remove_addr parse_prio
    parse_fclose
mptcp_parse_options env off bs opsize p =
    let sub = sub_of bs in
    let m = p.mopt in
    if sub == sub_capable
    then record p { mopt = parse_capable env bs opsize m }
    else if sub == sub_join
    then record p { mopt = parse_join bs opsize m }
    else if sub == sub_dss
    then parse_dss off bs opsize p
    else if sub == sub_add_addr
    then record p { mopt = parse_add_addr env off bs opsize m }
    else if sub == sub_remove_addr
    then record p { mopt = parse_remove_addr off opsize m }
    else if sub == sub_prio
    then record p { mopt = parse_prio bs opsize m }
    else if sub == sub_fail
    then (if opsize == len_fail then record p { mopt = record m { mp_fail = true } } else p)
    else if sub == sub_fclose
    then record p { mopt = parse_fclose bs opsize m }
    else p

-- The `while` loop over the options, of which `length` bytes are left. Every round takes one or more
-- of them, so as many rounds as there are bytes suffice.
unfoldable pub parse_loop : ParseEnv → (fuel length off : ℕ) → List ℕ → Parsed → Parsed
unfolding mptcp_parse_options
parse_loop env zero length off bs p = p
parse_loop env (suc fuel) length off bs p =
    let opcode = byte bs 0 in
    let opsize = byte bs 1 in
    let after_nop = parse_loop env fuel (length - 1) (off + 1) (skip 1 bs) p in
    let p' = if opcode == tcpopt_mptcp then mptcp_parse_options env off bs opsize p else p in
    let next = parse_loop env fuel (length - opsize) (off + opsize) (skip opsize bs) p' in
    if (length == 0) || (opcode == tcpopt_eol)
    then p
    else if opcode == tcpopt_nop
    then after_nop
    else if ltb opsize 2 || ltb length opsize
    then p
    else next

-- `tcp_parse_mptcp_options` passes no socket.
unfoldable pub tcp_parse_mptcp_options :
    (checksum ipv6 : Bool) → (length : ℕ) → List ℕ → Parsed → Parsed
unfolding parse_loop
tcp_parse_mptcp_options checksum ipv6 length bs p =
    parse_loop (no_socket checksum ipv6) length length 0 bs p
