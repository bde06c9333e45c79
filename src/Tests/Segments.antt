-- ===== src/Tests/Segments.antt =====
-- Options that are written and read.
use redundant_mptcp_r_mptcp.Prelude.{
  ℕ, ◌≡◌, refl, true, false, none, some, List, [], ◌∷◌, ◌++◌, ◌%◌, length, replicate, arith,
}
use redundant_mptcp_r_mptcp.Options.Wire.{raw, first_bytes, be16, be32, from_be16, from_be32}
use redundant_mptcp_r_mptcp.Options.Header.{OptionFlags, OutOptions, OutSock, OutSkb, Parsed}
use redundant_mptcp_r_mptcp.Options.Parse.{tcp_parse_mptcp_options}
use redundant_mptcp_r_mptcp.Options.Write.{Checksum, mptcp_save_dss_data_seq, mptcp_options_write}
use redundant_mptcp_r_mptcp.Options.Received.{with_saved, gets_segment, InRange}
use redundant_mptcp_r_mptcp.Options.RoundTrip.Segment.{parse-mptcp_options_write}

-- A third ACK with both keys, two removed addresses, a mapping and MP_PRIO.
abbrev flags : OptionFlags
flags = record {
  type_syn = false;
  type_synack = false;
  type_ack = true;
  mp_capable = true;
  data_ack = true;
  add_addr = false;
  mp_join = false;
  mp_fail = false;
  mp_fclose = false;
  remove_addr = true;
  mp_prio = true;
}

abbrev out : OutOptions
out = record {
  flags = flags;
  sender_key = 1234605616436508552;
  receiver_key = 77;
  token = 0;
  sender_nonce = 0;
  sender_truncated_mac = 0;
  join_low_prio = false;
  addr_id = 0;
  ver = 0;
  dss_csum = true;
  add_addr_v4 = false;
  add_addr_v6 = false;
  add_addr4 = (0, 0, 0);
  add_addr6 = (0, replicate 16 0, 0);
  remove_addrs = 6;
}

abbrev socket : OutSock
socket = record {
  mptcp_ver = 0;
  mpcb_dss_csum = false;
  csum_cutoff_seq = 0;
  rcv_nxt = 305419896;
  low_prio = true;
  sender_mac = replicate 20 0;
  write_seq = 1001;
  snt_isn = 1000;
}

abbrev segment : OutSkb
segment = record {
  seq = 4294967290;
  end_seq = 4;
  len = 10;
  is_seq = false;
  is_fin = false;
  is_inf = false;
  hdseq = 0;
  csum = 0;
  dss = [];
}

-- A checksum that is only for this test.
abbrev zero_checksum : Checksum
zero_checksum = record { csum_partial = λ bs n. n; csum_fold = λ n. n % 65536 }

abbrev nothing : Parsed
nothing = record {
  mopt = record {
    saw_mpc = false;
    dss_csum = false;
    drop_me = false;
    is_mp_join = false;
    join_ack = false;
    saw_low_prio = 0;
    low_prio = false;
    saw_add_addr = false;
    more_add_addr = false;
    saw_rem_addr = false;
    more_rem_addr = false;
    mp_fail = false;
    mp_fclose = false;
    rem_id = 0;
    prio_addr_id = 0;
    add_addr_ptr = none;
    rem_addr_ptr = none;
    data_ack = 0;
    data_seq = 0;
    data_len = 0;
    mptcp_ver = 0;
    mptcp_sender_key = 0;
    mptcp_receiver_key = 0;
    mptcp_rem_token = 0;
    mptcp_recv_nonce = 0;
    mptcp_recv_tmac = 0;
    mptcp_recv_mac = [];
  };
  tcb = record {
    hdr_seq = false;
    hdr_fin = false;
    hdr_ack = false;
    hdr_seq64_set = false;
    hdr_dss_csum = false;
    dss_off = 0;
  };
}

in_range : InRange socket out segment
in_range = record {
  ver = omega arith;
  sender_key = omega arith;
  receiver_key = omega arith;
  addr_id = omega arith;
  token = omega arith;
  sender_nonce = omega arith;
  sender_truncated_mac = omega arith;
  sender_mac = refl;
  addr6 = refl;
  rcv_nxt = omega arith;
  seq = omega arith;
}

abbrev bytes : List ℕ
bytes = mptcp_options_write false socket out (with_saved zero_checksum (some socket) segment)

-- 20 bytes of MP_CAPABLE, 8 of REMOVE_ADDR with its padding, 20 of DSS with two NOPs, 4 of MP_PRIO.
bytes_written : length bytes ≡ 52
unfolding mptcp_options_write mptcp_save_dss_data_seq raw first_bytes be32 be16
bytes_written = refl

mapping_read :
    let got = tcp_parse_mptcp_options false true 52 (bytes ++ (7 ∷ 7 ∷ [])) nothing in
    let m = got.mopt in ((m.data_seq ≡ 4294967290) × (m.data_len ≡ 10)) × (m.rem_addr_ptr ≡ some 20)
unfolding tcp_parse_mptcp_options mptcp_options_write mptcp_save_dss_data_seq raw first_bytes be32
    be16 from_be32 from_be16
mapping_read = ((refl, refl), refl)

-- The bytes behind the options are not read.
parse-mptcp_options_write_example :
    tcp_parse_mptcp_options false true (length bytes) (bytes ++ (7 ∷ 7 ∷ [])) nothing
    ≡ gets_segment false false zero_checksum (some socket) socket out segment 0 nothing
parse-mptcp_options_write_example =
    parse-mptcp_options_write false true false zero_checksum (some socket) socket out segment
      (7 ∷ 7 ∷ []) nothing refl in_range
