-- ===== src/Options/Write.antt =====
-- `mptcp_options_write` of mptcp_output.c and the functions that it calls. Each part gives the bytes
-- that it writes; where the source does not move the pointer on, the next part writes over them, and
-- there are none.
use redundant_mptcp_r_mptcp.Prelude.{
  ℕ, zero, suc, ◌+◌, ◌-◌, ◌*◌, ◌/◌, ◌%◌, ◌^◌, Bool, true, false, not, ◌&&◌, ◌||◌, List, [], ◌∷◌,
  ◌++◌, ltb, ◌==◌, to_ℕ, sub32, bit, length, replicate, if◌then◌else◌,
}
use redundant_mptcp_r_mptcp.Options.Wire.{raw, be16, be32, be64, skip, first_bytes}
use redundant_mptcp_r_mptcp.Options.Header.{
  OutOptions, OutSock, OutSkb, tcpopt_eol, tcpopt_nop, tcpopt_mptcp, version_1, sub_capable,
  sub_join, sub_dss, sub_add_addr, sub_remove_addr, sub_prio, sub_fail, sub_fclose, len_capable_syn,
  len_capable_ack, len_join_syn, len_join_synack, len_join_ack, len_add_addr4, len_add_addr4_ver1,
  len_add_addr6, len_add_addr6_ver1, len_remove_addr, len_prio, len_fail, len_fclose,
  mptcp_sub_len_dss,
}

-- The kernel's checksum functions.
pub record Checksum : Type 0 where
  pub csum_partial : List ℕ → ℕ → ℕ
  pub csum_fold : ℕ → ℕ

-- The first three bytes of an option.
abbrev pub header : (len sub low : ℕ) → List ℕ
header len sub low = tcpopt_mptcp ∷ len ∷ (sub * 16 + low) ∷ []

unfoldable pub write_capable : OutOptions → List ℕ
write_capable o =
    let flags = to_ℕ o.dss_csum * 2 ^ 7 + 1 in
    let syn = header len_capable_syn sub_capable (o.ver % 16) ++ (flags ∷ raw 8 o.sender_key) in
    let ack =
      header len_capable_ack sub_capable (o.ver % 16)
      ++ (flags ∷ (raw 8 o.sender_key ++ raw 8 o.receiver_key)) in
    if o.flags.type_syn || o.flags.type_synack then syn else if o.flags.type_ack then ack else []

-- On a third ACK the bit `b` is not written and keeps what the memory holds, `stale`.
unfoldable pub write_join : (stale : Bool) → OutSock → OutOptions → List ℕ
write_join stale tp o =
    let id = o.addr_id % 256 in
    let low = to_ℕ o.join_low_prio in
    if o.flags.type_syn
    then header len_join_syn sub_join low ++ (id ∷ (raw 4 o.token ++ raw 4 o.sender_nonce))
    else if o.flags.type_synack
    then header len_join_synack sub_join low
      ++ (id ∷ (raw 8 o.sender_truncated_mac ++ raw 4 o.sender_nonce))
    else if o.flags.type_ack
    then header len_join_ack sub_join (to_ℕ stale) ++ (0 ∷ tp.sender_mac)
    else []

unfoldable pub write_add_addr : OutSock → OutOptions → List ℕ
write_add_addr tp o =
    let (id4, addr4, mac4) = o.add_addr4 in
    let (id6, addr6, mac6) = o.add_addr6 in
    let old = ltb tp.mptcp_ver version_1 in
    if o.add_addr_v4
    then (if old
        then header len_add_addr4 sub_add_addr 4 ++ (id4 % 256 ∷ raw 4 addr4)
        else header len_add_addr4_ver1 sub_add_addr 4 ++ (id4 % 256 ∷ (raw 4 addr4 ++ raw 8 mac4)))
    else if o.add_addr_v6
    then (if old
        then header len_add_addr6 sub_add_addr 6 ++ (id6 % 256 ∷ addr6)
        else header len_add_addr6_ver1 sub_add_addr 6 ++ (id6 % 256 ∷ (addr6 ++ raw 8 mac6)))
    else []

-- `mptcp_for_each_bit_set` over a u16: the indices of the set bits, from `i` on.
pub set_bits : (rounds i word : ℕ) → List ℕ
set_bits zero i word = []
set_bits (suc rounds) i word =
    let rest = set_bits rounds (suc i) word in if bit word i then i ∷ rest else rest

-- The loop of the source clears one set bit in each round and counts the rounds.
unfoldable pub mptcp_sub_len_remove_addr : (bitfield : ℕ) → ℕ
unfolding set_bits
mptcp_sub_len_remove_addr bitfield = len_remove_addr + length (set_bits 16 0 bitfield) - 1

unfoldable pub mptcp_sub_len_remove_addr_align : (bitfield : ℕ) → ℕ
unfolding mptcp_sub_len_remove_addr
mptcp_sub_len_remove_addr_align bitfield = (mptcp_sub_len_remove_addr bitfield + 3) / 4 * 4

unfoldable pub write_remove_addr : OutOptions → List ℕ
unfolding mptcp_sub_len_remove_addr mptcp_sub_len_remove_addr_align
write_remove_addr o =
    let len = mptcp_sub_len_remove_addr o.remove_addrs in
    header len sub_remove_addr 0
    ++ (set_bits 16 0 o.remove_addrs
        ++ replicate (mptcp_sub_len_remove_addr_align o.remove_addrs - len) tcpopt_nop)

unfoldable pub write_fail : OutSock → List ℕ
write_fail tp = header len_fail sub_fail 0 ++ (0 ∷ be64 tp.csum_cutoff_seq)

unfoldable pub write_fclose : OutOptions → List ℕ
write_fclose o = header len_fclose sub_fclose 0 ++ (0 ∷ raw 8 o.receiver_key)

-- The header of a DSS option with its data ACK.
unfoldable pub mptcp_write_dss_data_ack : OutSock → OutSkb → List ℕ
unfolding mptcp_sub_len_dss
mptcp_write_dss_data_ack tp skb =
    header (mptcp_sub_len_dss true false skb.is_seq false tp.mpcb_dss_csum) sub_dss 0
    ++ ((1 + to_ℕ skb.is_seq * 4 + to_ℕ skb.is_fin * 16) ∷ be32 tp.rcv_nxt)

-- The mapping: the data sequence number, the subflow's, the length, and the checksum or two NOPs.
unfoldable pub mptcp_write_dss_mapping : Checksum → OutSock → OutSkb → List ℕ
mptcp_write_dss_mapping k tp skb =
    let subseq = if skb.is_fin && (skb.len == 0) then 0 else sub32 tp.write_seq tp.snt_isn in
    let data_len = if skb.is_inf then 0 else sub32 skb.end_seq skb.seq % 2 ^ 16 in
    let front = be32 skb.seq ++ be32 subseq in
    let summed = front ++ (be16 data_len ++ (tcpopt_eol ∷ tcpopt_eol ∷ [])) in
    let csum = k.csum_partial (be32 skb.hdseq) (k.csum_partial summed skb.csum) in
    front
    ++ (be16 data_len
        ++ (if tp.mpcb_dss_csum && not (data_len == 0)
            then raw 2 (k.csum_fold csum)
            else tcpopt_nop ∷ tcpopt_nop ∷ []))

unfoldable pub mptcp_save_dss_data_seq : Checksum → OutSock → OutSkb → OutSkb
unfolding mptcp_write_dss_data_ack mptcp_write_dss_mapping
mptcp_save_dss_data_seq k tp skb =
    let s = record skb { is_seq = true } in
    record s { dss = mptcp_write_dss_data_ack tp s ++ mptcp_write_dss_mapping k tp s }

-- `mptcp_dss_len` bytes are copied and the data ACK is brought up to date; what was saved is cleared
-- afterwards, which no later step of the writer reads.
unfoldable pub mptcp_write_dss_data_seq : OutSock → OutSkb → List ℕ
mptcp_write_dss_data_seq tp skb =
    first_bytes 4 skb.dss ++ (be32 tp.rcv_nxt ++ first_bytes 12 (skip 8 skb.dss))

unfoldable pub write_dss : OutSock → OutSkb → List ℕ
unfolding mptcp_write_dss_data_ack mptcp_write_dss_data_seq
write_dss tp skb =
    let seq = mptcp_write_dss_data_seq tp skb in
    let ack = mptcp_write_dss_data_ack tp skb in if not skb.is_seq then ack else seq

unfoldable pub write_prio : OutSock → List ℕ
write_prio tp = header len_prio sub_prio (to_ℕ tp.low_prio) ++ (tcpopt_nop ∷ [])

-- A part that is written if its flag is set.
abbrev pub when : Bool → List ℕ → List ℕ
when b bs = if b then bs else []

unfoldable pub mptcp_options_write : (stale : Bool) → OutSock → OutOptions → OutSkb → List ℕ
unfolding write_capable write_join write_add_addr write_remove_addr write_fail write_fclose
    write_dss write_prio
mptcp_options_write stale tp o skb =
    when o.flags.mp_capable (write_capable o)
    ++ (when o.flags.mp_join (write_join stale tp o)
        ++ (when o.flags.add_addr (write_add_addr tp o)
            ++ (when o.flags.remove_addr (write_remove_addr o)
                ++ (when o.flags.mp_fail (write_fail tp)
                    ++ (when o.flags.mp_fclose (write_fclose o)
                        ++ (when o.flags.data_ack (write_dss tp skb)
                            ++ when o.flags.mp_prio (write_prio tp)))))))
