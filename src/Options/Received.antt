-- ===== src/Options/Received.antt =====
-- What a receiver is to get from each option of a sender: the fields of the options, without their
-- bytes.
use redundant_mptcp_r_mptcp.Prelude.{
  ℕ, ◌+◌, ◌%◌, ◌^◌, ◌<◌, ◌≡◌, length, Bool, true, ◌||◌, Option, none, some, ltb, sub32,
  if◌then◌else◌,
}
use redundant_mptcp_r_mptcp.Options.Header.{
  OutOptions, OutSock, OutSkb, OptionsReceived, Parsed, len_remove_addr,
}
use redundant_mptcp_r_mptcp.Options.Write.{
  when, write_capable, write_join, write_add_addr, write_remove_addr, write_fail, write_fclose,
  Checksum, mptcp_sub_len_remove_addr, mptcp_save_dss_data_seq,
}

abbrev pub on_mopt : (OptionsReceived → OptionsReceived) → ℕ → Parsed → Parsed
on_mopt f off p = record p { mopt = f p.mopt }

-- The initiator's key, and on the third ACK both.
abbrev pub gets_capable : (checksum : Bool) → OutOptions → OptionsReceived → OptionsReceived
gets_capable checksum o m =
    let m' = record m {
      saw_mpc = true;
      dss_csum = checksum || o.dss_csum;
      mptcp_sender_key = o.sender_key;
      mptcp_ver = o.ver;
    } in
    if o.flags.type_syn || o.flags.type_synack
    then m'
    else if o.flags.type_ack
    then record m' { mptcp_receiver_key = o.receiver_key }
    else m

abbrev pub gets_join : OutSock → OutOptions → OptionsReceived → OptionsReceived
gets_join tp o m =
    let m' = record m { saw_mpc = true; low_prio = o.join_low_prio; rem_id = o.addr_id } in
    if o.flags.type_syn
    then record m' {
      is_mp_join = true;
      mptcp_rem_token = o.token;
      mptcp_recv_nonce = o.sender_nonce;
    }
    else if o.flags.type_synack
    then record m' { mptcp_recv_tmac = o.sender_truncated_mac; mptcp_recv_nonce = o.sender_nonce }
    else if o.flags.type_ack
    then record m { saw_mpc = true; join_ack = true; mptcp_recv_mac = tp.sender_mac }
    else m

-- The first list of removed addresses is noted, and that there are more. An empty one is no option.
abbrev pub gets_remove_addr : OutOptions → ℕ → OptionsReceived → OptionsReceived
gets_remove_addr o off m =
    if ltb (mptcp_sub_len_remove_addr o.remove_addrs) len_remove_addr
    then m
    else if m.saw_rem_addr
    then record m { more_rem_addr = true }
    else record m { saw_rem_addr = true; rem_addr_ptr = some off }

abbrev pub gets_fclose : OutOptions → OptionsReceived → OptionsReceived
gets_fclose o m = record m { mp_fclose = true; mptcp_sender_key = o.receiver_key }

abbrev pub gets_prio : OutSock → OptionsReceived → OptionsReceived
gets_prio tp m = record m { saw_low_prio = 1; low_prio = tp.low_prio }

-- The data ACK of the writer, and the mapping that was saved by `saver`.
abbrev pub gets_data_ack : OutSock → ℕ → Parsed → Parsed
gets_data_ack tp off p = record {
  mopt = record p.mopt { data_ack = tp.rcv_nxt };
  tcb = record p.tcb { hdr_ack = true; dss_off = 20 + off + 8 };
}

abbrev pub gets_mapping : (saver tp : OutSock) → OutSkb → ℕ → Parsed → Parsed
gets_mapping saver tp skb off p = record {
  mopt = record p.mopt {
    data_ack = tp.rcv_nxt;
    data_seq = skb.seq;
    data_len = if skb.is_inf then 0 else sub32 skb.end_seq skb.seq % 2 ^ 16;
  };
  tcb = record p.tcb {
    hdr_ack = true;
    dss_off = 20 + off + 8;
    hdr_seq = true;
    hdr_dss_csum = saver.mpcb_dss_csum || p.tcb.hdr_dss_csum;
    hdr_fin = skb.is_fin || p.tcb.hdr_fin;
  };
}

-- A segment whose mapping was saved by a socket, or was not.
abbrev pub with_saved : Checksum → (saved : Option OutSock) → OutSkb → OutSkb
with_saved k saved skb = elim saved [
  | none ↦ skb
  | some saver ↦ mptcp_save_dss_data_seq k saver skb
]

abbrev pub gets_dss : (saved : Option OutSock) → OutSock → OutSkb → ℕ → Parsed → Parsed
gets_dss saved tp skb off p = elim saved [
  | none ↦ gets_data_ack tp off p
  | some saver ↦ gets_mapping saver tp skb off p
]

-- All of it, in the order in which the options are written. Where an option stands is the number of
-- bytes that were written before it.
abbrev pub gets_segment :
    (checksum stale : Bool)
    → Checksum
    → (saved : Option OutSock) → OutSock
    → OutOptions
    → OutSkb
    → ℕ
    → Parsed
    → Parsed
gets_segment checksum stale k saved tp o skb off p =
    let at_join = off + length (when o.flags.mp_capable (write_capable o)) in
    let at_add = at_join + length (when o.flags.mp_join (write_join stale tp o)) in
    let at_remove = at_add + length (when o.flags.add_addr (write_add_addr tp o)) in
    let at_fail = at_remove + length (when o.flags.remove_addr (write_remove_addr o)) in
    let at_fclose = at_fail + length (when o.flags.mp_fail (write_fail tp)) in
    let at_dss = at_fclose + length (when o.flags.mp_fclose (write_fclose o)) in
    let p₁ = if o.flags.mp_capable then on_mopt (gets_capable checksum o) off p else p in
    let p₂ = if o.flags.mp_join then on_mopt (gets_join tp o) at_join p₁ else p₁ in
    let p₃ =
      if o.flags.remove_addr
      then record p₂ { mopt = gets_remove_addr o at_remove p₂.mopt }
      else p₂ in
    let p₄ =
      if o.flags.mp_fail then on_mopt (λ m. record m { mp_fail = true }) at_fail p₃ else p₃ in
    let p₅ = if o.flags.mp_fclose then on_mopt (gets_fclose o) at_fclose p₄ else p₄ in
    let p₆ = if o.flags.data_ack then gets_dss saved tp skb at_dss p₅ else p₅ in
    if o.flags.mp_prio then on_mopt (gets_prio tp) at_dss p₆ else p₆

-- What the fields of a sender hold by their C types, and the lengths of its arrays.
pub record InRange (tp : OutSock) (o : OutOptions) (skb : OutSkb) : Type 0 where
  pub ver : o.ver < 16
  pub sender_key : o.sender_key < 2 ^ 64
  pub receiver_key : o.receiver_key < 2 ^ 64
  pub addr_id : o.addr_id < 256
  pub token : o.token < 2 ^ 32
  pub sender_nonce : o.sender_nonce < 2 ^ 32
  pub sender_truncated_mac : o.sender_truncated_mac < 2 ^ 64
  pub sender_mac : length tp.sender_mac ≡ 20
  pub addr6 : let (id6, addr, mac6) = o.add_addr6 in length addr ≡ 16
  pub rcv_nxt : tp.rcv_nxt < 2 ^ 32
  pub seq : skb.seq < 2 ^ 32
