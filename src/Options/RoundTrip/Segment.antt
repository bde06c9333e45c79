-- ===== src/Options/RoundTrip/Segment.antt =====
-- All options of a segment.
use redundant_mptcp_r_mptcp.Prelude.{
  ℕ, ◌+◌, ◌≡◌, ◌∙◌, ap, Bool, false, Option, List, ◌++◌, length, arith,
}
use redundant_mptcp_r_mptcp.Options.Header.{OutSock, OutOptions, OutSkb, Parsed}
use redundant_mptcp_r_mptcp.Options.Parse.{no_socket, parse_loop, tcp_parse_mptcp_options}
use redundant_mptcp_r_mptcp.Options.Write.{
  Checksum, write_capable, write_join, write_add_addr, write_remove_addr, write_fail, write_fclose,
  write_dss, write_prio, mptcp_options_write,
}
use redundant_mptcp_r_mptcp.Options.Step.{Reads, Reads-when, Reads-when_mute, Reads-last, parse}
use redundant_mptcp_r_mptcp.Options.Received.{with_saved, gets_segment, InRange}
use redundant_mptcp_r_mptcp.Options.RoundTrip.Handshake.{Reads-capable, Reads-join}
use redundant_mptcp_r_mptcp.Options.RoundTrip.Control.{
  Reads-add_addr, Reads-remove_addr, Reads-fail, Reads-fclose, Reads-prio,
}
use redundant_mptcp_r_mptcp.Options.RoundTrip.Data.{Reads-dss}

Reads-segment :
    (checksum ipv6 stale : Bool) (k : Checksum) (saved : Option OutSock) (tp : OutSock)
    (o : OutOptions) (skb : OutSkb)
    → skb.is_seq ≡ false
    → InRange tp o skb
    → Reads
        (no_socket checksum ipv6)
        (mptcp_options_write stale tp o (with_saved k saved skb))
        (gets_segment checksum stale k saved tp o skb)
unfolding mptcp_options_write
Reads-segment checksum ipv6 stale k saved tp o skb fresh h =
    let env = no_socket checksum ipv6 in
    let fs = o.flags in
    let join =
      Reads-join env stale tp o h.addr_id h.token h.sender_nonce h.sender_truncated_mac
        h.sender_mac in
    Reads-when env fs.mp_capable (write_capable o) _ _ _
      (Reads-capable env o h.ver h.sender_key h.receiver_key)
      (Reads-when env fs.mp_join (write_join stale tp o) _ _ _ join (
        Reads-when_mute env fs.add_addr (write_add_addr tp o) _ _
          (Reads-add_addr checksum ipv6 tp o h.addr6)
          (Reads-when env fs.remove_addr (write_remove_addr o) _ _ _ (Reads-remove_addr env o) (
            Reads-when env fs.mp_fail (write_fail tp) _ _ _ (Reads-fail env tp) (
              Reads-when env fs.mp_fclose (write_fclose o) _ _ _ (Reads-fclose env o h.receiver_key)
                (Reads-when env fs.data_ack (write_dss tp (with_saved k saved skb)) _ _ _
                  (Reads-dss env k saved tp skb fresh h.rcv_nxt h.seq)
                  (Reads-last env fs.mp_prio (write_prio tp) _ (Reads-prio env tp))))))))

-- If the sender's fields are in the range of their C types and the segment's mapping is the one that
-- some socket saved, or was not saved, then the options that `mptcp_options_write` writes, whatever
-- bytes follow them, leave in `tcp_parse_mptcp_options` exactly what `gets_segment` says: of every
-- option that is written the sender's fields, and of ADD_ADDR, which is read with a socket only,
-- nothing.
pub parse-mptcp_options_write :
    (checksum ipv6 stale : Bool) (k : Checksum) (saved : Option OutSock) (tp : OutSock)
    (o : OutOptions) (skb : OutSkb) (payload : List ℕ) (p : Parsed)
    → skb.is_seq ≡ false
    → InRange tp o skb
    → let w = mptcp_options_write stale tp o (with_saved k saved skb) in
      tcp_parse_mptcp_options checksum ipv6 (length w) (w ++ payload) p
      ≡ gets_segment checksum stale k saved tp o skb 0 p
unfolding tcp_parse_mptcp_options parse_loop
parse-mptcp_options_write checksum ipv6 stale k saved tp o skb payload p fresh h =
    let w = mptcp_options_write stale tp o (with_saved k saved skb) in
    let all_of : length w ≡ length w + 0 = omega arith in
    ap (λ n. parse (no_socket checksum ipv6) n 0 (w ++ payload) p) all_of
    ∙ Reads-segment checksum ipv6 stale k saved tp o skb fresh h 0 0 payload p
