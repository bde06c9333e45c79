-- ===== src/Options/RoundTrip/Handshake.antt =====
-- MP_CAPABLE and MP_JOIN.
use redundant_mptcp_r_mptcp.Prelude.{
  ℕ, suc, ◌+◌, ◌*◌, ◌%◌, ◌^◌, ◌<◌, ◌≡◌, refl, ◌∙◌, ap, Bool, true, false, ◌||◌, Bool-cases, inl,
  inr, List, ◌∷◌, ◌++◌, to_ℕ, bit, length, length-append, arith,
}
use mathlib.Core.List.{append_assoc}
use redundant_mptcp_r_mptcp.Options.Wire.{
  raw, skip-raw, Fits-32, Fits-64, from_raw-raw, length-raw, first_bytes-append,
}
use redundant_mptcp_r_mptcp.Options.Header.{OutOptions, OutSock}
use redundant_mptcp_r_mptcp.Options.Parse.{ParseEnv, parse_capable, parse_join}
use redundant_mptcp_r_mptcp.Options.Write.{header, write_capable, write_join}
use redundant_mptcp_r_mptcp.Options.Step.{Reads, Reads-option, Reads-nil}
use redundant_mptcp_r_mptcp.Options.Dispatch.{sub_of-header, case_capable, case_join}
use redundant_mptcp_r_mptcp.Options.Received.{on_mopt, gets_capable, gets_join}

-- The flags of MP_CAPABLE.
capable_flags : (b : Bool) → bit (to_ℕ b * 2 ^ 7 + 1) 7 ≡ b
capable_flags true = refl
capable_flags false = refl

capable_flag_b : (b : Bool) → bit (to_ℕ b * 2 ^ 7 + 1) 6 ≡ false
capable_flag_b true = refl
capable_flag_b false = refl

capable_flag_h : (b : Bool) → bit (to_ℕ b * 2 ^ 7 + 1) 0 ≡ true
capable_flag_h true = refl
capable_flag_h false = refl

version_nibble : (ver : ℕ) → ver < 16 → (0 * 16 + ver % 16) % 16 ≡ ver
version_nibble ver h = omega arith

capable_low : (ver : ℕ) → ver % 16 < 16
capable_low ver = omega arith

Reads-capable_syn :
    (env : ParseEnv) (ver key : ℕ) (csum : Bool)
    → ver < 16
    → key < 2 ^ 64
    → Reads env (header 12 0 (ver % 16) ++ ((to_ℕ csum * 2 ^ 7 + 1) ∷ raw 8 key)) (
        on_mopt (λ m. record m {
          saw_mpc = true;
          dss_csum = env.checksum || csum;
          mptcp_sender_key = key;
          mptcp_ver = ver;
        }))
unfolding parse_capable
Reads-capable_syn env ver key csum hv hk =
    let flags = to_ℕ csum * 2 ^ 7 + 1 in
    let body = raw 8 key in
    Reads-option env 10 ((0 * 16 + ver % 16) ∷ flags ∷ body) _
      (ap (λ n. suc (suc n)) (length-raw 8 key))
      (λ off tail p.
        case_capable env off (header 12 0 (ver % 16) ++ (flags ∷ (body ++ tail))) 12 p
          (sub_of-header 12 0 (ver % 16) (flags ∷ (body ++ tail)) (capable_low ver))
        ∙ rw
            (
              capable_flags csum,
              capable_flag_b csum,
              capable_flag_h csum,
              version_nibble ver hv,
              from_raw-raw 8 key tail (Fits-64 key hk),
            )
            refl)

Reads-capable_ack :
    (env : ParseEnv) (ver key key' : ℕ) (csum : Bool)
    → ver < 16
    → key < 2 ^ 64
    → key' < 2 ^ 64
    → Reads env (header 20 0 (ver % 16) ++ ((to_ℕ csum * 2 ^ 7 + 1) ∷ (raw 8 key ++ raw 8 key'))) (
        on_mopt (λ m. record m {
          saw_mpc = true;
          dss_csum = env.checksum || csum;
          mptcp_sender_key = key;
          mptcp_receiver_key = key';
          mptcp_ver = ver;
        }))
unfolding parse_capable
Reads-capable_ack env ver key key' csum hv hk hk' =
    let flags = to_ℕ csum * 2 ^ 7 + 1 in
    let body = raw 8 key ++ raw 8 key' in
    Reads-option env 18 ((0 * 16 + ver % 16) ∷ flags ∷ body) _
      (omega (arith, length-append (raw 8 key) (raw 8 key'), length-raw 8 key, length-raw 8 key'))
      (λ off tail p.
        case_capable env off (header 20 0 (ver % 16) ++ (flags ∷ (body ++ tail))) 20 p
          (sub_of-header 20 0 (ver % 16) (flags ∷ (body ++ tail)) (capable_low ver))
        ∙ rw
            (
              capable_flags csum,
              capable_flag_b csum,
              capable_flag_h csum,
              version_nibble ver hv,
              append_assoc (raw 8 key) (raw 8 key') tail,
              from_raw-raw 8 key (raw 8 key' ++ tail) (Fits-64 key hk),
              skip-raw 8 key (raw 8 key' ++ tail),
              from_raw-raw 8 key' tail (Fits-64 key' hk'),
            )
            refl)

-- The three forms, of which the flags of the writer choose one.
pub Reads-capable :
    (env : ParseEnv) (o : OutOptions)
    → o.ver < 16
    → o.sender_key < 2 ^ 64
    → o.receiver_key < 2 ^ 64
    → Reads env (write_capable o) (on_mopt (gets_capable env.checksum o))
unfolding write_capable
Reads-capable env o hv hk hk' = elim (Bool-cases (o.flags.type_syn || o.flags.type_synack)) [
  | inl syn ↦ rw syn (Reads-capable_syn env o.ver o.sender_key o.dss_csum hv hk)
  | inr other ↦ elim (Bool-cases o.flags.type_ack) [
    | inl ack ↦
        rw (other, ack)
          (Reads-capable_ack env o.ver o.sender_key o.receiver_key o.dss_csum hv hk hk')
    | inr none_of ↦ rw (other, none_of) (Reads-nil env)
  ]
]

low_bit : (b : Bool) → bit (1 * 16 + to_ℕ b) 0 ≡ b
low_bit true = refl
low_bit false = refl

low_nibble : (b : Bool) → to_ℕ b < 16
low_nibble true = omega arith
low_nibble false = omega arith

addr_id_byte : (id : ℕ) → id < 256 → id % 256 ≡ id
addr_id_byte id h = omega arith

Reads-join_syn :
    (env : ParseEnv) (low : Bool) (id token nonce : ℕ)
    → id < 256
    → token < 2 ^ 32
    → nonce < 2 ^ 32
    → Reads env (header 12 1 (to_ℕ low) ++ (id % 256 ∷ (raw 4 token ++ raw 4 nonce))) (
        on_mopt (λ m. record m {
          is_mp_join = true;
          saw_mpc = true;
          low_prio = low;
          rem_id = id;
          mptcp_rem_token = token;
          mptcp_recv_nonce = nonce;
        }))
unfolding parse_join
Reads-join_syn env low id token nonce hi ht hn =
    let body = raw 4 token ++ raw 4 nonce in
    Reads-option env 10 ((1 * 16 + to_ℕ low) ∷ id % 256 ∷ body) _
      (omega
        (arith, length-append (raw 4 token) (raw 4 nonce), length-raw 4 token, length-raw 4 nonce))
      (λ off tail p.
        case_join env off (header 12 1 (to_ℕ low) ++ (id % 256 ∷ (body ++ tail))) 12 p
          (sub_of-header 12 1 (to_ℕ low) (id % 256 ∷ (body ++ tail)) (low_nibble low))
        ∙ rw
            (
              low_bit low,
              addr_id_byte id hi,
              append_assoc (raw 4 token) (raw 4 nonce) tail,
              from_raw-raw 4 token (raw 4 nonce ++ tail) (Fits-32 token ht),
              skip-raw 4 token (raw 4 nonce ++ tail),
              from_raw-raw 4 nonce tail (Fits-32 nonce hn),
            )
            refl)

Reads-join_synack :
    (env : ParseEnv) (low : Bool) (id mac nonce : ℕ)
    → id < 256
    → mac < 2 ^ 64
    → nonce < 2 ^ 32
    → Reads env (header 16 1 (to_ℕ low) ++ (id % 256 ∷ (raw 8 mac ++ raw 4 nonce))) (
        on_mopt (λ m. record m {
          saw_mpc = true;
          low_prio = low;
          rem_id = id;
          mptcp_recv_tmac = mac;
          mptcp_recv_nonce = nonce;
        }))
unfolding parse_join
Reads-join_synack env low id mac nonce hi hm hn =
    let body = raw 8 mac ++ raw 4 nonce in
    Reads-option env 14 ((1 * 16 + to_ℕ low) ∷ id % 256 ∷ body) _
      (omega (arith, length-append (raw 8 mac) (raw 4 nonce), length-raw 8 mac, length-raw 4 nonce))
      (λ off tail p.
        case_join env off (header 16 1 (to_ℕ low) ++ (id % 256 ∷ (body ++ tail))) 16 p
          (sub_of-header 16 1 (to_ℕ low) (id % 256 ∷ (body ++ tail)) (low_nibble low))
        ∙ rw
            (
              low_bit low,
              addr_id_byte id hi,
              append_assoc (raw 8 mac) (raw 4 nonce) tail,
              from_raw-raw 8 mac (raw 4 nonce ++ tail) (Fits-64 mac hm),
              skip-raw 8 mac (raw 4 nonce ++ tail),
              from_raw-raw 4 nonce tail (Fits-32 nonce hn),
            )
            refl)

Reads-join_ack :
    (env : ParseEnv) (low : Bool) (mac : List ℕ)
    → length mac ≡ 20
    → Reads env
        (header 24 1 (to_ℕ low) ++ (0 ∷ mac))
        (on_mopt (λ m. record m { saw_mpc = true; join_ack = true; mptcp_recv_mac = mac }))
unfolding parse_join
Reads-join_ack env low mac h =
    Reads-option env 22 ((1 * 16 + to_ℕ low) ∷ 0 ∷ mac) _ (omega (arith, h)) (λ off tail p.
      case_join env off (header 24 1 (to_ℕ low) ++ (0 ∷ (mac ++ tail))) 24 p
        (sub_of-header 24 1 (to_ℕ low) (0 ∷ (mac ++ tail)) (low_nibble low))
      ∙ rw (first_bytes-append 20 mac tail h) refl)

-- Whatever the unwritten bit of a third ACK is.
pub Reads-join :
    (env : ParseEnv) (stale : Bool) (tp : OutSock) (o : OutOptions)
    → o.addr_id < 256
    → o.token < 2 ^ 32
    → o.sender_nonce < 2 ^ 32
    → o.sender_truncated_mac < 2 ^ 64
    → length tp.sender_mac ≡ 20
    → Reads env (write_join stale tp o) (on_mopt (gets_join tp o))
unfolding write_join
Reads-join env stale tp o hi ht hn hm hs = elim (Bool-cases o.flags.type_syn) [
  | inl syn ↦ rw syn (Reads-join_syn env o.join_low_prio o.addr_id o.token o.sender_nonce hi ht hn)
  | inr not_syn ↦ elim (Bool-cases o.flags.type_synack) [
    | inl synack ↦
        rw (not_syn, synack)
          (Reads-join_synack env o.join_low_prio o.addr_id o.sender_truncated_mac o.sender_nonce hi
            hm hn)
    | inr other ↦ elim (Bool-cases o.flags.type_ack) [
      | inl ack ↦ rw (not_syn, other, ack) (Reads-join_ack env stale tp.sender_mac hs)
      | inr none_of ↦ rw (not_syn, other, none_of) (Reads-nil env)
    ]
  ]
]
