-- ===== src/Options/RoundTrip/Control.antt =====
-- The options that change the connection: REMOVE_ADDR, MP_FAIL, MP_FASTCLOSE and MP_PRIO; and ADD_ADDR,
-- which a parser without a socket skips.
use redundant_mptcp_r_mptcp.Prelude.{
  ℕ, suc, ◌+◌, ◌-◌, ◌*◌, ◌%◌, ◌^◌, ◌<◌, ◌≡◌, refl, ◌∙◌, Bool, true, false, Bool-cases, inl, inr,
  List, [], ◌∷◌, ◌++◌, ltb, to_ℕ, length, length-append, replicate, arith,
}
use redundant_mptcp_r_mptcp.Options.Wire.{raw, be64, length-be64, Fits-64, from_raw-raw, length-raw}
use redundant_mptcp_r_mptcp.Options.Header.{OutOptions, OutSock, version_1, tcpopt_nop}
use redundant_mptcp_r_mptcp.Options.Parse.{
  ParseEnv, no_socket, parse_add_addr, parse_remove_addr, parse_prio, parse_fclose,
}
use redundant_mptcp_r_mptcp.Options.Write.{
  header, write_add_addr, write_remove_addr, write_fail, write_fclose, write_prio, set_bits,
  mptcp_sub_len_remove_addr, mptcp_sub_len_remove_addr_align,
}
use redundant_mptcp_r_mptcp.Options.Step.{Reads, Reads-option, Reads-append, Reads-nops, Reads-nil}
use redundant_mptcp_r_mptcp.Options.Dispatch.{
  sub_of-header, case_add_addr, case_remove_addr, case_prio, case_fail, case_fclose,
}
use redundant_mptcp_r_mptcp.Options.Received.{on_mopt, gets_remove_addr, gets_fclose, gets_prio}

pub Reads-fail :
    (env : ParseEnv) (tp : OutSock)
    → Reads env (write_fail tp) (on_mopt (λ m. record m { mp_fail = true }))
unfolding write_fail
Reads-fail env tp =
    let body = be64 tp.csum_cutoff_seq in
    Reads-option env 10 ((6 * 16 + 0) ∷ 0 ∷ body) _ (omega (arith, length-be64 tp.csum_cutoff_seq))
      (λ off tail p. case_fail env off (header 12 6 0 ++ (0 ∷ (body ++ tail))) 12 p refl)

pub Reads-fclose :
    (env : ParseEnv) (o : OutOptions)
    → o.receiver_key < 2 ^ 64
    → Reads env (write_fclose o) (on_mopt (gets_fclose o))
unfolding write_fclose parse_fclose
Reads-fclose env o h =
    let body = raw 8 o.receiver_key in
    Reads-option env 10 ((7 * 16 + 0) ∷ 0 ∷ body) _ (omega (arith, length-raw 8 o.receiver_key))
      (λ off tail p.
        case_fclose env off (header 12 7 0 ++ (0 ∷ (body ++ tail))) 12 p refl
        ∙ rw (from_raw-raw 8 o.receiver_key tail (Fits-64 o.receiver_key h)) refl)

Reads-prio_bit :
    (env : ParseEnv) (b : Bool)
    → Reads env (header 3 5 (to_ℕ b)) (on_mopt (λ m. record m { saw_low_prio = 1; low_prio = b }))
unfolding parse_prio
Reads-prio_bit env true =
    Reads-option env 1 ((5 * 16 + 1) ∷ []) _ refl
      (λ off tail p. case_prio env off (header 3 5 1 ++ tail) 3 p refl)
Reads-prio_bit env false =
    Reads-option env 1 ((5 * 16 + 0) ∷ []) _ refl
      (λ off tail p. case_prio env off (header 3 5 0 ++ tail) 3 p refl)

pub Reads-prio :
    (env : ParseEnv) (tp : OutSock) → Reads env (write_prio tp) (on_mopt (gets_prio tp))
unfolding write_prio
Reads-prio env tp =
    Reads-append env (header 3 5 (to_ℕ tp.low_prio)) (tcpopt_nop ∷ []) _ _
      (Reads-prio_bit env tp.low_prio) (Reads-nops env 1)

sub_len_remove_addr-suc :
    (bitfield : ℕ)
    → mptcp_sub_len_remove_addr bitfield ≡ suc (suc (suc (length (set_bits 16 0 bitfield))))
unfolding mptcp_sub_len_remove_addr
sub_len_remove_addr-suc bitfield = omega arith

-- The option without its padding; `size` is its length byte.
Reads-removed :
    (env : ParseEnv) (size : ℕ) (ids : List ℕ)
    → size ≡ suc (suc (suc (length ids)))
    → Reads env
        (header size 4 0 ++ ids)
        (λ off p. record p { mopt = parse_remove_addr off size p.mopt })
Reads-removed env size ids h =
    let option =
      Reads-option env (suc (length ids)) ((4 * 16 + 0) ∷ ids)
        (λ off p. record p { mopt = parse_remove_addr off (suc (suc (suc (length ids)))) p.mopt })
        refl
        (λ off tail p.
          case_remove_addr env off (header (suc (suc (suc (length ids)))) 4 0 ++ (ids ++ tail))
            (suc (suc (suc (length ids)))) p refl) in
    rw h option

pub Reads-remove_addr :
    (env : ParseEnv) (o : OutOptions)
    → Reads env (write_remove_addr o) (λ off p. record p { mopt = gets_remove_addr o off p.mopt })
unfolding write_remove_addr parse_remove_addr
Reads-remove_addr env o =
    let ids = set_bits 16 0 o.remove_addrs in
    let size = mptcp_sub_len_remove_addr o.remove_addrs in
    let size_is : size ≡ suc (suc (suc (length ids))) = sub_len_remove_addr-suc o.remove_addrs in
    Reads-append env (header size 4 0 ++ ids)
      (replicate (mptcp_sub_len_remove_addr_align o.remove_addrs - size) tcpopt_nop) _ _
      (Reads-removed env size ids size_is)
      (Reads-nops env (mptcp_sub_len_remove_addr_align o.remove_addrs - size))

-- Any well-formed ADD_ADDR changes nothing where there is no version.
Reads-added :
    (checksum ipv6 : Bool) (n low : ℕ) (rest : List ℕ)
    → low < 16
    → suc (length rest) ≡ n
    → Reads (no_socket checksum ipv6) (header (suc (suc n)) 3 low ++ rest) (λ off p. p)
unfolding parse_add_addr
Reads-added checksum ipv6 n low rest small h =
    let env = no_socket checksum ipv6 in
    Reads-option env n ((3 * 16 + low) ∷ rest) (λ off p. p) h
      (λ off tail p.
        case_add_addr env off (header (suc (suc n)) 3 low ++ (rest ++ tail)) (suc (suc n)) p
          (sub_of-header (suc (suc n)) 3 low (rest ++ tail) small))

pub Reads-add_addr :
    (checksum ipv6 : Bool) (tp : OutSock) (o : OutOptions)
    → (let (id6, addr6, mac6) = o.add_addr6 in length addr6 ≡ 16)
    → Reads (no_socket checksum ipv6) (write_add_addr tp o) (λ off p. p)
unfolding write_add_addr
Reads-add_addr checksum ipv6 tp o h =
    let env = no_socket checksum ipv6 in
    let (id4, addr4, mac4) = o.add_addr4 in
    let (id6, addr6, mac6) = o.add_addr6 in
    let mac_size = length-append addr6 (raw 8 mac6) in
    elim (Bool-cases o.add_addr_v4) [
      | inl v4 ↦ elim (Bool-cases (ltb tp.mptcp_ver version_1)) [
        | inl old ↦
            rw (v4, old)
              (Reads-added checksum ipv6 6 4 (id4 % 256 ∷ raw 4 addr4) (omega arith)
                (omega (arith, length-raw 4 addr4)))
        | inr new ↦
            rw (v4, new)
              (Reads-added checksum ipv6 14 4 (id4 % 256 ∷ (raw 4 addr4 ++ raw 8 mac4))
                (omega arith)
                (omega (
                  arith,
                  length-append (raw 4 addr4) (raw 8 mac4),
                  length-raw 4 addr4,
                  length-raw 8 mac4,
                )))
      ]
      | inr not_v4 ↦ elim (Bool-cases o.add_addr_v6) [
        | inl v6 ↦ elim (Bool-cases (ltb tp.mptcp_ver version_1)) [
          | inl old ↦
              rw (not_v4, v6, old)
                (Reads-added checksum ipv6 18 6 (id6 % 256 ∷ addr6) (omega arith)
                  (omega (arith, h)))
          | inr new ↦
              rw (not_v4, v6, new)
                (Reads-added checksum ipv6 26 6 (id6 % 256 ∷ (addr6 ++ raw 8 mac6)) (omega arith)
                  (omega (arith, h, mac_size, length-raw 8 mac6)))
        ]
        | inr none_of ↦ rw (not_v4, none_of) (Reads-nil env)
      ]
    ]
