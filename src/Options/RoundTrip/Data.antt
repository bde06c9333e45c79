-- ===== src/Options/RoundTrip/Data.antt =====
-- DSS: the data ACK, and the mapping that `mptcp_save_dss_data_seq` saved with the segment.
use redundant_mptcp_r_mptcp.Prelude.{
  ℕ, ◌+◌, ◌*◌, ◌%◌, ◌^◌, ◌<◌, ◌≡◌, refl, ◌∙◌, sym, Bool, true, false, ◌||◌, ◌&&◌, not, Option, none,
  some, List, [], ◌∷◌, ◌++◌, ◌==◌, to_ℕ, sub32, length, arith, if◌then◌else◌,
}
use mathlib.Core.Path.{ap₂, subst}
use redundant_mptcp_r_mptcp.Options.Wire.{
  raw, skip, length-raw, be16, be32, from_be16, from_be32, from_be16-be16, from_be32-be32,
  length-be32, first_bytes,
}
use redundant_mptcp_r_mptcp.Options.Header.{OutSock, OutSkb, Parsed, tcpopt_nop, mptcp_sub_len_dss}
use redundant_mptcp_r_mptcp.Options.Parse.{ParseEnv, parse_dss, parse_mapping}
use redundant_mptcp_r_mptcp.Options.Write.{
  header, Checksum, write_dss, mptcp_write_dss_data_ack, mptcp_write_dss_mapping,
  mptcp_write_dss_data_seq, mptcp_save_dss_data_seq,
}
use redundant_mptcp_r_mptcp.Options.Step.{Reads, Reads-option, Reads-append, Reads-nops}
use redundant_mptcp_r_mptcp.Options.Dispatch.{case_dss}
use redundant_mptcp_r_mptcp.Options.Received.{gets_mapping, with_saved, gets_dss}

-- What a data ACK `a` gives.
abbrev acked : (a pos : ℕ) → Parsed → Parsed
acked a pos p = record {
  mopt = record p.mopt { data_ack = a };
  tcb = record p.tcb { hdr_ack = true; dss_off = pos };
}

ack_pos : (off : ℕ) → 20 + off + 4 + 4 ≡ 20 + off + 8
ack_pos off = omega arith

parse-data_ack :
    (fin : Bool) (off a : ℕ) (tail : List ℕ) (p : Parsed)
    → a < 2 ^ 32
    → parse_dss off (header 8 2 0 ++ ((1 + 0 * 4 + to_ℕ fin * 16) ∷ (be32 a ++ tail))) 8 p
      ≡ acked a (20 + off + 8) p
unfolding parse_dss mptcp_sub_len_dss
parse-data_ack true off a tail p h =
    ap₂ (λ b pos. acked b pos p) (from_be32-be32 a tail h) (ack_pos off)
parse-data_ack false off a tail p h =
    ap₂ (λ b pos. acked b pos p) (from_be32-be32 a tail h) (ack_pos off)

ack_size : (csum : Bool) → mptcp_sub_len_dss true false false false csum ≡ 8
unfolding mptcp_sub_len_dss
ack_size true = refl
ack_size false = refl

Reads-data_ack :
    (env : ParseEnv) (csum fin : Bool) (a : ℕ)
    → a < 2 ^ 32
    → Reads env
        (header (mptcp_sub_len_dss true false false false csum) 2 0
          ++ ((1 + 0 * 4 + to_ℕ fin * 16) ∷ be32 a))
        (λ off p. acked a (20 + off + 8) p)
Reads-data_ack env csum fin a h =
    let flags = 1 + 0 * 4 + to_ℕ fin * 16 in
    let option : Reads env (header 8 2 0 ++ (flags ∷ be32 a)) (λ off p. acked a (20 + off + 8) p) =
      Reads-option env 6 ((2 * 16 + 0) ∷ flags ∷ be32 a) _ (omega (arith, length-be32 a))
        (λ off tail p.
          case_dss env off (header 8 2 0 ++ (flags ∷ (be32 a ++ tail))) 8 p refl
          ∙ parse-data_ack fin off a tail p h) in
    rw (ack_size csum) option

-- And what a mapping of `l` bytes from `s` on gives with it.
abbrev mapped : (csum fin : Bool) (a s l pos : ℕ) → Parsed → Parsed
mapped csum fin a s l pos p = record {
  mopt = record p.mopt { data_ack = a; data_seq = s; data_len = l };
  tcb = record p.tcb {
    hdr_ack = true;
    dss_off = pos;
    hdr_seq = true;
    hdr_dss_csum = csum || p.tcb.hdr_dss_csum;
    hdr_fin = fin || p.tcb.hdr_fin;
  };
}

-- The bytes behind the flags.
abbrev dss_body : (a s sub l : ℕ) → List ℕ → List ℕ
dss_body a s sub l rest = be32 a ++ (be32 s ++ (be32 sub ++ (be16 l ++ rest)))

mapped-bytes :
    (csum fin : Bool) (off a s sub l : ℕ) (tail : List ℕ) (p : Parsed)
    → a < 2 ^ 32
    → s < 2 ^ 32
    → l < 2 ^ 16
    → mapped csum fin
        (from_be32 (dss_body a s sub l tail))
        (from_be32 (be32 s ++ (be32 sub ++ (be16 l ++ tail))))
        (from_be16 (be16 l ++ tail))
        (20 + off + 4 + 4)
        p
      ≡ mapped csum fin a s l (20 + off + 8) p
mapped-bytes csum fin off a s sub l tail p ha hs hl =
    rw
      (
        from_be32-be32 a (be32 s ++ (be32 sub ++ (be16 l ++ tail))) ha,
        from_be32-be32 s (be32 sub ++ (be16 l ++ tail)) hs,
        from_be16-be16 l tail hl,
        ack_pos off,
      )
      refl

parse-mapping :
    (csum fin : Bool) (off a s sub l : ℕ) (tail : List ℕ) (p : Parsed)
    → a < 2 ^ 32
    → s < 2 ^ 32
    → l < 2 ^ 16
    → let size = mptcp_sub_len_dss true false true false csum in
      parse_dss off
        (header size 2 0 ++ ((1 + 1 * 4 + to_ℕ fin * 16) ∷ dss_body a s sub l tail))
        size
        p
      ≡ mapped csum fin a s l (20 + off + 8) p
unfolding parse_dss parse_mapping mptcp_sub_len_dss be32
parse-mapping true true = mapped-bytes true true
parse-mapping true false = mapped-bytes true false
parse-mapping false true = mapped-bytes false true
parse-mapping false false = mapped-bytes false false

-- The option, whose size counts two bytes `c` of a checksum if there is one.
Reads-mapping :
    (env : ParseEnv) (csum fin : Bool) (a s sub l : ℕ) (c : List ℕ)
    → a < 2 ^ 32
    → s < 2 ^ 32
    → l < 2 ^ 16
    → length c ≡ to_ℕ csum * 2
    → Reads env
        (header (mptcp_sub_len_dss true false true false csum) 2 0
          ++ ((1 + 1 * 4 + to_ℕ fin * 16) ∷ dss_body a s sub l c))
        (λ off p. mapped csum fin a s l (20 + off + 8) p)
unfolding mptcp_sub_len_dss be32 be16
Reads-mapping env true fin a s sub l c ha hs hl hc =
    let flags = 1 + 1 * 4 + to_ℕ fin * 16 in
    Reads-option env 18 ((2 * 16 + 0) ∷ flags ∷ dss_body a s sub l c) _ (omega (arith, hc))
      (λ off tail p.
        case_dss env off (header 20 2 0 ++ (flags ∷ dss_body a s sub l (c ++ tail))) 20 p refl
        ∙ parse-mapping true fin off a s sub l (c ++ tail) p ha hs hl)
Reads-mapping env false fin a s sub l c ha hs hl hc =
    let flags = 1 + 1 * 4 + to_ℕ fin * 16 in
    Reads-option env 16 ((2 * 16 + 0) ∷ flags ∷ dss_body a s sub l c) _ (omega (arith, hc))
      (λ off tail p.
        case_dss env off (header 18 2 0 ++ (flags ∷ dss_body a s sub l (c ++ tail))) 18 p refl
        ∙ parse-mapping false fin off a s sub l (c ++ tail) p ha hs hl)

-- What the writer puts into a segment whose mapping was saved: the saved bytes with its own data ACK.
saved_bytes :
    (size flags s sub l : ℕ) (old new c : List ℕ)
    → length old ≡ 4
    → length c ≡ 2
    → let dss = (header size 2 0 ++ (flags ∷ old)) ++ ((be32 s ++ be32 sub) ++ (be16 l ++ c)) in
      first_bytes 4 dss ++ (new ++ first_bytes 12 (skip 8 dss))
      ≡ header size 2 0 ++ (flags ∷ (new ++ (be32 s ++ (be32 sub ++ (be16 l ++ c)))))
unfolding first_bytes be32 be16
saved_bytes size flags s sub l (o₁ ∷ o₂ ∷ o₃ ∷ o₄ ∷ []) new (c₁ ∷ c₂ ∷ []) h k = refl
saved_bytes size flags s sub l [] new c h k = absurd (omega arith)
saved_bytes size flags s sub l (o₁ ∷ []) new c h k = absurd (omega arith)
saved_bytes size flags s sub l (o₁ ∷ o₂ ∷ []) new c h k = absurd (omega arith)
saved_bytes size flags s sub l (o₁ ∷ o₂ ∷ o₃ ∷ []) new c h k = absurd (omega arith)
saved_bytes size flags s sub l (o₁ ∷ o₂ ∷ o₃ ∷ o₄ ∷ o₅ ∷ old) new c h k = absurd (omega arith)
saved_bytes size flags s sub l old new [] h k = absurd (omega arith)
saved_bytes size flags s sub l old new (c₁ ∷ []) h k = absurd (omega arith)
saved_bytes size flags s sub l old new (c₁ ∷ c₂ ∷ c₃ ∷ c) h k = absurd (omega arith)

-- The length of a mapping.
data_len-bound : (b : Bool) (m n : ℕ) → (if b then 0 else sub32 m n % 2 ^ 16) < 2 ^ 16
data_len-bound true m n = omega arith
data_len-bound false m n = omega arith

-- With a checksum or with two NOPs behind it.
Reads-mapping_end :
    (env : ParseEnv) (csum nonzero fin : Bool) (a s sub l sum : ℕ)
    → a < 2 ^ 32
    → s < 2 ^ 32
    → l < 2 ^ 16
    → Reads env
        (header (mptcp_sub_len_dss true false true false csum) 2 0
          ++ ((1 + 1 * 4 + to_ℕ fin * 16)
              ∷ dss_body a s sub l
                  (if csum && nonzero then raw 2 sum else tcpopt_nop ∷ tcpopt_nop ∷ [])))
        (λ off p. mapped csum fin a s l (20 + off + 8) p)
unfolding mptcp_sub_len_dss be32 be16
Reads-mapping_end env true true fin a s sub l sum ha hs hl =
    Reads-mapping env true fin a s sub l (raw 2 sum) ha hs hl (length-raw 2 sum)
Reads-mapping_end env true false fin a s sub l sum ha hs hl =
    Reads-mapping env true fin a s sub l (tcpopt_nop ∷ tcpopt_nop ∷ []) ha hs hl refl
Reads-mapping_end env false nonzero fin a s sub l sum ha hs hl =
    Reads-append env (header 18 2 0 ++ ((1 + 1 * 4 + to_ℕ fin * 16) ∷ dss_body a s sub l []))
      (tcpopt_nop ∷ tcpopt_nop ∷ []) _ _ (Reads-mapping env false fin a s sub l [] ha hs hl refl)
      (Reads-nops env 2)

end_bytes :
    (b : Bool) (sum : ℕ) → length (if b then raw 2 sum else tcpopt_nop ∷ tcpopt_nop ∷ []) ≡ 2
end_bytes true sum = length-raw 2 sum
end_bytes false sum = refl

pub Reads-dss :
    (env : ParseEnv) (k : Checksum) (saved : Option OutSock) (tp : OutSock) (skb : OutSkb)
    → skb.is_seq ≡ false
    → tp.rcv_nxt < 2 ^ 32
    → skb.seq < 2 ^ 32
    → Reads env (write_dss tp (with_saved k saved skb)) (gets_dss saved tp skb)
unfolding write_dss mptcp_write_dss_data_ack mptcp_write_dss_mapping mptcp_write_dss_data_seq
    mptcp_save_dss_data_seq
Reads-dss env k none tp skb h ha hs =
    rw h (Reads-data_ack env tp.mpcb_dss_csum skb.is_fin tp.rcv_nxt ha)
Reads-dss env k (some saver) tp skb h ha hs =
    let size = mptcp_sub_len_dss true false true false saver.mpcb_dss_csum in
    let subseq = if skb.is_fin && (skb.len == 0) then 0 else sub32 saver.write_seq saver.snt_isn in
    let data_len = if skb.is_inf then 0 else sub32 skb.end_seq skb.seq % 2 ^ 16 in
    let front = be32 skb.seq ++ be32 subseq in
    let summed = front ++ (be16 data_len ++ (0 ∷ 0 ∷ [])) in
    let sum = k.csum_fold (k.csum_partial (be32 skb.hdseq) (k.csum_partial summed skb.csum)) in
    let nonzero = not (data_len == 0) in
    let last = if saver.mpcb_dss_csum && nonzero then raw 2 sum else tcpopt_nop ∷ tcpopt_nop ∷ [] in
    let bytes =
      saved_bytes size (1 + 1 * 4 + to_ℕ skb.is_fin * 16) skb.seq subseq data_len
        (be32 saver.rcv_nxt) (be32 tp.rcv_nxt) last (length-be32 saver.rcv_nxt)
        (end_bytes (saver.mpcb_dss_csum && nonzero) sum) in
    let read =
      Reads-mapping_end env saver.mpcb_dss_csum nonzero skb.is_fin tp.rcv_nxt skb.seq subseq
        data_len sum ha hs (data_len-bound skb.is_inf skb.end_seq skb.seq) in
    subst (λ bs. Reads env bs (gets_mapping saver tp skb)) (sym bytes) read
