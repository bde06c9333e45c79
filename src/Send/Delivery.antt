-- ===== src/Send/Delivery.antt =====
-- What `rmptcp_send_skb` delivers and what it counts.
use redundant_mptcp_r_mptcp.Prelude.{
  ◌↔◌, ◌++◌, Bool-cases, inl, inr, ℕ, ◌+◌, ◌%◌, ◌^◌, ◌≡◌, refl, Bool, true, false, List, [], ◌∷◌, ℤ,
  u64, All, arith, if◌then◌else◌,
}
use redundant_mptcp_r_mptcp.Register.{RedSk, Register, Skb}
use redundant_mptcp_r_mptcp.Send.{used, send_loop, send_skb}

-- The sockets of the available subflows, in the order of the list.
abbrev pub takers : List RedSk → List ℕ
takers [] = []
takers (e ∷ es) = if e.state.available then e.sk ∷ takers es else takers es

-- `x'` is the entry `x` after the call, if `x` was available: one segment and `len` bytes more, the
-- time of the call, and the flag cleared; every other field is the one of `x`.
pub record IsCharged (run_start : ℤ) (len : ℕ) (x x' : RedSk) : Type 0 where
  pub one_more : x'.seg_count ≡ (x.seg_count + 1) % 2 ^ 64
  pub bytes : x'.byte_count ≡ (x.byte_count + len) % 2 ^ 64
  pub time : x'.last_used ≡ run_start
  pub cleared : x'.state.available ≡ false
  pub others : x' ≡ record x {
    state = record x.state { available = x'.state.available };
    last_used = x'.last_used;
    seg_count = x'.seg_count;
    byte_count = x'.byte_count;
  }

-- An available subflow is charged with the segment, and any other is left alone.
pub data Charged (run_start : ℤ) (len : ℕ) : List RedSk → List RedSk → Type 0 where
  end : Charged run_start len [] []
  charged :
      (x x' : RedSk) (xs xs' : List RedSk)
      → x.state.available ≡ true
      → IsCharged run_start len x x'
      → Charged run_start len xs xs'
      → Charged run_start len (x ∷ xs) (x' ∷ xs')
  left :
      (x : RedSk) (xs xs' : List RedSk)
      → x.state.available ≡ false
      → Charged run_start len xs xs'
      → Charged run_start len (x ∷ xs) (x ∷ xs')

used-IsCharged :
    (run_start : ℤ) (len : ℕ) (x : RedSk) → IsCharged run_start len x (used run_start len x)
unfolding used
used-IsCharged run_start len x = record {
  one_more = refl;
  bytes = refl;
  time = refl;
  cleared = refl;
  others = refl;
}

-- No available socket refuses the segment.
abbrev pub Accepts : (ℕ → Bool) → List RedSk → Type 0
Accepts entail = All (λ e. e.state.available ≡ true → entail e.sk ≡ true)

abbrev pub IsIdle : RedSk → Type 0
IsIdle e = e.state.available ≡ false

module _ (entail : ℕ → Bool) (run_start : ℤ) (len : ℕ) where
  send_loop_done :
      (es : List RedSk)
      → (send_loop entail run_start len es).done ≡ true
      → Accepts entail es
        × ((send_loop entail run_start len es).sockets ≡ takers es)
        × Charged run_start len es (send_loop entail run_start len es).entries
        × All IsIdle (send_loop entail run_start len es).entries
  unfolding send_loop
  send_loop_done [] h = (tt, refl, end, tt)
  send_loop_done (e ∷ es) h = elim (Bool-cases e.state.available) [
    | inl on ↦ elim (Bool-cases (entail e.sk)) [
      | inl took ↦
          let rest = send_loop_done es (ground arith) in
          let paid =
            charged e (used run_start len e) es _ on (used-IsCharged run_start len e) rest.2 in
          ground (arith, rest, paid)
      | inr refused ↦ absurd (ground arith)
    ]
    | inr off ↦
        let rest = send_loop_done es (ground arith) in
        let same = left e es _ off rest.2 in ground (arith, rest, same)
  ]

  send_loop-Accepts :
      (es : List RedSk) → Accepts entail es → (send_loop entail run_start len es).done ≡ true
  unfolding send_loop
  send_loop-Accepts [] h = refl
  send_loop-Accepts (e ∷ es) h = ground (arith, h.0, send_loop-Accepts es h.1)

  -- On a refusal the sockets served are those before the first one that refuses.
  send_loop_refused :
      (es : List RedSk)
      → (send_loop entail run_start len es).done ≡ false
      → (bad : ℕ) × (rest : List ℕ) × (takers es
          ≡ (send_loop entail run_start len es).sockets ++ (bad ∷ rest))
        × (entail bad ≡ false)
  unfolding send_loop
  send_loop_refused [] h = cc
  send_loop_refused (e ∷ es) h = elim (Bool-cases e.state.available) [
    | inl on ↦ elim (Bool-cases (entail e.sk)) [
      | inl took ↦
          let (bad, rest, split, no_room) = send_loop_refused es (ground arith) in
          (bad, rest, ground arith, no_room)
      | inr refused ↦ (e.sk, takers es, ground arith, refused)
    ]
    | inr off ↦
        let (bad, rest, split, no_room) = send_loop_refused es (ground arith) in
        (bad, rest, ground arith, no_room)
  ]

module _ (entail : ℕ → Bool) (skb : Skb) (reinject : Bool) (run_start : ℤ) (r : Register) where
  -- The call succeeds exactly if no available socket refuses the segment.
  pub send_skb-iff-Accepts :
      ((send_skb entail skb reinject run_start r).2 ≡ true) ↔ Accepts entail r.sk_list
  unfolding send_skb
  send_skb-iff-Accepts = (
    λ h. (send_loop_done entail run_start skb.len r.sk_list (ground arith)).0,
    λ h. ground (arith, send_loop-Accepts entail run_start skb.len r.sk_list h),
  )

  -- A call that succeeds has given the segment to every available subflow, once and in the order
  -- of the list, has counted one segment and its length at each of them, with the time of the call,
  -- and changed no other entry, has left none available, and has counted the length once as useful,
  -- or not at all for a reinjection.
  pub send_skb_delivers :
      (send_skb entail skb reinject run_start r).2 ≡ true
      → let (r', sockets, done) = send_skb entail skb reinject run_start r in
        (sockets ≡ takers r.sk_list)
        × Charged run_start skb.len r.sk_list r'.sk_list
        × All IsIdle r'.sk_list
        × (r'.effective_byte_count
            ≡ (if reinject then r.effective_byte_count else u64 (r.effective_byte_count + skb.len)))
  unfolding send_skb
  send_skb_delivers h =
      let all = send_loop_done entail run_start skb.len r.sk_list (ground arith) in
      (ground arith, ground arith, ground arith, ground arith)

  -- A call that fails has served the available sockets before the first one that refuses, and has
  -- counted nothing as useful.
  send_skb_refused :
      (send_skb entail skb reinject run_start r).2 ≡ false
      → let (r', sockets, done) = send_skb entail skb reinject run_start r in
        ((bad : ℕ) × (rest : List ℕ) × (takers r.sk_list ≡ sockets ++ (bad ∷ rest))
          × (entail bad ≡ false))
        × (r'.effective_byte_count ≡ r.effective_byte_count)
  unfolding send_skb
  send_skb_refused h =
      let (bad, rest, split, no_room) =
        send_loop_refused entail run_start skb.len r.sk_list (ground arith) in
      ((bad, rest, ground arith, no_room), ground arith)
