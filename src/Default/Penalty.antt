-- ===== src/Default/Penalty.antt =====
-- The penalty that `mptcp_rcv_buf_optimization` of mptcp_sched.c deals out.
use redundant_mptcp_r_mptcp.Prelude.{
  ℕ, ◌+◌, ◌*◌, ◌/◌, ◌<◌, ◌≤◌, ◌≡◌, ◌≢◌, ◌⊎◌, refl, ◌∙◌, sym, true, false, ◌&&◌, Bool-cases,
  Option-cases, inl, inr, List, [], ◌∷◌, ltb, leb, ◌==◌, arith, if◌then◌else◌,
}
use redundant_mptcp_r_mptcp.Register.{Sock, Socks}
use redundant_mptcp_r_mptcp.RoundRobin.Subflow.{RrSkb}
use redundant_mptcp_r_mptcp.Default.Subflow.{DefSub, find_subflow}
use redundant_mptcp_r_mptcp.Default.Lowest.{find_subflow-test}
use redundant_mptcp_r_mptcp.Default.Segment.{
  Around, DefState, half_cwnd, penalised, max_ℕ, sent_on_other, penalise,
}

-- A congestion window that was halved, but not to 0, on a socket that is else the same.
pub record Halved (s s' : Sock) : Type 0 where
  pub same : s' ≡ record s { snd_cwnd = s'.snd_cwnd }
  pub no_more : 1 ≤ s.snd_cwnd → s'.snd_cwnd ≤ s.snd_cwnd
  pub half : s.snd_cwnd ≤ 2 * s'.snd_cwnd + 1
  pub not_zero : 1 ≤ s'.snd_cwnd

Halved-Halved : (s : Sock) → Halved s (record s { snd_cwnd = max_ℕ (s.snd_cwnd / 2) 1 })
Halved-Halved s = elim (Bool-cases (leb (s.snd_cwnd / 2) 1)) [
  | inl least ↦
      let h : s.snd_cwnd / 2 ≤ 1 = ground (arith, least) in
      rw least
        (record { same = refl; no_more = λ k. k; half = omega (arith, h); not_zero = omega arith })
  | inr more ↦
      let h : 1 < s.snd_cwnd / 2 = ground (arith, more) in
      rw more (record {
        same = refl;
        no_more = λ k. omega arith;
        half = omega arith;
        not_zero = omega (arith, h);
      })
]

-- `x'` is the subflow's own record `x` after a call for `e`: the slow-start threshold is as before
-- or, where it was not above the window of the socket, which is another one's, halved and at least
-- 2; the time of the last penalty is as before or, at `e`'s own, the present; all else is as before.
pub record IsTouched (env : Around) (socks : Socks) (e x x' : DefSub) : Type 0 where
  pub others : x' ≡ record x { snd_ssthresh = x'.snd_ssthresh; last_rbuf_opti = x'.last_rbuf_opti }
  pub threshold :
      (x'.snd_ssthresh ≡ x.snd_ssthresh)
      ⊎ ((x.sk ≢ e.sk)
          × (x.snd_ssthresh ≤ (socks x.sk).snd_cwnd)
          × (2 ≤ x'.snd_ssthresh)
          × (x.snd_ssthresh / 2 ≤ x'.snd_ssthresh)
          × ((x'.snd_ssthresh ≡ 2) ⊎ (x'.snd_ssthresh ≡ x.snd_ssthresh / 2)))
  pub time :
      (x'.last_rbuf_opti ≡ x.last_rbuf_opti)
      ⊎ ((x.sk ≡ e.sk) × (x'.last_rbuf_opti ≡ env.time_stamp))

-- The records of the subflows before and after a call, one by one.
pub data Touched (env : Around) (socks : Socks) (e : DefSub)
    : List DefSub → List DefSub → Type 0 where
  end : Touched env socks e [] []
  next :
      (x x' : DefSub) (xs xs' : List DefSub)
      → IsTouched env socks e x x'
      → Touched env socks e xs xs'
      → Touched env socks e (x ∷ xs) (x' ∷ xs')

pub Touched-refl :
    (env : Around) (socks : Socks) (e : DefSub) (xs : List DefSub) → Touched env socks e xs xs
Touched-refl env socks e [] = end
Touched-refl env socks e (x ∷ xs) =
    next x x xs xs (record { others = refl; threshold = inl refl; time = inl refl })
      (Touched-refl env socks e xs)

halved_threshold :
    (a w : ℕ)
    → let b = if leb a w then max_ℕ (a / 2) 2 else a in
      (b ≡ a) ⊎ ((a ≤ w) × (2 ≤ b) × (a / 2 ≤ b) × ((b ≡ 2) ⊎ (b ≡ a / 2)))
halved_threshold a w = elim (Bool-cases (leb a w)) [
  | inr above ↦ rw above (inl refl)
  | inl low ↦
      let le : a ≤ w = ground (arith, low) in
      elim (Bool-cases (leb (a / 2) 2)) [
        | inl least ↦
            let h : a / 2 ≤ 2 = ground (arith, least) in
            rw (low, least) (inr (le, omega arith, h, inl refl))
        | inr more ↦
            let h : 2 < a / 2 = ground (arith, more) in
            rw (low, more) (inr (le, omega (arith, h), omega arith, inr refl))
      ]
]

module _ (env : Around) (socks : Socks) (e t : DefSub) (other : t.sk ≢ e.sk) where
  penalised-IsTouched :
      (x : DefSub) (xs : List DefSub)
      → Touched env socks e xs (penalised env socks e t xs)
      → Touched env socks e (x ∷ xs) (penalised env socks e t (x ∷ xs))
  penalised-IsTouched x xs rest = elim (Bool-cases (x.sk == t.sk)) [
    | inl at ↦
        let eq : x.sk ≡ t.sk = ground (arith, at) in
        let cut = halved_threshold x.snd_ssthresh (socks t.sk).snd_cwnd in
        rw at (
          next x _ xs _
            (record {
              others = refl;
              threshold = elim cut [
                | inl same ↦ inl same
                | inr (le, two, half, which) ↦
                    inr ((λ k. other (sym eq ∙ k)), rw eq le, two, half, which)
              ];
              time = inl refl;
            })
            rest)
    | inr off ↦ elim (Bool-cases (x.sk == e.sk)) [
      | inl own ↦
          let eq : x.sk ≡ e.sk = ground (arith, own) in
          rw (off, own)
            (next x _ xs _ (record { others = refl; threshold = inl refl; time = inr (eq, refl) })
              rest)
      | inr neither ↦
          rw (off, neither)
            (next x x xs _ (record { others = refl; threshold = inl refl; time = inl refl }) rest)
    ]
  ]

  penalised-Touched : (xs : List DefSub) → Touched env socks e xs (penalised env socks e t xs)
  penalised-Touched [] = end
  penalised-Touched (x ∷ xs) = penalised-IsTouched x xs (penalised-Touched xs)

-- Nothing is changed, or one subflow is punished: another one, slower than this one and in the open
-- state, whose window is halved, while every other socket is as before.
pub data Punished (e : DefSub) (st st' : DefState) : Type 0 where
  nobody : st' ≡ st → Punished e st st'
  slower :
      (t : DefSub)
      → t.sk ≢ e.sk
      → (st.socks e.sk).srtt_us < (st.socks t.sk).srtt_us
      → (st.socks t.sk).ca_state ≡ 0
      → Halved (st.socks t.sk) (st'.socks t.sk)
      → ((sk : ℕ) → sk ≢ t.sk → st'.socks sk ≡ st.socks sk)
      → Punished e st st'

half_cwnd-window :
    (socks : Socks) (t e sk : ℕ)
    → t ≢ e
    → (half_cwnd t socks sk ≡ socks sk) ⊎ ((sk ≢ e) × Halved (socks sk) (half_cwnd t socks sk))
half_cwnd-window socks t e sk h = elim (Bool-cases (sk == t)) [
  | inl same ↦
      let eq : sk ≡ t = ground (arith, same) in
      inr ((λ k. h (sym eq ∙ k)), rw same (Halved-Halved (socks sk)))
  | inr other ↦ rw other (inl refl)
]

sent_on_other-sk :
    (e : DefSub) (head : RrSkb) (t : DefSub) → sent_on_other e head t ≡ true → t.sk ≢ e.sk
sent_on_other-sk e head t h same =
    let at : (t.sk == e.sk) ≡ true = ground (arith, same) in absurd (cc (rw at at h))

pub penalise-window :
    (env : Around) (e : DefSub) (head : RrSkb) (st : DefState) (sk : ℕ)
    → (let st' = penalise env e head st in
        (st'.socks sk ≡ st.socks sk) ⊎ ((sk ≢ e.sk) × Halved (st.socks sk) (st'.socks sk)))
      × Touched env st.socks e st.conn.subflows (penalise env e head st).conn.subflows
      × ((penalise env e head st).conn
          ≡ record st.conn { subflows = (penalise env e head st).conn.subflows })
unfolding penalise
penalise-window env e head st sk =
    let found = find_subflow (sent_on_other e head) st.conn.subflows in
    elim (Option-cases found) [
      | inl none_of ↦
          rw (none_of, penalise) (inl refl, Touched-refl env st.socks e st.conn.subflows, refl)
      | inr (t, eq) ↦
          let other : t.sk ≢ e.sk =
            sent_on_other-sk e head t
              (find_subflow-test (sent_on_other e head) st.conn.subflows t eq).1 in
          let slower =
            ltb (st.socks e.sk).srtt_us (st.socks t.sk).srtt_us
            && ((st.socks t.sk).ca_state == 0) in
          elim (Bool-cases slower) [
            | inl on ↦
                rw (eq, penalise, on)
                  (
                    half_cwnd-window st.socks t.sk e.sk sk other,
                    penalised-Touched env st.socks e t other st.conn.subflows,
                    refl,
                  )
            | inr off ↦
                rw (eq, penalise, off)
                  (inl refl, Touched-refl env st.socks e st.conn.subflows, refl)
          ]
    ]

pub penalise-Punished :
    (env : Around) (e : DefSub) (head : RrSkb) (st : DefState)
    → Punished e st (penalise env e head st)
unfolding penalise
penalise-Punished env e head st =
    let found = find_subflow (sent_on_other e head) st.conn.subflows in
    elim (Option-cases found) [
      | inl none_of ↦ rw (none_of, penalise) (nobody refl)
      | inr (t, eq) ↦
          let other : t.sk ≢ e.sk =
            sent_on_other-sk e head t
              (find_subflow-test (sent_on_other e head) st.conn.subflows t eq).1 in
          let s = st.socks e.sk in
          let s' = st.socks t.sk in
          elim (Bool-cases (ltb s.srtt_us s'.srtt_us && (s'.ca_state == 0))) [
            | inl on ↦
                let same : (t.sk == t.sk) ≡ true = ground arith in
                rw (eq, penalise, on)
                  (slower t other (ground arith) (ground arith) (rw same (Halved-Halved s'))
                    (λ sk ne. let differs : (sk == t.sk) ≡ false = ground arith in rw differs refl))
            | inr off ↦ rw (eq, penalise, off) (nobody refl)
          ]
    ]
