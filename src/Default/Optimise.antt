-- ===== src/Default/Optimise.antt =====
-- What `mptcp_rcv_buf_optimization` of mptcp_sched.c does.
use redundant_mptcp_r_mptcp.Prelude.{
  ℕ, ◌-◌, ◌/◌, ◌^◌, ◌≡◌, ◌≢◌, ◌⊎◌, refl, ap, sym, Bool, true, false, not, ◌&&◌, ◌||◌, Bool-cases,
  inl, inr, Option, none, some, List, [], ◌∷◌, ltb, ◌==◌, sub32, bit, length, if◌then◌else◌,
}
use mathlib.Core.Path.{subst}
use redundant_mptcp_r_mptcp.Register.{Kernel}
use redundant_mptcp_r_mptcp.RoundRobin.Subflow.{RrSkb}
use redundant_mptcp_r_mptcp.Default.Subflow.{DefSub, mptcp_is_available}
use redundant_mptcp_r_mptcp.Default.Segment.{
  Around, DefState, head_of, worth_retrans, penalise, retrans, mptcp_rcv_buf_optimization,
}
use redundant_mptcp_r_mptcp.Default.Penalty.{
  Halved, Touched, Touched-refl, Punished, nobody, penalise-window, penalise-Punished,
}

-- What a call leaves. The head of the write queue is returned only if this subflow did not send it
-- and can take it now.
pub record Optimised (k : Kernel) (env : Around) (e : DefSub) (st st' : DefState) (r : Option RrSkb)
    : Type 0 where
  pub window :
      (sk : ℕ) → (st'.socks sk ≡ st.socks sk) ⊎ ((sk ≢ e.sk) × Halved (st.socks sk) (st'.socks sk))
  pub punished : Punished e st st'
  pub subflows : Touched env st.socks e st.conn.subflows st'.conn.subflows
  pub queues : st'.conn ≡ record st.conn { subflows = st'.conn.subflows }
  pub retransmits :
      (h : RrSkb)
      → r ≡ some h
      → (head_of st.conn.sent ≡ some h)
        × (bit h.path_mask (e.path_index - 1) ≡ false)
        × (mptcp_is_available k st'.socks e (some h.skb) false ≡ true)

pub List-cases :
    {A : Type 0} (xs : List A) → (xs ≡ []) ⊎ ((x : A) × (rest : List A) × (xs ≡ x ∷ rest))
List-cases [] = inl refl
List-cases (x ∷ xs) = inr (x, xs, refl)

guarded :
    (head h : RrSkb) (a w v : Bool)
    → (if not a && w && v then some head else none) ≡ some h
    → (head ≡ h) × (a ≡ false) × (v ≡ true)
guarded head h false true true eq = (cc, refl, refl)
guarded head h false true false eq = absurd (cc)
guarded head h false false v eq = absurd (cc)
guarded head h true w v eq = absurd (cc)

retrans-some :
    (k : Kernel) (e : DefSub) (head h : RrSkb) (st : DefState)
    → retrans k e head st ≡ some h
    → (head ≡ h)
      × (bit head.path_mask (e.path_index - 1) ≡ false)
      × (mptcp_is_available k st.socks e (some head.skb) false ≡ true)
unfolding retrans
retrans-some k e head h st eq =
    guarded head h (bit head.path_mask (e.path_index - 1))
      (worth_retrans st.socks e head false st.conn.subflows)
      (mptcp_is_available k st.socks e (some head.skb) false) eq

Optimised-none :
    (k : Kernel) (env : Around) (e : DefSub) (st : DefState) → Optimised k env e st st none
Optimised-none k env e st = record {
  window = λ sk. inl refl;
  punished = nobody refl;
  subflows = Touched-refl env st.socks e st.conn.subflows;
  queues = refl;
  retransmits = λ h eq. absurd (cc);
}

retrans-Optimised :
    (k : Kernel) (env : Around) (e : DefSub) (head : RrSkb) (rest : List RrSkb) (st st' : DefState)
    → st.conn.sent ≡ head ∷ rest
    → ((sk : ℕ)
        → (st'.socks sk ≡ st.socks sk) ⊎ ((sk ≢ e.sk) × Halved (st.socks sk) (st'.socks sk)))
    → Punished e st st'
    → Touched env st.socks e st.conn.subflows st'.conn.subflows
    → st'.conn ≡ record st.conn { subflows = st'.conn.subflows }
    → Optimised k env e st st' (retrans k e head st')
retrans-Optimised k env e head rest st st' eq w p touched q = record {
  window = w;
  punished = p;
  subflows = touched;
  queues = q;
  retransmits =
      λ h r. let (same, a, v) = retrans-some k e head h st' r in rw (← same) (ap head_of eq, a, v);
}

pub mptcp_rcv_buf_optimization-Optimised :
    (k : Kernel) (env : Around) (e : DefSub) (penal : Bool) (st : DefState)
    → (let (st', r) = mptcp_rcv_buf_optimization k env e penal st in Optimised k env e st st' r)
unfolding mptcp_rcv_buf_optimization
mptcp_rcv_buf_optimization-Optimised k env e penal st =
    let lenient =
      (not penal && env.stream_memory_free)
      || ltb (sub32 env.time_stamp e.last_rbuf_opti)
          (env.usecs_to_jiffies ((st.socks e.sk).srtt_us / 2 ^ 3)) in
    let by =
      λ (r : DefState × Option RrSkb) (eq : mptcp_rcv_buf_optimization k env e penal st ≡ r)
          (o : Optimised k env e st r.0 r.1).
        subst (λ (x : DefState × Option RrSkb). Optimised k env e st x.0 x.1) (sym eq) o in
    elim (List-cases st.conn.sent) [
      | inl empty ↦ by (st, none) (rw empty refl) (Optimised-none k env e st)
      | inr (head, rest, eq) ↦ elim (Bool-cases (length st.conn.subflows == 1)) [
        | inl single ↦ by (st, none) (rw (eq, single) refl) (Optimised-none k env e st)
        | inr several ↦ elim (Bool-cases lenient) [
          | inl on ↦
              by (st, retrans k e head st) (rw (eq, several, on) refl)
                (retrans-Optimised k env e head rest st st eq (λ sk. inl refl) (nobody refl)
                  (Touched-refl env st.socks e st.conn.subflows) refl)
          | inr off ↦
              let st' = penalise env e head st in
              let (same, touched, queues) = penalise-window env e head st 0 in
              by (st', retrans k e head st') (rw (eq, several, off) refl)
                (retrans-Optimised k env e head rest st st' eq
                  (λ sk. (penalise-window env e head st sk).0) (penalise-Punished env e head st)
                  touched queues)
        ]
      ]
    ]
