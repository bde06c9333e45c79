-- ===== src/Lowpass/Gate/Upto.antt =====
-- The time of the last segment that was handed up on one socket, through the calls of the lowpass.
use redundant_mptcp_r_mptcp.Prelude.{
  ℕ, ◌≤◌, ◌≡◌, ◌≢◌, ◌⊎◌, inl, inr, Bool, true, false, ◌||◌, Bool-cases, Option-cases, Option, some,
  ◌>>=◌, List, [], ◌∷◌, ◌++◌, All, ℤ, pos, pos_part, ◌==◌, ap, arith,
}
use mathlib.Core.Path.{subst}
use redundant_mptcp_r_mptcp.Lowpass.Gate.{
  Channel, is_stale, any, reset_stale, on_channel, register, no_future, is_silent, hand_up, lowpass,
}
use redundant_mptcp_r_mptcp.Lowpass.Gate.Channels.{
  IsTime, IsGate, Within, register_cases, register-IsGate, reset_stale-IsGate,
}

-- The first channel of the socket, if it has one, has a time of at most `n`.
abbrev pub Upto : (sk n : ℕ) → List Channel → Type 0
Upto sk n [] = Unit
Upto sk n (c ∷ cs) = ((c.sk ≡ sk) × (pos_part c.last_send ≤ n)) ⊎ ((c.sk ≢ sk) × Upto sk n cs)

pub Within-Upto : (sk n : ℕ) (cs : List Channel) → Within sk n cs → Upto sk n cs
Within-Upto sk n [] h = absurd h
Within-Upto sk n (c ∷ cs) h = elim h [
  | inl at ↦ inl at
  | inr (other, later) ↦ inr (other, Within-Upto sk n cs later)
]

pub Upto-Within :
    (sk n : ℕ) (cs : List Channel) → any (λ c. c.sk == sk) cs ≡ true → Upto sk n cs → Within sk n cs
unfolding any
Upto-Within sk n [] known h = absurd (cc)
Upto-Within sk n (c ∷ cs) known h = elim h [
  | inl at ↦ inl at
  | inr (other, later) ↦ inr (other, Upto-Within sk n cs (ground arith) later)
]

append-Upto :
    (sk n : ℕ) (cs : List Channel) (c : Channel)
    → pos_part c.last_send ≤ n
    → Upto sk n cs
    → Upto sk n (cs ++ (c ∷ []))
append-Upto sk n [] c low h = elim (Bool-cases (c.sk == sk)) [
  | inl here ↦ inl (ground (arith, here), low)
  | inr other ↦ inr ((λ e. ground (arith, other, e)), tt)
]
append-Upto sk n (d ∷ cs) c low h = elim h [
  | inl at ↦ inl at
  | inr (other, later) ↦ inr (other, append-Upto sk n cs c low later)
]

pub reset_stale-Upto :
    (sk n : ℕ) (now : ℤ) (cs : List Channel) → Upto sk n cs → Upto sk n (reset_stale now cs)
unfolding reset_stale
reset_stale-Upto sk n now cs h = elim (Bool-cases (any (is_stale now) cs)) [
  | inl stale ↦ rw stale tt
  | inr fresh ↦ rw fresh h
]

pub register-Upto :
    (sk n sk' : ℕ) (cs cs' : List Channel)
    → register sk' cs ≡ some cs'
    → Upto sk n cs
    → Upto sk n cs'
register-Upto sk n sk' cs cs' eq h = elim (register_cases sk' cs) [
  | inl (known, same) ↦ let e : cs ≡ cs' = cc in rw (← e) h
  | inr other ↦ elim other [
    | inl (new, room, added) ↦
        let c : Channel = record { sk = sk'; last_send = pos 0 } in
        let e : cs ++ (c ∷ []) ≡ cs' = cc in rw (← e) (append-Upto sk n cs c (omega arith) h)
    | inr (new, full, fault) ↦ absurd (cc)
  ]
]

-- No call brings a time forward that is not in the future.
no_future-Upto :
    (sk n m sk' : ℕ) (cs : List Channel)
    → All IsTime cs
    → Upto sk n cs
    → Upto sk n (on_channel sk' (no_future (pos m)) cs)
unfolding on_channel no_future
no_future-Upto sk n m sk' [] t h = tt
no_future-Upto sk n m sk' (c ∷ cs) t h = elim (Bool-cases (c.sk == sk')) [
  | inl here ↦ elim h [
    | inl at ↦ rw here (inl (ground arith, ground (arith, t.0, at)))
    | inr (other, later) ↦ rw here (inr ((λ e. ground (arith, other, e)), later))
  ]
  | inr elsewhere ↦ elim h [
    | inl at ↦ rw elsewhere (inl at)
    | inr (other, later) ↦ rw elsewhere (inr (other, no_future-Upto sk n m sk' cs t.1 later))
  ]
]

-- A time that is noted at another socket.
stamp-Upto :
    (sk n sk' : ℕ) (now : ℤ) (cs : List Channel)
    → sk' ≢ sk
    → Upto sk n cs
    → Upto sk n (on_channel sk' (λ c. record c { last_send = now }) cs)
unfolding on_channel
stamp-Upto sk n sk' now [] ne h = tt
stamp-Upto sk n sk' now (c ∷ cs) ne h = elim (Bool-cases (c.sk == sk')) [
  | inl here ↦ elim h [
    | inl at ↦ absurd (ground (arith, ne, here, at))
    | inr (other, later) ↦ rw here (inr (other, later))
  ]
  | inr elsewhere ↦ elim h [
    | inl at ↦ rw elsewhere (inl at)
    | inr (other, later) ↦ rw elsewhere (inr (other, stamp-Upto sk n sk' now cs ne later))
  ]
]

module _ (learned_timeout sk n m sk' : ℕ) (dsn_hit : Bool) where
  hand_up-Upto :
      (cs : List Channel)
      → All IsTime cs
      → Upto sk n cs
      → let out = hand_up learned_timeout (pos m) sk' dsn_hit cs in
        (out.1 ≡ false) ⊎ (sk' ≢ sk) → Upto sk n out.0
  unfolding hand_up
  hand_up-Upto cs t h quiet =
      let there = on_channel sk' (no_future (pos m)) cs in
      let kept = no_future-Upto sk n m sk' cs t h in
      elim (Bool-cases (dsn_hit || any (is_silent learned_timeout (pos m)) there)) [
        | inr stop ↦ rw stop kept
        | inl up ↦
            let ne : sk' ≢ sk = elim quiet [
              | inl held ↦ absurd (cc (rw up at held))
              | inr other ↦ other
            ] in
            rw up (stamp-Upto sk n sk' (pos m) there ne kept)
      ]

  -- A call that hands up no segment of the socket leaves its time, or takes it back.
  pub lowpass-Upto :
      (cs cs' : List Channel) (pass : Bool)
      → IsGate cs
      → lowpass learned_timeout (pos m) sk' dsn_hit cs ≡ some (cs', pass)
      → (pass ≡ false) ⊎ (sk' ≢ sk)
      → Upto sk n cs
      → Upto sk n cs'
  unfolding lowpass
  lowpass-Upto cs cs' pass g h quiet up =
      let left = reset_stale (pos m) cs in
      elim (Option-cases (register sk' left)) [
        | inl fault ↦ absurd (cc)
        | inr (there, ok) ↦
            let g' = (register-IsGate sk' left there ok (reset_stale-IsGate (pos m) cs g)).0 in
            let kept = register-Upto sk n sk' left there ok (reset_stale-Upto sk n (pos m) cs up) in
            let e : hand_up learned_timeout (pos m) sk' dsn_hit there ≡ (cs', pass) =
              cc (ap (λ o. o >>= after) ok) in
            subst (λ (o : List Channel × Bool). (o.1 ≡ false) ⊎ (sk' ≢ sk) → Upto sk n o.0) e
              (hand_up-Upto there g'.times kept) quiet
      ]
    where
      after : List Channel → Option (List Channel × Bool)
      after ds = some (hand_up learned_timeout (pos m) sk' dsn_hit ds)
