-- ===== src/Lowpass/Gate/Release.antt =====
-- When the lowpass holds a segment back, and for how long.
use redundant_mptcp_r_mptcp.Prelude.{
  ℕ, ◌+◌, ◌^◌, ◌≤◌, ◌<◌, ◌≡◌, ◌≢◌, ◌⊎◌, ◌↔◌, refl, inl, inr, Bool, true, false, ◌||◌, Bool-cases,
  Option-cases, Option, none, ◌>>=◌, ap, some, List, [], ◌∷◌, All, pos, pos_part, ◌==◌, length,
  arith,
}
use mathlib.Core.Path.{subst}
use redundant_mptcp_r_mptcp.Lowpass.Gate.{
  Channel, any, reset_stale, on_channel, register, no_future, is_silent, hand_up, lowpass,
}
use redundant_mptcp_r_mptcp.Lowpass.Gate.Upto.{
  Upto, Within-Upto, Upto-Within, reset_stale-Upto, register-Upto, lowpass-Upto,
}
use redundant_mptcp_r_mptcp.Lowpass.Gate.Channels.{
  IsTime, IsGate, sent_at, reset_stale-IsGate, register_cases, register-IsGate, Within,
  no_future-Within, stamp-IsGate, none_silent, some_silent,
}

-- On at most 20 channels a call writes behind the end of the arrays exactly if 20 are left after
-- the reset and none of them is that of the socket: the code tests the index only after the writes.
pub lowpass-none-iff-full :
    (learned_timeout n sk : ℕ) (dsn_hit : Bool) (cs : List Channel)
    → IsGate cs
    → let left = reset_stale (pos n) cs in
      (lowpass learned_timeout (pos n) sk dsn_hit cs ≡ none)
      ↔ ((length left ≡ 20) × (any (λ c. c.sk == sk) left ≡ false))
unfolding lowpass
lowpass-none-iff-full learned_timeout n sk dsn_hit cs g =
    let left = reset_stale (pos n) cs in
    let fits = (reset_stale-IsGate (pos n) cs g).fits in
    elim (register_cases sk left) [
      | inl (known, same) ↦ (λ h. absurd (cc (ap (λ o. o >>= after) same, h)), λ h. cc)
      | inr other ↦ elim other [
        | inl (new, room, added) ↦
            (λ h. absurd (cc (ap (λ o. o >>= after) added, h)), λ h. absurd (omega (arith, h.0)))
        | inr (new, full, fault) ↦ (λ h. (omega arith, new), λ h. ap (λ o. o >>= after) fault)
      ]
    ]
  where
    after : List Channel → Option (List Channel × Bool)
    after cs' = some (hand_up learned_timeout (pos n) sk dsn_hit cs')

-- What a call leaves: the ranges; where the segment is handed up, the time at its socket; where it
-- is held back, that it was no hit and that every channel was used within the learned time.
pub record Decided (learned_timeout n sk : ℕ) (dsn_hit : Bool) (cs : List Channel) (pass : Bool)
    : Type 0 where
  pub valid : IsGate cs
  pub passed : pass ≡ true → sent_at sk cs ≡ some (pos n)
  pub held :
      pass ≡ false
      → (dsn_hit ≡ false)
        × All (λ c. n ≤ pos_part c.last_send + learned_timeout) cs
        × Within sk n cs

module _ (learned_timeout n sk : ℕ) (dsn_hit : Bool) (fits32 : learned_timeout < 2 ^ 32)
    (fits63 : n < 2 ^ 63) where
  hand_up-Decided :
      (cs : List Channel)
      → IsGate cs
      → any (λ c. c.sk == sk) cs ≡ true
      → let out = hand_up learned_timeout (pos n) sk dsn_hit cs in
        Decided learned_timeout n sk dsn_hit out.0 out.1
  unfolding hand_up
  hand_up-Decided cs g known =
      let there = on_channel sk (no_future (pos n)) cs in
      let (g', within) = no_future-Within sk n cs fits63 g known in
      let (stamped, at) = stamp-IsGate sk n n there fits63 g' within in
      elim (Bool-cases (dsn_hit || any (is_silent learned_timeout (pos n)) there)) [
        | inl up ↦ rw up (record { valid = stamped; passed = λ e. at; held = λ e. absurd (cc) })
        | inr stop ↦ rw stop (record {
          valid = g';
          passed = λ e. absurd (cc);
          held = λ e. (
            ground arith,
            none_silent learned_timeout n fits32 fits63 there g'.times (ground arith),
            within,
          );
        })
      ]

  -- For a learned time that fits an `unsigned int` and a positive time that fits an s64, every call
  -- from a list in its ranges that does not fault keeps the ranges. It hands the segment
  -- up and notes the time at its socket, or holds it back: then it was no hit, and every channel of
  -- the list was used within the learned time, that of the segment's socket not after now.
  pub lowpass-Decided :
      (cs cs' : List Channel) (pass : Bool)
      → IsGate cs
      → lowpass learned_timeout (pos n) sk dsn_hit cs ≡ some (cs', pass)
      → Decided learned_timeout n sk dsn_hit cs' pass
  unfolding lowpass
  lowpass-Decided cs cs' pass g h = elim (Option-cases (register sk (reset_stale (pos n) cs))) [
    | inl fault ↦ absurd (cc)
    | inr (there, ok) ↦
        let (g', known) =
          register-IsGate sk (reset_stale (pos n) cs) there ok (reset_stale-IsGate (pos n) cs g) in
        let e : hand_up learned_timeout (pos n) sk dsn_hit there ≡ (cs', pass) =
          cc (ap (λ o. o >>= after) ok) in
        subst (λ o. Decided learned_timeout n sk dsn_hit o.0 o.1) e (hand_up-Decided there g' known)
  ]
    where
      after : List Channel → Option (List Channel × Bool)
      after ds = some (hand_up learned_timeout (pos n) sk dsn_hit ds)

-- A time that is not in the future stays.
no_future-same :
    (sk n m : ℕ) (cs : List Channel)
    → n ≤ m
    → All IsTime cs
    → Within sk n cs
    → on_channel sk (no_future (pos m)) cs ≡ cs
unfolding on_channel no_future
no_future-same sk n m [] le t w = refl
no_future-same sk n m (c ∷ cs) le t w = elim w [
  | inl at ↦ ground (arith, t.0)
  | inr later ↦ ground (arith, no_future-same sk n m cs le t.1 later.1)
]

-- Any calls in a row, of which none hands up a segment of the socket: each holds back what it gets, or
-- is for another socket. Learned times fit an `unsigned int`, times are positive and fit an s64.
pub data Meanwhile (sk : ℕ) : List Channel → List Channel → Type 0 where
  end : (cs : List Channel) → Meanwhile sk cs cs
  call :
      (learned_timeout n sk' : ℕ) (dsn_hit pass : Bool) (cs cs' ds : List Channel)
      → learned_timeout < 2 ^ 32
      → n < 2 ^ 63
      → lowpass learned_timeout (pos n) sk' dsn_hit cs ≡ some (cs', pass)
      → (pass ≡ false) ⊎ (sk' ≢ sk)
      → Meanwhile sk cs' ds
      → Meanwhile sk cs ds

Meanwhile-Upto :
    (sk n : ℕ) (cs ds : List Channel)
    → Meanwhile sk cs ds
    → IsGate cs
    → Upto sk n cs
    → IsGate ds × Upto sk n ds
Meanwhile-Upto sk n cs ds (end _) g u = (g, u)
Meanwhile-Upto sk n cs ds (call learned t sk' hit pass _ cs' _ lt lt63 eq quiet rest) g u =
    Meanwhile-Upto sk n cs' ds rest
      (lowpass-Decided learned t sk' hit lt lt63 cs cs' pass g eq).valid
      (lowpass-Upto learned sk n t sk' hit cs cs' pass g eq quiet u)

-- A call that finds no room behind 20 other sockets, or hands the segment up.
abbrev pub Handed : (later n sk : ℕ) → (dsn_hit : Bool) → List Channel → Type 0
Handed later n sk dsn_hit cs =
    let left = reset_stale (pos n) cs in
    ((lowpass later (pos n) sk dsn_hit cs ≡ none)
      × (length left ≡ 20)
      × (any (λ c. c.sk == sk) left ≡ false))
    ⊎ ((cs' : List Channel) × (lowpass later (pos n) sk dsn_hit cs ≡ some (cs', true)))

Upto-Handed :
    (later n sk n' : ℕ) (dsn_hit : Bool) (cs : List Channel)
    → later < 2 ^ 32
    → n + later < n'
    → n' < 2 ^ 63
    → IsGate cs
    → Upto sk n cs
    → Handed later n' sk dsn_hit cs
unfolding lowpass hand_up
Upto-Handed later n sk n' hit cs lt after lt63 g u =
    let left = reset_stale (pos n') cs in
    elim (Option-cases (register sk left)) [
      | inl full ↦
          let fault : lowpass later (pos n') sk hit cs ≡ none = rw full refl in
          let (many, absent) = (lowpass-none-iff-full later n' sk hit cs g).0 fault in
          inl (fault, many, absent)
      | inr (ds, found) ↦
          let (g', known) = register-IsGate sk left ds found (reset_stale-IsGate (pos n') cs g) in
          let u' = register-Upto sk n sk left ds found (reset_stale-Upto sk n (pos n') cs u) in
          let within = Upto-Within sk n ds known u' in
          let same = no_future-same sk n n' ds (omega arith) g'.times within in
          let silent = some_silent later n' lt lt63 sk n ds g'.times after within in
          let up : (hit || any (is_silent later (pos n')) ds) ≡ true = ground (arith, silent) in
          inr (on_channel sk (λ c. record c { last_send = pos n' }) ds, rw (found, ◌>>=◌, same, up))
    ]

-- After a call that holds back a segment of a socket, let any calls follow of which none hands up a
-- segment of that socket: calls for other sockets, and calls for it that hold their segment back,
-- at whatever times. The first call for the socket then that comes more than the learned time after
-- the first of all hands its segment up, whether it is a hit or not, or else it writes behind the
-- arrays, since 20 other sockets are registered. The learned time may have changed in between. The
-- channels are in their ranges, learned times fit an `unsigned int`, and times are positive and fit
-- an s64.
pub lowpass_releases :
    (learned_timeout n sk : ℕ) (dsn_hit : Bool) (cs cs' ds : List Channel) (later n' : ℕ)
    (dsn_hit' : Bool)
    → learned_timeout < 2 ^ 32
    → later < 2 ^ 32
    → n + later < n'
    → n' < 2 ^ 63
    → IsGate cs
    → lowpass learned_timeout (pos n) sk dsn_hit cs ≡ some (cs', false)
    → Meanwhile sk cs' ds
    → Handed later n' sk dsn_hit' ds
lowpass_releases learned n sk hit cs cs' ds later n' hit' lt lt' after lt63 g h between =
    let d = lowpass-Decided learned n sk hit lt (omega arith) cs cs' false g h in
    let (g', u) =
      Meanwhile-Upto sk n cs' ds between d.valid (Within-Upto sk n cs' (d.held refl).2) in
    Upto-Handed later n sk n' hit' ds lt' after lt63 g' u
