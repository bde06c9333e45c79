-- ===== src/Lowpass/Gate/Channels.antt =====
-- The list of channels of the lowpass: its ranges, and what each step of a call does to it.
use redundant_mptcp_r_mptcp.Prelude.{
  ℕ, ◌+◌, ◌^◌, ◌≤◌, ◌<◌, ◌≡◌, ◌≢◌, refl, ◌⊎◌, inl, inr, Bool, true, false, ◌||◌, Bool-cases, Option,
  none, some, List, [], ◌∷◌, ◌++◌, All, ℤ, pos, pos_part, neg_part, u64_of, ltb, ◌==◌, length,
  All-append, length-append, arith, ◌∙◌, if◌then◌else◌,
}
use redundant_mptcp_r_mptcp.Lowpass.Gate.{
  Channel, is_stale, any, reset_stale, on_channel, register, no_future, is_silent,
}

-- Times are not negative and fit an s64, and the channels fit the arrays.
abbrev pub IsTime : Channel → Type 0
IsTime c = (neg_part c.last_send ≡ 0) × (pos_part c.last_send < 2 ^ 63)

pub record IsGate (cs : List Channel) : Type 0 where
  pub fits : length cs ≤ 20
  pub times : All IsTime cs

-- The time of the first channel of a socket.
abbrev pub sent_at : (sk : ℕ) → List Channel → Option ℤ
sent_at sk [] = none
sent_at sk (c ∷ cs) = if c.sk == sk then some c.last_send else sent_at sk cs

pub reset_stale-IsGate : (now : ℤ) (cs : List Channel) → IsGate cs → IsGate (reset_stale now cs)
unfolding reset_stale
reset_stale-IsGate now cs h = elim (Bool-cases (any (is_stale now) cs)) [
  | inl stale ↦ rw stale (record { fits = omega arith; times = tt })
  | inr fresh ↦ rw fresh h
]

-- The cases of a registration.
pub register_cases :
    (sk : ℕ) (cs : List Channel)
    → ((any (λ c. c.sk == sk) cs ≡ true) × (register sk cs ≡ some cs))
      ⊎ ((any (λ c. c.sk == sk) cs ≡ false)
          × (length cs < 20)
          × (register sk cs ≡ some (cs ++ (record { sk = sk; last_send = pos 0 } ∷ []))))
      ⊎ ((any (λ c. c.sk == sk) cs ≡ false) × (20 ≤ length cs) × (register sk cs ≡ none))
unfolding register
register_cases sk cs = elim (Bool-cases (any (λ c. c.sk == sk) cs)) [
  | inl known ↦ inl (known, rw known)
  | inr new ↦ elim (Bool-cases (ltb (length cs) 20)) [
    | inl room ↦ inr (inl (new, ground arith, rw (new, room)))
    | inr full ↦ inr (inr (new, ground arith, rw (new, full)))
  ]
]

-- Where a registration succeeds, the socket has a channel.
any-append :
    (test : Channel → Bool) (cs ds : List Channel)
    → any test (cs ++ ds) ≡ (any test cs || any test ds)
unfolding any
any-append test [] ds = refl
any-append test (c ∷ cs) ds = ground (arith, any-append test cs ds)

pub register-IsGate :
    (sk : ℕ) (cs cs' : List Channel)
    → register sk cs ≡ some cs'
    → IsGate cs
    → IsGate cs' × (any (λ c. c.sk == sk) cs' ≡ true)
unfolding any
register-IsGate sk cs cs' h g = elim (register_cases sk cs) [
  | inl (known, same) ↦ let e : cs ≡ cs' = cc in rw (← e) (g, known)
  | inr other ↦ elim other [
    | inl (new, room, added) ↦
        let c : Channel = record { sk = sk; last_send = pos 0 } in
        let e : cs ++ (c ∷ []) ≡ cs' = cc in
        rw (← e) (
          record {
            fits = omega (arith, length-append cs (c ∷ []));
            times = All-append IsTime cs (c ∷ []) g.times (omega arith, tt);
          },
          any-append (λ (c' : Channel). c'.sk == sk) cs (c ∷ []) ∙ ground (arith, new),
        )
    | inr (new, full, fault) ↦ absurd (cc)
  ]
]

length-on_channel :
    (sk : ℕ) (f : Channel → Channel) (cs : List Channel) → length (on_channel sk f cs) ≡ length cs
unfolding on_channel
length-on_channel sk f [] = refl
length-on_channel sk f (c ∷ cs) = ground (arith, length-on_channel sk f cs)

-- The first channel of the socket has a time of at most `n`.
abbrev pub Within : (sk n : ℕ) → List Channel → Type 0
Within sk n [] = ⊥
Within sk n (c ∷ cs) = ((c.sk ≡ sk) × (pos_part c.last_send ≤ n)) ⊎ ((c.sk ≢ sk) × Within sk n cs)

pub no_future-Within :
    (sk n : ℕ) (cs : List Channel)
    → n < 2 ^ 63
    → IsGate cs
    → any (λ c. c.sk == sk) cs ≡ true
    → let there = on_channel sk (no_future (pos n)) cs in IsGate there × Within sk n there
unfolding any on_channel no_future
no_future-Within sk n [] lt g h = absurd (cc)
no_future-Within sk n (c ∷ cs) lt g h = elim (Bool-cases (c.sk == sk)) [
  | inl here ↦
      let at : c.sk ≡ sk = ground arith in
      rw here (
        record { fits = g.fits; times = (ground (arith, g.times.0), g.times.1) },
        inl (ground arith, ground (arith, g.times.0)),
      )
  | inr other ↦
      let rest =
        no_future-Within sk n cs lt (record { fits = omega (arith, g.fits); times = g.times.1 })
          (ground arith) in
      rw other (
        record {
          fits = omega (arith, length-on_channel sk (no_future (pos n)) cs, g.fits);
          times = (g.times.0, rest.0.times);
        },
        inr (λ e. ground arith, rest.1),
      )
]

-- A time that is written into the channel of the socket.
pub stamp-IsGate :
    (sk m n : ℕ) (cs : List Channel)
    → m < 2 ^ 63
    → IsGate cs
    → Within sk n cs
    → let sent = on_channel sk (λ c. record c { last_send = pos m }) cs in
      IsGate sent × (sent_at sk sent ≡ some (pos m))
unfolding on_channel
stamp-IsGate sk m n [] lt g h = absurd h
stamp-IsGate sk m n (c ∷ cs) lt g h = elim (Bool-cases (c.sk == sk)) [
  | inl here ↦ rw here (record { fits = g.fits; times = (omega arith, g.times.1) }, rw here)
  | inr other ↦
      let inner : Within sk n cs = elim h [
        | inl at ↦ absurd (ground arith)
        | inr later ↦ later.1
      ] in
      let g' : IsGate cs = record { fits = omega (arith, g.fits); times = g.times.1 } in
      let rest = stamp-IsGate sk m n cs lt g' inner in
      let f = λ (c' : Channel). record c' { last_send = pos m } in
      rw other (
        record {
          fits = omega (arith, length-on_channel sk f cs, g.fits);
          times = (g.times.0, rest.0.times);
        },
        rw other rest.1,
      )
]

module _ (learned_timeout n : ℕ) (fits32 : learned_timeout < 2 ^ 32) (fits63 : n < 2 ^ 63) where
  -- In the range of times the test on u64 is the test meant.
  is_silent-lt :
      (c : Channel)
      → IsTime c
      → pos_part c.last_send + learned_timeout < n
      → is_silent learned_timeout (pos n) c ≡ true
  unfolding is_silent u64_of
  is_silent-lt c t h = ground (arith, t)

  is_silent-ge :
      (c : Channel)
      → IsTime c
      → is_silent learned_timeout (pos n) c ≡ false
      → n ≤ pos_part c.last_send + learned_timeout
  unfolding is_silent u64_of
  is_silent-ge c t h = ground (arith, t)

  pub none_silent :
      (cs : List Channel)
      → All IsTime cs
      → any (is_silent learned_timeout (pos n)) cs ≡ false
      → All (λ c. n ≤ pos_part c.last_send + learned_timeout) cs
  unfolding any
  none_silent [] t h = tt
  none_silent (c ∷ cs) t h = (is_silent-ge c t.0 (ground arith), none_silent cs t.1 (ground arith))

  pub some_silent :
      (sk m : ℕ) (cs : List Channel)
      → All IsTime cs
      → m + learned_timeout < n
      → Within sk m cs
      → any (is_silent learned_timeout (pos n)) cs ≡ true
  unfolding any
  some_silent sk m [] t h w = absurd w
  some_silent sk m (c ∷ cs) t h w = elim w [
    | inl at ↦ ground (arith, is_silent-lt c t.0 (omega (arith, at)))
    | inr later ↦ ground (arith, some_silent sk m cs t.1 h later.1)
  ]
