-- ===== src/Default/Lowest.antt =====
-- What `lowest` gives.
use redundant_mptcp_r_mptcp.Prelude.{
  ℕ, ◌≤◌, ◌≡◌, ◌⊎◌, refl, ◌∙◌, ap, sym, Bool, true, false, Bool-cases, inl, inr, none, some, List,
  [], ◌∷◌, ltb, arith,
}
use mathlib.Core.List.{Memᴰ}
use redundant_mptcp_r_mptcp.Default.Subflow.{DefSub, find_subflow}
use redundant_mptcp_r_mptcp.Default.Choice.{lowest, any}

-- A subflow of the list that passes a test, and none that passes has a lower round trip time.
pub record IsLowest (rtt : DefSub → ℕ) (test : DefSub → Bool) (es : List DefSub) (b : DefSub)
    : Type 0 where
  pub there : Memᴰ b es
  pub passes : test b ≡ true
  pub least : (e : DefSub) → Memᴰ e es → test e ≡ true → rtt b ≤ rtt e

module _ (rtt : DefSub → ℕ) (test : DefSub → Bool) where
  -- From a first best on.
  record IsLower (a : DefSub) (es : List DefSub) (b : DefSub) : Type 0 where
    from : (b ≡ a) ⊎ (Memᴰ b es × (test b ≡ true))
    first : rtt b ≤ rtt a
    least : (e : DefSub) → Memᴰ e es → test e ≡ true → rtt b ≤ rtt e

  -- One step, after which the best is `a'`.
  IsLower-cons :
      {a a' e b : DefSub} {es : List DefSub}
      → rtt a' ≤ rtt a
      → (test e ≡ true → rtt a' ≤ rtt e)
      → (a' ≡ a) ⊎ ((a' ≡ e) × (test e ≡ true))
      → IsLower a' es b
      → IsLower a (e ∷ es) b
  IsLower-cons {a} {a'} {e} {b} h he step low = record {
    from = elim low.from [
      | inr (m, t) ↦ inr (Memᴰ.tail m, t)
      | inl same ↦ elim step [
        | inl kept ↦ inl (same ∙ kept)
        | inr (new, t) ↦ inr (Memᴰ.head (same ∙ new), ap test (same ∙ new) ∙ t)
      ]
    ];
    first = let l = low.first in omega arith;
    least = λ x m t. elim m [
      | Memᴰ.head eq ↦
          let l = low.first in
          let l' = he (ap test (sym eq) ∙ t) in let at = ap rtt eq in omega arith
      | Memᴰ.tail m' ↦ low.least x m' t
    ];
  }

  lowest-IsLower :
      (a : DefSub) (es : List DefSub)
      → (b : DefSub) × (lowest rtt test (some a) es ≡ some b) × IsLower a es b
  lowest-IsLower a [] =
      (a, refl, record { from = inl refl; first = omega arith; least = λ e m t. elim m [ ] })
  lowest-IsLower a (e ∷ es) = elim (Bool-cases (test e)) [
    | inr fails ↦
        let (b, eq, low) = lowest-IsLower a es in
        (b, rw fails eq, IsLower-cons (omega arith) (λ t. absurd (cc)) (inl refl) low)
    | inl passes ↦ elim (Bool-cases (ltb (rtt e) (rtt a))) [
      | inl less ↦
          let (b, eq, low) = lowest-IsLower e es in
          (
            b,
            rw (passes, less) eq,
            IsLower-cons (ground (arith, less)) (λ t. omega arith) (inr (refl, passes)) low,
          )
      | inr more ↦
          let (b, eq, low) = lowest-IsLower a es in
          (
            b,
            rw (passes, more) eq,
            IsLower-cons (omega arith) (λ t. ground (arith, more)) (inl refl) low,
          )
    ]
  ]

  -- None only if none passes the test.
  pub lowest-cases :
      (es : List DefSub)
      → ((lowest rtt test none es ≡ none) × (any test es ≡ false))
        ⊎ ((b : DefSub) × (lowest rtt test none es ≡ some b) × IsLowest rtt test es b)
  lowest-cases [] = inl (refl, refl)
  lowest-cases (e ∷ es) = elim (Bool-cases (test e)) [
    | inr fails ↦ elim (lowest-cases es) [
      | inl (eq, none_of) ↦ inl (rw fails eq, rw fails none_of)
      | inr (b, eq, low) ↦ inr (
        b,
        rw fails eq,
        record {
          there = Memᴰ.tail low.there;
          passes = low.passes;
          least = λ x m t. elim m [
            | Memᴰ.head same ↦ absurd (cc (ap test same))
            | Memᴰ.tail m' ↦ low.least x m' t
          ];
        },
      )
    ]
    | inl passes ↦
        let (b, eq, low) = lowest-IsLower e es in
        inr (
          b,
          rw passes eq,
          record {
            there = elim low.from [ inl same ↦ Memᴰ.head same | inr (m, t) ↦ Memᴰ.tail m ];
            passes = elim low.from [ inl same ↦ ap test same ∙ passes | inr (m, t) ↦ t ];
            least = λ x m t. elim m [
              | Memᴰ.head same ↦ (let l = low.first in let at = ap rtt same in omega arith)
              | Memᴰ.tail m' ↦ low.least x m' t
            ];
          },
        )
  ]

-- The first subflow that passes a test.
pub find_subflow-test :
    (test : DefSub → Bool) (es : List DefSub) (e : DefSub)
    → find_subflow test es ≡ some e
    → Memᴰ e es × (test e ≡ true)
unfolding find_subflow
find_subflow-test test [] e h = absurd (cc)
find_subflow-test test (x ∷ es) e h = elim (Bool-cases (test x)) [
  | inl on ↦ (let same : x ≡ e = cc (rw on at h) in (Memᴰ.head (sym same), ap test (sym same) ∙ on))
  | inr off ↦ (let (m, t) = find_subflow-test test es e (rw off at h) in (Memᴰ.tail m, t))
]
