-- ===== src/Quota/Actual.antt =====
-- The measured quota follows the number of subflows in use.
use redundant_mptcp_r_mptcp.Prelude.{
  ℕ, zero, suc, ◌+◌, ◌-◌, ◌*◌, ◌^◌, ◌≤◌, ◌<◌, ◌≡◌, ◌≢◌, u32_of, s32_of, quot, arith, ltb, ◌==◌,
  Bool-cases, inl, inr, sym,
}
use mathlib.Core.Path.{subst}
use redundant_mptcp_r_mptcp.Quota.{next_actual}

-- The distance of two quotas.
abbrev pub dist : ℕ → ℕ → ℕ
dist a b = (a - b) + (b - a)

next_actual_up :
    (n q : ℕ) → n ≤ 24 → q ≢ 0 → q < n * 100 → (q < next_actual n q) × (next_actual n q ≤ n * 100)
unfolding next_actual u32_of s32_of quot
next_actual_up n q h nz lt = ground arith

next_actual_down :
    (n q : ℕ)
    → n ≤ 24
    → q < 2 ^ 31
    → n * 100 < q
    → (next_actual n q < q) × (n * 100 ≤ next_actual n q)
unfolding next_actual u32_of s32_of quot
next_actual_down n q h k lt = ground arith

-- Where the measured quota agrees it stays.
next_actual_fixed : (n : ℕ) → 1 ≤ n → n ≤ 24 → next_actual n (n * 100) ≡ n * 100
unfolding next_actual u32_of s32_of quot
next_actual_fixed n low high = ground arith

next_actual_closer :
    (n q : ℕ)
    → 1 ≤ n
    → n ≤ 24
    → q ≢ 0
    → q < 2 ^ 31
    → (dist (next_actual n q) (n * 100) ≤ dist q (n * 100) - 1)
      × (next_actual n q ≢ 0)
      × (next_actual n q < 2 ^ 31)
next_actual_closer n q low high nz k =
    ground
      (arith, next_actual_up n q high nz, next_actual_down n q high k, next_actual_fixed n low high)

-- How the measured quota `q` follows a segment on `n` subflows: the first measurement takes their
-- number over, and a later one goes a part of the way to it, not past it, or stays where it agrees.
pub data Stepped (n q q' : ℕ) : Type 0 where
  first : q ≡ 0 → q' ≡ n * 100 → Stepped n q q'
  up : q ≢ 0 → q < q' → q' ≤ n * 100 → Stepped n q q'
  down : q ≢ 0 → q' < q → n * 100 ≤ q' → Stepped n q q'
  stays : q ≡ n * 100 → q' ≡ q → Stepped n q q'

next_actual_first : (n : ℕ) → n ≤ 24 → next_actual n 0 ≡ n * 100
unfolding next_actual
next_actual_first n high = ground arith

pub next_actual-Stepped : (n q : ℕ) → 1 ≤ n → n ≤ 24 → q < 2 ^ 31 → Stepped n q (next_actual n q)
next_actual-Stepped n q low high k = elim (Bool-cases (q == 0)) [
  | inl nothing ↦
      let eq : q ≡ 0 = ground (arith, nothing) in
      first eq (subst (λ x. next_actual n x ≡ n * 100) (sym eq) (next_actual_first n high))
  | inr some_q ↦
      let nz : q ≢ 0 = λ z. ground (arith, some_q, z) in
      elim (Bool-cases (ltb q (n * 100))) [
        | inl lt ↦ let r = next_actual_up n q high nz (ground (arith, lt)) in up nz r.0 r.1
        | inr ge ↦ elim (Bool-cases (q == n * 100)) [
          | inl on ↦
              let eq : q ≡ n * 100 = ground (arith, on) in
              stays eq (subst (λ x. next_actual n x ≡ x) (sym eq) (next_actual_fixed n low high))
          | inr off ↦
              let r = next_actual_down n q high k (ground (arith, ge, off)) in down nz r.0 r.1
        ]
      ]
]

-- `m` segments in a row, each on `n` subflows.
abbrev pub measured : (m n q : ℕ) → ℕ
measured zero n q = q
measured (suc m) n q = measured m n (next_actual n q)

-- While segments go out on `n` of the at most 24 subflows, a measured quota that is not 0 and fits
-- an `int` is 100 times `n` after as many segments as it was away from it, or more.
pub measured_converges :
    (m n q : ℕ)
    → 1 ≤ n
    → n ≤ 24
    → q ≢ 0
    → q < 2 ^ 31
    → dist q (n * 100) ≤ m
    → measured m n q ≡ n * 100
measured_converges zero n q low high nz k d = omega arith
measured_converges (suc m) n q low high nz k d =
    let (closer, nz', k') = next_actual_closer n q low high nz k in
    measured_converges m n (next_actual n q) low high nz' k' (omega arith)
