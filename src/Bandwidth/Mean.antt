-- ===== src/Bandwidth/Mean.antt =====
-- The running means of `rmptcp_update_bw`.
use redundant_mptcp_r_mptcp.Prelude.{
  pos, sub_ℕ, ℕ, ◌+◌, ◌-◌, ◌^◌, ◌/◌, ◌≤◌, ◌<◌, ◌≡◌, quot, s64_of, u64_of, arith, ◌↔◌,
}
use native.Mathlib.Nat.{div-le_self}
use native.Mathlib.Decide.{dec_le}
use redundant_mptcp_r_mptcp.Bandwidth.{running_mean, deviation}

deviation_up :
    (sample mean : ℕ)
    → sample < 2 ^ 63
    → mean ≤ sample
    → deviation sample mean ≡ pos (sample - mean)
unfolding deviation s64_of
deviation_up sample mean h k = ground arith

deviation_down :
    (sample mean : ℕ)
    → mean < 2 ^ 63
    → sample ≤ mean
    → deviation sample mean ≡ sub_ℕ 0 (mean - sample)
unfolding deviation s64_of
deviation_down sample mean h k = ground arith

quot_pos : (n div : ℕ) → quot (pos n) div ≡ pos (n / div)
unfolding quot
quot_pos n div = ground arith

quot_neg : (n div : ℕ) → quot (sub_ℕ 0 n) div ≡ sub_ℕ 0 (n / div)
unfolding quot
quot_neg n div = ground arith

-- Over `div` samples, a mean steps towards a larger sample by the whole part of the difference
-- divided by `div`.
running_mean_up :
    (div sample mean : ℕ)
    → sample < 2 ^ 63
    → mean ≤ sample
    → running_mean div sample mean ≡ mean + (sample - mean) / div
unfolding running_mean u64_of
running_mean_up div sample mean h k =
    rw (deviation_up sample mean h k, quot_pos (sample - mean) div)
      (ground (arith, div-le_self (sample - mean) div))

running_mean_down :
    (div sample mean : ℕ)
    → mean < 2 ^ 63
    → sample ≤ mean
    → running_mean div sample mean ≡ mean - (mean - sample) / div
unfolding running_mean u64_of
running_mean_down div sample mean h k =
    rw (deviation_down sample mean h k, quot_neg (mean - sample) div)
      (ground (arith, div-le_self (mean - sample) div))

div-zero-iff-lt : (n div : ℕ) → 1 ≤ div → (n / div ≡ 0) ↔ (n < div)
div-zero-iff-lt n div h = (λ e. grind arith, λ lt. grind arith)

-- For values below 2 ^ 63 a running mean never overshoots: it stays between the old mean and the
-- sample. It moves exactly if the two are at least `div` apart, so it comes to rest up to `div - 1`
-- away from a steady sample.
running_mean_between :
    (div sample mean : ℕ)
    → 1 ≤ div
    → sample < 2 ^ 63
    → mean < 2 ^ 63
    → let new = running_mean div sample mean in
      (mean ≤ sample → (mean ≤ new) × (new ≤ sample))
      × (sample ≤ mean → (sample ≤ new) × (new ≤ mean))
      × ((new ≡ mean) ↔ ((sample < mean + div) × (mean < sample + div)))
running_mean_between div sample mean pos_div hs hm =
    let up = running_mean_up div sample mean hs in
    let down = running_mean_down div sample mean hm in
    let up_zero = div-zero-iff-lt (sample - mean) div pos_div in
    let down_zero = div-zero-iff-lt (mean - sample) div pos_div in
    (
      λ le. omega (arith, up le, div-le_self (sample - mean) div),
      λ le. omega (arith, down le, div-le_self (mean - sample) div),
      elim (dec_le mean sample) [
        | yes le ↦ (
          λ e. let lt = up_zero.0 (omega (arith, up le)) in (omega arith, omega arith),
          λ near. omega (arith, up le, up_zero.1 (omega arith)),
        )
        | no gt ↦ (
          λ e.
              let lt =
                down_zero.0 (omega (arith, down (omega arith), div-le_self (mean - sample) div)) in
              (omega arith, omega arith),
          λ near. omega (arith, down (omega arith), down_zero.1 (omega arith)),
        )
      ],
    )
