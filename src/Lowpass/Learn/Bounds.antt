-- ===== src/Lowpass/Learn/Bounds.antt =====
-- How far the learned timeout can go.
use redundant_mptcp_r_mptcp.Prelude.{
  ℕ, suc, zero, ◌+◌, ◌-◌, ◌*◌, ◌/◌, ◌^◌, ◌≤◌, ◌<◌, ◌≡◌, ◌≢◌, refl, ap, ◌∙◌, Bool, true, false, ◌||◌,
  Bool-cases, inl, inr, List, [], ◌∷◌, All, ℤ, ◌-ℤ◌, ltb_ℤ, u32_of, s64, ◌%◌, length, modify,
  length-modify, arith,
}
use redundant_mptcp_r_mptcp.Lowpass.Queue.{peak_dsn_sk_queue}
use redundant_mptcp_r_mptcp.Lowpass.Queue.Ring.{IsRing, add_to_sk_queue-IsRing}
use redundant_mptcp_r_mptcp.Lowpass.Learn.{
  one_sec, LowpassSysctl, Learner, refresh, delta_mean_max, current_delta, learn_new, learn_each,
  sum32, max_wait, learn_mean, calc_lowpass_timeout,
}

-- The arrays are whole, the indices lie in them, and every stored gap is at most `most`.
pub record IsLearner (most : ℕ) (l : Learner) : Type 0 where
  pub ring : IsRing l.queue
  pub full_length : length l.delta_arr ≡ 20
  pub at_in : l.da_i < 20
  pub gaps : All (λ d. d ≤ most) l.delta_arr

All-modify {κ} :
    (P : ℕ → Type κ) (i : ℕ) (xs : List ℕ) {x : ℕ} → P x → All P xs → All P (modify (λ _. x) i xs)
All-modify P i [] p h = tt
All-modify P zero (y ∷ ys) p h = (p, h.1)
All-modify P (suc i) (y ∷ ys) p h = (h.0, All-modify P i ys p h.1)

-- A new gap is at most `most`: by the growth limit, or because there is no mean yet and `most` is
-- the highest `unsigned int`.
pub record Caps (sys : LowpassSysctl) (most mean : ℕ) : Type 0 where
  pub unlimited : mean ≡ 0 → 2 ^ 32 - 1 ≤ most
  pub limited : mean ≢ 0 → delta_mean_max sys mean ≤ most

u32_of-le : (a : ℤ) → u32_of a ≤ 2 ^ 32 - 1
unfolding u32_of
u32_of-le a = omega arith

delta_mean_max_small : (sys : LowpassSysctl) (mean : ℕ) → mean < 100 → delta_mean_max sys mean ≤ 99
unfolding delta_mean_max
delta_mean_max_small sys mean h =
    let quotient : mean / 100 ≡ 0 = omega arith in rw quotient (omega arith)

module _ (sys : LowpassSysctl) (now : ℤ) (most : ℕ) where
  current_delta-le : (l : Learner) → Caps sys most l.delta_mean → current_delta sys now l ≤ most
  unfolding current_delta
  current_delta-le l c = ground (arith, c.unlimited, c.limited, u32_of-le (s64 (now -ℤ l.last_new)))

  refresh-IsLearner :
      (l : Learner)
      → IsLearner most l
      → IsLearner most (refresh now l)
        × ((refresh now l).delta_mean ≡ l.delta_mean)
        × ((refresh now l).learned_timeout ≡ l.learned_timeout)
  unfolding refresh
  refresh-IsLearner l h =
      elim (Bool-cases (ltb_ℤ l.last_new (s64 (now -ℤ one_sec)) || ltb_ℤ now l.last_new)) [
        | inl old ↦ rw old (
          record { ring = h.ring; full_length = h.full_length; at_in = h.at_in; gaps = h.gaps },
          refl,
          refl,
        )
        | inr fresh ↦ rw fresh (h, refl, refl)
      ]

  learn_new-IsLearner :
      (sk data_seq : ℕ) (l : Learner)
      → Caps sys most l.delta_mean
      → IsLearner most l
      → IsLearner most (learn_new sys now sk data_seq l)
  unfolding learn_new
  learn_new-IsLearner sk data_seq l c h = record {
    ring = add_to_sk_queue-IsRing sk data_seq l.queue h.ring;
    full_length = length-modify _ l.da_i l.delta_arr ∙ h.full_length;
    at_in = ground (arith, h.at_in);
    gaps = All-modify (λ d. d ≤ most) l.da_i l.delta_arr (current_delta-le l c) h.gaps;
  }

  -- The walk keeps the mean and the timeout.
  learn_each-IsLearner :
      (sk : ℕ) (any_hit : Bool) (segs : List ℕ) (l : Learner)
      → Caps sys most l.delta_mean
      → IsLearner most l
      → let l' = (learn_each sys now sk any_hit segs l).0 in
        IsLearner most l'
        × (l'.delta_mean ≡ l.delta_mean)
        × (l'.learned_timeout ≡ l.learned_timeout)
  unfolding learn_each
  learn_each-IsLearner sk any_hit [] l c h = (h, refl, refl)
  learn_each-IsLearner sk any_hit (seg ∷ segs) l c h =
      elim (Bool-cases (peak_dsn_sk_queue sk seg l.queue)) [
        | inl hit ↦ rw (hit, learn_each) (learn_each-IsLearner sk (any_hit || true) segs l c h)
        | inr new ↦
            rw (new, learn_each)
              (unfold learn_new in
                learn_each-IsLearner sk (any_hit || false) segs (learn_new sys now sk seg l) c
                  (learn_new-IsLearner sk seg l c h))
      ]

sum32-le :
    (most acc : ℕ) (ds : List ℕ)
    → All (λ d. d ≤ most) ds
    → acc < 2 ^ 32
    → (sum32 acc ds < 2 ^ 32) × (sum32 acc ds ≤ acc + length ds * most)
unfolding sum32
sum32-le most acc [] h lt = (lt, omega arith)
sum32-le most acc (d ∷ ds) h lt =
    let rest = sum32-le most ((acc + d) % 2 ^ 32) ds h.1 (omega arith) in
    (rest.0, omega (arith, h.0))

-- Where at most 20 gaps are at most `most`, so is their mean, also where the sum wraps.
learn_mean-le :
    (sys : LowpassSysctl) (most : ℕ) (l : Learner)
    → IsLearner most l
    → let l' = learn_mean sys l in
      (l'.delta_mean ≤ most) × (l'.delta_mean ≤ max_wait sys) × (l'.learned_timeout ≡ l'.delta_mean)
unfolding learn_mean
learn_mean-le sys most l h =
    let sum = sum32-le most 0 l.delta_arr h.gaps (omega arith) in
    let whole = ap (λ (n : ℕ). n * most) h.full_length in
    let mean_le : sum32 0 l.delta_arr / 20 ≤ most = omega arith in
    (ground arith, ground arith, refl)

-- What a call leaves, with whether a segment was a hit: the gaps are still at most `most`; without
-- a hit the new mean is at most `most` and at most the user's maximal wait, and it is the timeout;
-- with one nothing is learned.
pub record Learned (sys : LowpassSysctl) (most : ℕ) (l l' : Learner) (hit : Bool) : Type 0 where
  pub valid : IsLearner most l'
  pub no_hit :
      hit ≡ false
      → (l'.delta_mean ≤ most)
        × (l'.delta_mean ≤ max_wait sys)
        × (l'.learned_timeout ≡ l'.delta_mean)
  pub some_hit :
      hit ≡ true → (l'.delta_mean ≡ l.delta_mean) × (l'.learned_timeout ≡ l.learned_timeout)

-- With whole arrays and indices inside them, and where the stored gaps and what the mean may grow
-- to (any gap, while there is no mean) are at most `most`, every call, however long the time since
-- the last segment and however many segments it sees, keeps the arrays whole, the indices inside
-- them and the stored gaps at most `most`. If no segment was a hit, the new mean is at most `most`
-- and at most the user's maximal wait, and it becomes the timeout. If one was, the mean and the
-- timeout stay as they were.
pub calc_lowpass_timeout-Learned :
    (sys : LowpassSysctl) (now : ℤ) (most sk : ℕ) (segs : List ℕ) (l : Learner)
    → Caps sys most l.delta_mean
    → IsLearner most l
    → let out = calc_lowpass_timeout sys now sk segs l in Learned sys most l out.0 out.1
unfolding calc_lowpass_timeout learn_mean
calc_lowpass_timeout-Learned sys now most sk segs l c h =
    let (start, mean, timeout) = refresh-IsLearner sys now most l h in
    let walk = learn_each sys now sk false segs (refresh now l) in
    let (kept, mean', timeout') =
      learn_each-IsLearner sys now most sk false segs (refresh now l) (rw mean c) start in
    elim (Bool-cases walk.1) [
      | inl hit ↦ rw hit (record {
        valid = kept;
        no_hit = λ e. cc;
        some_hit = λ e. (mean' ∙ mean, timeout' ∙ timeout);
      })
      | inr new ↦ rw new (record {
        valid = record {
          ring = kept.ring;
          full_length = kept.full_length;
          at_in = kept.at_in;
          gaps = kept.gaps;
        };
        no_hit = λ e. learn_mean-le sys most walk.0 kept;
        some_hit = λ e. cc;
      })
    ]

-- With whole arrays and indices inside them, the learn rate has no effect on a mean below 100 ns:
-- once the mean and the stored gaps are below 100, and the mean is not 0, they stay below 100 after
-- a call, whatever the learn rate and however long the time since the last segment.
calc_lowpass_timeout_stuck :
    (sys : LowpassSysctl) (now : ℤ) (sk : ℕ) (segs : List ℕ) (l : Learner)
    → IsLearner 99 l
    → 1 ≤ l.delta_mean
    → l.delta_mean < 100
    → let l' = (calc_lowpass_timeout sys now sk segs l).0 in IsLearner 99 l' × (l'.delta_mean < 100)
calc_lowpass_timeout_stuck sys now sk segs l h low high =
    let out = calc_lowpass_timeout sys now sk segs l in
    let caps : Caps sys 99 l.delta_mean = record {
      unlimited = λ e. absurd (omega arith);
      limited = λ e. delta_mean_max_small sys l.delta_mean high;
    } in
    let r = calc_lowpass_timeout-Learned sys now 99 sk segs l caps h in
    elim (Bool-cases out.1) [
      | inl hit ↦ (r.valid, omega (arith, r.some_hit hit))
      | inr new ↦ (r.valid, omega (arith, r.no_hit new))
    ]
