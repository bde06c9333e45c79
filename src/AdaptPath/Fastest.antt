-- ===== src/AdaptPath/Fastest.antt =====
-- The search for the subflow that lends its addresses: the fastest one.
use redundant_mptcp_r_mptcp.Prelude.{
  ℕ, zero, suc, ◌+◌, ◌^◌, ◌<◌, ◌≤◌, ◌≡◌, ◌⊎◌, refl, inl, inr, Bool, true, not, ◌&&◌, Bool-cases,
  List, [], ◌∷◌, ◌++◌, All, u32, ltb, length, get_or, arith,
}
use redundant_mptcp_r_mptcp.Register.{RedSk, empty_slot}
use redundant_mptcp_r_mptcp.AdaptPath.{fastest}

-- A subflow that can lend its addresses.
abbrev pub can_lend : RedSk → Bool
can_lend e = e.state.enabled && not e.state.cong

-- An entry of the list that can lend its addresses, and none that can has a higher mean bandwidth.
pub record IsFastest (es : List RedSk) (b : RedSk) : Type 0 where
  pub place : ℕ
  pub inside : place < length es
  pub here : get_or es place empty_slot ≡ b
  pub lends : can_lend b ≡ true
  pub most : All (λ e. can_lend e ≡ true → e.bandwidth_mean ≤ b.bandwidth_mean) es

-- The search found an entry that is faster than the limit it began with.
pub record Found (i highest n : ℕ) (es spare : List RedSk) (b : RedSk) : Type 0 where
  pub best : IsFastest es b
  pub at : n ≡ i + best.place
  pub in_array : get_or (es ++ spare) best.place empty_slot ≡ b
  pub higher : highest < b.bandwidth_mean

-- The limit has room for every entry that can lend its addresses.
abbrev pub Limits : (highest : ℕ) → List RedSk → Type 0
Limits highest = All (λ e. can_lend e ≡ true → e.bandwidth_mean ≤ highest)

Limits-mono : (low high : ℕ) (es : List RedSk) → low ≤ high → Limits low es → Limits high es
Limits-mono low high [] le h = tt
Limits-mono low high (e ∷ es) le h = ((λ c. omega (arith, h.0 c)), Limits-mono low high es le h.1)

-- An entry in front of what was found.
Found-later :
    (i highest n : ℕ) (e : RedSk) (es spare : List RedSk) (b : RedSk)
    → (can_lend e ≡ true → e.bandwidth_mean ≤ highest)
    → Found (suc i) highest n es spare b
    → Found i highest n (e ∷ es) spare b
Found-later i highest n e es spare b le f = record {
  best = record {
    place = suc f.best.place;
    inside = omega (arith, f.best.inside);
    here = f.best.here;
    lends = f.best.lends;
    most = ((λ c. omega (arith, le c, f.higher)), f.best.most);
  };
  at = omega (arith, f.at);
  in_array = f.in_array;
  higher = f.higher;
}

pub fastest-Found :
    (i highest highest_i : ℕ) (es spare : List RedSk)
    → All (λ e. e.bandwidth_mean < 2 ^ 32) es
    → let n = fastest i highest highest_i es in
      ((n ≡ highest_i) × Limits highest es) ⊎ ((b : RedSk) × Found i highest n es spare b)
unfolding fastest
fastest-Found i highest highest_i [] spare fits = inl (refl, tt)
fastest-Found i highest highest_i (e ∷ es) spare fits =
    elim (Bool-cases (can_lend e && ltb highest e.bandwidth_mean)) [
      | inr other ↦
          let le : can_lend e ≡ true → e.bandwidth_mean ≤ highest = λ c. ground arith in
          rw (other, fastest)
            (elim (fastest-Found (suc i) highest highest_i es spare fits.1) [
              | inl (same, limits) ↦ inl (same, (le, limits))
              | inr (b, found) ↦ inr (b, Found-later i highest _ e es spare b le found)
            ])
      | inl better ↦
          let whole : u32 e.bandwidth_mean ≡ e.bandwidth_mean = omega (arith, fits.0) in
          let above : highest < e.bandwidth_mean = ground arith in
          rw (better, whole, fastest)
            (elim (fastest-Found (suc i) e.bandwidth_mean i es spare fits.1) [
              | inl (same, limits) ↦ inr (
                e,
                record {
                  best = record {
                    place = 0;
                    inside = omega arith;
                    here = refl;
                    lends = ground arith;
                    most = ((λ c. omega arith), limits);
                  };
                  at = omega (arith, same);
                  in_array = refl;
                  higher = above;
                },
              )
              | inr (b, found) ↦
                  let later =
                    Found-later i e.bandwidth_mean _ e es spare b (λ c. omega arith) found in
                  inr (
                    b,
                    record {
                      best = later.best;
                      at = later.at;
                      in_array = later.in_array;
                      higher = omega (arith, above, later.higher);
                    },
                  )
            ])
    ]

pub Limits-get_or :
    (highest i : ℕ) (es : List RedSk)
    → Limits highest es
    → i < length es
    → can_lend (get_or es i empty_slot) ≡ true
    → (get_or es i empty_slot).bandwidth_mean ≤ highest
Limits-get_or highest i [] h lt c = absurd (omega arith)
Limits-get_or highest zero (e ∷ es) h lt c = h.0 c
Limits-get_or highest (suc i) (e ∷ es) h lt c = Limits-get_or highest i es h.1 (omega arith) c
