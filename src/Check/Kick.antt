-- ===== src/Check/Kick.antt =====
-- The loop that removes subflows beyond the target.
use redundant_mptcp_r_mptcp.Prelude.{
  ℕ, zero, suc, ◌+◌, ◌-◌, ◌≤◌, ◌<◌, ◌≡◌, refl, ◌⊎◌, inl, inr, true, false, ◌&&◌, Bool-cases,
  Option-cases, none, some, All, List, [], ◌∷◌, ◌∙◌, ℤ, modify, ltb, arith,
}
use redundant_mptcp_r_mptcp.Register.{RedSk, Kernel}
use redundant_mptcp_r_mptcp.Check.{set_available, is_avail_main, latest_main, kick_loop, kick}
use redundant_mptcp_r_mptcp.Check.Counts.{
  count_avail, count_avail_main, taken, plain, count_avail-modify, plain-modify,
}

-- The search has found an available main subflow behind position `i`.
abbrev Hit : (i : ℕ) → List RedSk → ℕ → Type 0
Hit i es j = (i ≤ j) × (taken (j - i) es ≡ true)

Hit-cons : (i j : ℕ) (e : RedSk) (es : List RedSk) → Hit (suc i) es j → Hit i (e ∷ es) j
Hit-cons i j e es h = let step : j - i ≡ suc (j - suc i) = omega arith in (omega arith, rw step h.1)

Hit-head : (i : ℕ) (e : RedSk) (es : List RedSk) → is_avail_main e ≡ true → Hit i (e ∷ es) i
Hit-head i e es h = let none_left : i - i ≡ 0 = omega arith in (omega arith, rw none_left h)

-- With a candidate at hand the search returns it or a hit.
latest_main-some :
    (k : Kernel) (i j : ℕ) (used : ℤ) (es : List RedSk)
    → (m : ℕ) × (u : ℤ) × (latest_main k i (some (j, used)) es ≡ some (m, u))
      × ((m ≡ j) ⊎ Hit i es m)
unfolding latest_main
latest_main-some k i j used [] = (j, used, refl, inl refl)
latest_main-some k i j used (e ∷ es) =
    elim (Bool-cases (is_avail_main e && k.ktime_before used e.last_used)) [
      | inl better ↦
          let (m, u, found, at) = latest_main-some k (suc i) i e.last_used es in
          let head = Hit-head i e es (ground arith) in
          (
            m,
            u,
            rw better found,
            inr (elim at [ inl here ↦ rw here head | inr later ↦ Hit-cons i m e es later ]),
          )
      | inr worse ↦
          let (m, u, found, at) = latest_main-some k (suc i) j used es in
          (
            m,
            u,
            rw worse found,
            elim at [ inl here ↦ inl here | inr later ↦ inr (Hit-cons i m e es later) ],
          )
    ]

-- Where an available main subflow is left, the search finds one.
latest_main-none :
    (k : Kernel) (i : ℕ) (es : List RedSk)
    → 1 ≤ count_avail_main es
    → (m : ℕ) × (u : ℤ) × (latest_main k i none es ≡ some (m, u)) × Hit i es m
unfolding latest_main
latest_main-none k i [] h = absurd (omega arith)
latest_main-none k i (e ∷ es) h = elim (Bool-cases (is_avail_main e)) [
  | inl first ↦
      let (m, u, found, at) = latest_main-some k (suc i) i e.last_used es in
      let head = Hit-head i e es first in
      (
        m,
        u,
        ground (arith, found),
        elim at [ inl here ↦ rw here head | inr later ↦ Hit-cons i m e es later ],
      )
  | inr other ↦
      let (m, u, found, at) = latest_main-none k (suc i) es (ground arith) in
      (m, u, ground (arith, found), Hit-cons i m e es at)
]

latest_main-taken :
    (k : Kernel) (es : List RedSk)
    → 1 ≤ count_avail_main es
    → (m : ℕ) × (u : ℤ) × (latest_main k 0 none es ≡ some (m, u)) × (taken m es ≡ true)
latest_main-taken k es h =
    let (m, u, found, at) = latest_main-none k 0 es h in
    let all : m - 0 ≡ m = omega arith in (m, u, found, rw all at at.1)

-- What the loop leaves, from the target and the list before.
pub record Kicked (q_control : ℕ) (es : List RedSk) (out : List RedSk × ℕ) : Type 0 where
  pub counted : out.1 ≡ count_avail out.0
  pub enough : q_control ≤ out.1
  pub with_main : 1 ≤ count_avail_main out.0
  pub least : (out.1 ≡ q_control) ⊎ (count_avail_main out.0 ≡ 1)
  pub unchanged : plain out.0 ≡ plain es

kick_loop-Kicked :
    (k : Kernel) (fuel q num main : ℕ) (es : List RedSk)
    → num ≡ count_avail es
    → main ≡ count_avail_main es
    → 1 ≤ main
    → q ≤ num
    → num ≤ q + fuel
    → Kicked q es (kick_loop k fuel q num main es)
unfolding kick_loop
kick_loop-Kicked k zero q num main es en em some_main enough fuel = record {
  counted = en;
  enough = enough;
  with_main = omega arith;
  least = inl (omega arith);
  unchanged = refl;
}
kick_loop-Kicked k (suc fuel) q num main es en em some_main enough bound =
    elim (Bool-cases (ltb q num && ltb 1 main)) [
      | inr stop ↦
          rw (stop, kick_loop)
            (record {
              counted = en;
              enough = enough;
              with_main = omega arith;
              least = ground arith;
              unchanged = refl;
            })
      | inl more ↦
          let (i, u, found, at) = latest_main-taken k es (omega arith) in
          let (fewer, fewer_main) = count_avail-modify i es at in
          let es' = modify (set_available false) i es in
          let two : 1 < main = ground arith in
          let above : q < num = ground arith in
          let rest =
            kick_loop-Kicked k fuel q (num - 1) (main - 1) es' (omega arith) (omega arith)
              (omega arith) (omega arith) (omega arith) in
          rw (more, found, kick_loop)
            (record {
              counted = rest.counted;
              enough = rest.enough;
              with_main = rest.with_main;
              least = rest.least;
              unchanged = rest.unchanged ∙ plain-modify i es;
            })
    ]

-- Where at least as many subflows are available as the target asks for, and one of them is a main
-- one, the loop keeps at least the target and at least one main subflow, and stops only when the
-- target is met exactly or a single main subflow is left. Its count is the number of subflows that
-- stay available, and nothing but their flags of availability changes.
pub kick-Kicked :
    (k : Kernel) (q_control : ℕ) (es : List RedSk)
    → q_control ≤ count_avail es
    → 1 ≤ count_avail_main es
    → Kicked q_control es (kick k q_control (count_avail es) (count_avail_main es) es)
unfolding kick
kick-Kicked k q_control es enough some_main =
    kick_loop-Kicked k (count_avail es) q_control _ _ es refl refl some_main enough (omega arith)

-- A property of lists that outlasts each removal outlasts the loop.
module _ {κ} (P : List RedSk → Type κ)
    (closed : (i : ℕ) (es : List RedSk) → P es → P (modify (set_available false) i es)) where
  kick_loop_keeps :
      (k : Kernel) (fuel q num main : ℕ) (es : List RedSk)
      → P es
      → P (kick_loop k fuel q num main es).0
  unfolding kick_loop
  kick_loop_keeps k zero q num main es h = h
  kick_loop_keeps k (suc fuel) q num main es h = elim (Bool-cases (ltb q num && ltb 1 main)) [
    | inr stop ↦ rw (stop, kick_loop) h
    | inl more ↦ elim (Option-cases (latest_main k 0 none es)) [
      | inl nothing ↦ rw (more, nothing, kick_loop) h
      | inr ((i, u), found) ↦
          rw (more, found, kick_loop)
            (kick_loop_keeps k fuel q (num - 1) (main - 1) _ (closed i es h))
    ]
  ]

  pub kick_keeps :
      (k : Kernel) (q num main : ℕ) (es : List RedSk) → P es → P (kick k q num main es).0
  unfolding kick
  kick_keeps k q num main es h = kick_loop_keeps k num q num main es h

-- A property of the entries that does not depend on their availability outlasts a removal.
pub modify-All {κ} :
    (P : RedSk → Type κ) (closed : (e : RedSk) → P e → P (set_available false e)) (i : ℕ)
    (es : List RedSk)
    → All P es
    → All P (modify (set_available false) i es)
modify-All P closed i [] h = tt
modify-All P closed zero (e ∷ es) h = (closed e h.0, h.1)
modify-All P closed (suc i) (e ∷ es) h = (h.0, modify-All P closed i es h.1)
