-- ===== src/RoundRobin/Rounds.antt =====
-- The search of the round robin scheduler with its restart.
use redundant_mptcp_r_mptcp.Prelude.{
  ℕ, suc, ◌<◌, ◌≤◌, ◌≡◌, ◌⊎◌, refl, ◌∙◌, inl, inr, Bool, true, false, not, ◌&&◌, Bool-cases, none,
  some, List, [], ◌∷◌, All, leb, ◌==◌, length, arith,
}
use redundant_mptcp_r_mptcp.RoundRobin.Subflow.{RrSub}
use redundant_mptcp_r_mptcp.RoundRobin.Segment.{RrScan, scan, restart, rounds, start}
use redundant_mptcp_r_mptcp.RoundRobin.Scan.{count, count-le-length, Chosen, scan_cases}

-- All that pass the first test pass the second, exactly if the counts agree.
abbrev is_full : (RrSub → Bool) → (num : ℕ) → RrSub → Bool
is_full avail num e = avail e && leb num e.quota

count-is_full-le :
    (avail : RrSub → Bool) (num : ℕ) (es : List RrSub)
    → count (is_full avail num) es ≤ count avail es
count-is_full-le avail num [] = omega arith
count-is_full-le avail num (e ∷ es) = ground (arith, count-is_full-le avail num es)

all_full :
    (avail : RrSub → Bool) (num : ℕ) (es : List RrSub)
    → count avail es ≡ count (is_full avail num) es
    → All (λ e. avail e ≡ true → num ≤ e.quota) es
all_full avail num [] h = tt
all_full avail num (e ∷ es) h =
    let le = count-is_full-le avail num es in
    ((λ on. ground (arith, le, h, on)), all_full avail num es (ground (arith, le, h)))

full_counts :
    (avail : RrSub → Bool) (num : ℕ) (es : List RrSub)
    → All (λ e. avail e ≡ true → num ≤ e.quota) es
    → count (is_full avail num) es ≡ count avail es
full_counts avail num [] h = refl
full_counts avail num (e ∷ es) h = elim (Bool-cases (avail e)) [
  | inl on ↦
      let le = h.0 on in let rest = full_counts avail num es h.1 in ground (arith, on, le, rest)
  | inr off ↦ let rest = full_counts avail num es h.1 in ground (arith, off, rest)
]

none_available :
    (avail : RrSub → Bool) (es : List RrSub) → count avail es ≡ 0 → All (λ e. avail e ≡ false) es
none_available avail [] h = tt
none_available avail (e ∷ es) h = (ground (arith, h), none_available avail es (ground (arith, h)))

-- The test does not look at the quota.
abbrev pub Blind : (RrSub → Bool) → Type 0
Blind avail = (e : RrSub) → avail (record e { quota = 0 }) ≡ avail e

module _ (avail : RrSub → Bool) (num : ℕ) (blind : Blind avail) (pos : 1 ≤ num) where
  count-restart : (es : List RrSub) → count avail (restart avail es) ≡ count avail es
  count-restart [] = refl
  count-restart (e ∷ es) = let b = blind e in ground (arith, b, count-restart es)

  restart-empty : (es : List RrSub) → count (is_full avail num) (restart avail es) ≡ 0
  restart-empty [] = refl
  restart-empty (e ∷ es) = let b = blind e in ground (arith, b, pos, restart-empty es)

-- What the search comes to: the list, which is the old one or restarted because every available
-- subflow was full, and the choice, an available subflow with segments left in its burst, or none
-- because no subflow is available.
pub record Searched (avail : RrSub → Bool) (num : ℕ) (es es' : List RrSub) (t : RrScan)
    : Type 0 where
  pub list : (es' ≡ es) ⊎ ((es' ≡ restart avail es) × All (λ e. avail e ≡ true → num ≤ e.quota) es)
  pub choice : Chosen avail num 0 es' t ⊎ ((t.choose ≡ none) × All (λ e. avail e ≡ false) es)

-- Does the code go back to `retry`?
abbrev retries : RrScan → Bool
retries s = not s.found && not (s.iter == 0) && (s.iter == s.full_subs)

rounds-stop :
    (avail : RrSub → Bool) (num fuel : ℕ) (s : RrScan) (es : List RrSub)
    → retries (scan avail num 0 s es) ≡ false
    → rounds avail num (suc fuel) s es ≡ some (es, scan avail num 0 s es)
unfolding rounds
rounds-stop avail num fuel s es h = rw h

rounds-retry :
    (avail : RrSub → Bool) (num fuel : ℕ) (s : RrScan) (es : List RrSub)
    → retries (scan avail num 0 s es) ≡ true
    → rounds avail num (suc fuel) s es
      ≡ rounds avail num fuel (scan avail num 0 s es) (restart avail es)
unfolding rounds
rounds-retry avail num fuel s es h = rw h

module _ (avail : RrSub → Bool) (num : ℕ) (blind : Blind avail) (pos : 1 ≤ num) where
  -- A round that stops without a restart.
  stop-Searched :
      (es : List RrSub)
      → length es < 256
      → let s = scan avail num 0 (start num) es in retries s ≡ false → Searched avail num es es s
  stop-Searched es few stop =
      let le = count-le-length avail es in
      elim (scan_cases avail num 0 (start num) es pos refl (omega arith) (omega arith)) [
        | inl (f, c) ↦ record { list = inl refl; choice = inl c }
        | inr p ↦ elim p.chosen [
          | inl c ↦ record { list = inl refl; choice = inl c }
          | inr (same, split, all) ↦
              let counts = full_counts avail num es all in
              let zero_seen : count avail es ≡ 0 =
                ground (arith, stop, p.not_found, p.seen, p.full, counts, le, few) in
              record { list = inl refl; choice = inr (same, none_available avail es zero_seen) }
        ]
      ]

  -- The round after a restart stops.
  restart-Searched :
      (es : List RrSub)
      → length es < 256
      → let s = scan avail num 0 (start num) es in
        let t = scan avail num 0 s (restart avail es) in
        retries s ≡ true → (retries t ≡ false) × Searched avail num es (restart avail es) t
  restart-Searched es few again =
      let s = scan avail num 0 (start num) es in
      let le = count-le-length avail es in
      elim (scan_cases avail num 0 (start num) es pos refl (omega arith) (omega arith)) [
        | inl (f, c) ↦ absurd (ground (arith, f, again))
        | inr p ↦
            let some_seen : 1 ≤ count avail es =
              ground (arith, again, p.not_found, p.seen, le, few) in
            let counts : count avail es ≡ count (is_full avail num) es =
              ground (
                arith,
                again,
                p.not_found,
                p.seen,
                p.full,
                le,
                few,
                count-is_full-le avail num es,
              ) in
            let full = all_full avail num es counts in
            let it : s.iter < 256 = omega (arith, p.seen) in
            let fu : s.full_subs < 256 = omega (arith, p.full) in
            elim (scan_cases avail num 0 s (restart avail es) pos p.not_found it fu) [
              | inl (f, c) ↦ (ground (arith, f), record { list = inr (refl, full); choice = inl c })
              | inr p₂ ↦
                  let seen₂ = count-restart avail num blind pos es in
                  let full₂ = restart-empty avail num blind pos es in
                  let t = scan avail num 0 s (restart avail es) in
                  let stop : retries t ≡ false = ground (
                    arith, p.seen, p.full, p₂.seen, p₂.full, counts, seen₂, full₂, some_seen, le,
                    few,
                  ) in
                  elim p₂.chosen [
                    | inl c ↦ (stop, record { list = inr (refl, full); choice = inl c })
                    | inr (same, split, all) ↦
                        let counts₂ = full_counts avail num (restart avail es) all in
                        absurd (omega (arith, counts₂, seen₂, full₂, some_seen))
                  ]
            ]
      ]

  -- For a burst of at least one segment and fewer than 256 subflows the search ends after at most
  -- one restart, for an availability that does not depend on the quota. It chooses an available
  -- subflow that has segments left in its burst, or none exactly if no subflow is available; and
  -- the quotas are set to 0 only where every available subflow had used its burst up.
  pub rounds-Searched :
      (es : List RrSub) (fuel : ℕ)
      → length es < 256
      → (es' : List RrSub) × (t : RrScan) × (rounds avail num (suc (suc fuel)) (start num) es
          ≡ some (es', t))
        × Searched avail num es es' t
  rounds-Searched es fuel few =
      let s = scan avail num 0 (start num) es in
      elim (Bool-cases (retries s)) [
        | inr stop ↦
            (es, s, rounds-stop avail num (suc fuel) (start num) es stop, stop-Searched es few stop)
        | inl again ↦
            let (ends, searched) = restart-Searched es few again in
            let t = scan avail num 0 s (restart avail es) in
            (
              restart avail es,
              t,
              rounds-retry avail num (suc fuel) (start num) es again
                  ∙ rounds-stop avail num fuel s (restart avail es) ends,
              searched,
            )
      ]
