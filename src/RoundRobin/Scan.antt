-- ===== src/RoundRobin/Scan.antt =====
-- One round of the search of the round robin scheduler.
use redundant_mptcp_r_mptcp.Prelude.{
  ℕ, suc, ◌+◌, ◌-◌, ◌<◌, ◌≤◌, ◌≡◌, ◌⊎◌, refl, ◌∙◌, ap, inl, inr, Bool, true, false, ◌&&◌,
  Bool-cases, some, List, [], ◌∷◌, All, ltb, leb, ◌==◌, to_ℕ, length, get_or, arith,
}
use redundant_mptcp_r_mptcp.RoundRobin.Subflow.{RrSub}
use redundant_mptcp_r_mptcp.RoundRobin.Segment.{RrScan, u8, consider, scan, empty_sub}

-- The number of the subflows that pass a test.
abbrev pub count : (RrSub → Bool) → List RrSub → ℕ
count test [] = 0
count test (e ∷ es) = to_ℕ (test e) + count test es

pub count-le-length : (test : RrSub → Bool) (es : List RrSub) → count test es ≤ length es
count-le-length test [] = omega arith
count-le-length test (e ∷ es) = ground (arith, count-le-length test es)

-- Index `i + place` is the choice of a round that goes over `es` from index `i` on: an available
-- subflow with segments left in its burst, and the split is what is left.
pub record Chosen (avail : RrSub → Bool) (num i : ℕ) (es : List RrSub) (s : RrScan) : Type 0 where
  pub place : ℕ
  pub inside : place < length es
  pub choice : s.choose ≡ some (i + place)
  pub available : avail (get_or es place empty_sub) ≡ true
  pub unfinished : (get_or es place empty_sub).quota < num
  pub left : s.split ≡ num - (get_or es place empty_sub).quota

-- A round that did not find a subflow in use has made its choice among the unused ones, or there is
-- none and the old one stands.
pub record Passed (avail : RrSub → Bool) (num i : ℕ) (es : List RrSub) (s s' : RrScan)
    : Type 0 where
  pub not_found : s'.found ≡ false
  pub seen : s'.iter ≡ u8 (s.iter + count avail es)
  pub full : s'.full_subs ≡ u8 (s.full_subs + count (λ e. avail e && leb num e.quota) es)
  pub chosen :
      Chosen avail num i es s'
      ⊎ ((s'.choose ≡ s.choose)
          × (s'.split ≡ s.split)
          × All (λ e. avail e ≡ true → num ≤ e.quota) es)

Chosen-later :
    (avail : RrSub → Bool) (num i : ℕ) (e : RrSub) (es : List RrSub) (s : RrScan)
    → Chosen avail num (suc i) es s
    → Chosen avail num i (e ∷ es) s
Chosen-later avail num i e es s c = record {
  place = suc c.place;
  inside = omega (arith, c.inside);
  choice = c.choice ∙ ap some (omega arith);
  available = c.available;
  unfinished = c.unfinished;
  left = c.left;
}

Passed-skip :
    (avail : RrSub → Bool) (num i : ℕ) (e : RrSub) (es : List RrSub) (s s' : RrScan)
    → avail e ≡ false
    → Passed avail num (suc i) es s s'
    → Passed avail num i (e ∷ es) s s'
Passed-skip avail num i e es s s' off p = record {
  not_found = p.not_found;
  seen = rw off (omega (arith, p.seen));
  full = rw off (omega (arith, p.full));
  chosen = elim p.chosen [
    | inl c ↦ inl (Chosen-later avail num i e es s' c)
    | inr (same, split, all) ↦ inr (same, split, ((λ on. absurd (cc)), all))
  ];
}

-- An available subflow that is not in use.
Passed-next :
    (avail : RrSub → Bool) (num i : ℕ) (e : RrSub) (es : List RrSub) (s s' : RrScan)
    → 1 ≤ num
    → avail e ≡ true
    → (ltb 0 e.quota && ltb e.quota num) ≡ false
    → Passed avail num (suc i) es (consider num i e s) s'
    → Passed avail num i (e ∷ es) s s'
unfolding consider
Passed-next avail num i e es s s' pos on other p = record {
  not_found = p.not_found;
  seen = rw on (omega (arith, p.seen));
  full = rw on (elim (Bool-cases (leb num e.quota)) [
    | inl full ↦ rw full (omega (arith, rw (full, consider) at p.full))
    | inr room ↦ rw room (omega (arith, rw (room, consider) at p.full))
  ]);
  chosen = elim p.chosen [
    | inl c ↦ inl (Chosen-later avail num i e es s' c)
    | inr (same, split, all) ↦ elim (Bool-cases (e.quota == 0)) [
      | inl unused ↦ inl (record {
        place = 0;
        inside = omega arith;
        choice = same ∙ rw unused (ap some (omega arith));
        available = on;
        unfinished = ground (arith, unused);
        left = ground (arith, unused, split);
      })
      | inr some_used ↦ inr (
        same ∙ rw some_used refl,
        split ∙ rw some_used refl,
        ((λ h. ground (arith, some_used, other)), all),
      )
    ]
  ];
}

-- A round finds a subflow in use, or passes them all.
abbrev pub Scanned : (RrSub → Bool) → (num i : ℕ) → List RrSub → (s s' : RrScan) → Type 0
Scanned avail num i es s s' =
    ((s'.found ≡ true) × Chosen avail num i es s') ⊎ Passed avail num i es s s'

pub scan_cases :
    (avail : RrSub → Bool) (num i : ℕ) (s : RrScan) (es : List RrSub)
    → 1 ≤ num
    → s.found ≡ false
    → s.iter < 256
    → s.full_subs < 256
    → Scanned avail num i es s (scan avail num i s es)
unfolding scan
scan_cases avail num i s [] pos new it fu = inr (record {
  not_found = new;
  seen = omega (arith, it);
  full = omega (arith, fu);
  chosen = inr (refl, refl, tt);
})
scan_cases avail num i s (e ∷ es) pos new it fu = elim (Bool-cases (avail e)) [
  | inr off ↦ rw off (elim (scan_cases avail num (suc i) s es pos new it fu) [
    | inl (f, c) ↦ inl (f, Chosen-later avail num i e es _ c)
    | inr p ↦ inr (Passed-skip avail num i e es s _ off p)
  ])
  | inl on ↦ elim (Bool-cases (ltb 0 e.quota && ltb e.quota num)) [
    | inl used ↦
        rw (on, used)
          (inl (
            refl,
            record {
              place = 0;
              inside = omega arith;
              choice = ap some (omega arith);
              available = on;
              unfinished = ground (arith, used);
              left = refl;
            },
          ))
    | inr other ↦
        let s₁ = consider num i e s in
        let fu₁ : s₁.full_subs < 256 = unfold consider in ground arith in
        let rest =
          scan_cases avail num (suc i) s₁ es pos new (unfold consider in omega arith) fu₁ in
        rw (on, other)
          (elim rest [
            | inl (f, c) ↦ inl (f, Chosen-later avail num i e es _ c)
            | inr p ↦ inr (Passed-next avail num i e es s _ pos on other p)
          ])
  ]
]
