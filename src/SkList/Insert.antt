-- ===== src/SkList/Insert.antt =====
-- What `rmptcp_insert_sk` and `rmptcp_update_sk_list` do to the list of subflows.
use redundant_mptcp_r_mptcp.Prelude.{
  ℕ, suc, ◌≡◌, refl, ap, ◌⊎◌, inl, inr, Bool, true, false, ◌&&◌, ◌||◌, Bool-cases, none, some, List,
  [], ◌∷◌, ◌++◌, ℤ, All, length, get_or, ltb, leb, ◌==◌, arith, ◌↔◌,
}
use redundant_mptcp_r_mptcp.Register.{
  RedSk, Register, Socks, IsArray, slot, empty_slot, max_num_red_sk,
}
use redundant_mptcp_r_mptcp.SkList.{stops, position, fill, shift_fill, insert_sk}

-- The order of the list: by source address, then by destination address.
abbrev pub le_addr : Socks → RedSk → RedSk → Bool
le_addr socks e f =
    ltb (socks e.sk).saddr (socks f.sk).saddr
    || ((socks e.sk).saddr == (socks f.sk).saddr && leb (socks e.sk).daddr (socks f.sk).daddr)

abbrev pub IsSorted : Socks → List RedSk → Type 0
IsSorted socks [] = Unit
IsSorted socks (e ∷ es) = All (λ f. le_addr socks e f ≡ true) es × IsSorted socks es

module _ (socks : Socks) (run_start : ℤ) (sk : ℕ) where
  stops_le :
      (e : RedSk) (x : RedSk)
      → stops socks (socks sk).saddr (socks sk).daddr e ≡ true
      → le_addr socks (fill run_start sk x) e ≡ true
  unfolding stops fill
  stops_le e x h = ground arith

  passes_le :
      (e : RedSk) (x : RedSk)
      → stops socks (socks sk).saddr (socks sk).daddr e ≡ false
      → le_addr socks e (fill run_start sk x) ≡ true
  unfolding stops fill
  passes_le e x h = ground arith

  le_addr_trans :
      (a b : RedSk) (es : List RedSk)
      → le_addr socks a b ≡ true
      → All (λ f. le_addr socks b f ≡ true) es
      → All (λ f. le_addr socks a f ≡ true) es
  le_addr_trans a b [] h k = tt
  le_addr_trans a b (e ∷ es) h k = (ground arith, le_addr_trans a b es h k.1)

  -- The list after an insertion: the old one, split, with the new entry between the parts.
  abbrev pub placed : (stale : RedSk) → List RedSk → List RedSk
  placed stale es =
      shift_fill run_start sk (position socks (socks sk).saddr (socks sk).daddr es) stale es

  placed-above :
      (a stale : RedSk) (es : List RedSk)
      → le_addr socks a (fill run_start sk stale) ≡ true
      → All (λ f. le_addr socks a f ≡ true) es
      → All (λ f. le_addr socks a f ≡ true) (placed stale es)
  unfolding position shift_fill fill
  placed-above a stale [] h k = (h, tt)
  placed-above a stale (e ∷ es) h k =
      elim (Bool-cases (stops socks (socks sk).saddr (socks sk).daddr e)) [
        | inl here ↦ rw (here, position) (h, k)
        | inr later ↦ rw (later, position) (k.0, placed-above a stale es h k.1)
      ]

  placed-IsSorted :
      (stale : RedSk) (es : List RedSk) → IsSorted socks es → IsSorted socks (placed stale es)
  unfolding position shift_fill
  placed-IsSorted stale [] s = (tt, tt)
  placed-IsSorted stale (e ∷ es) s =
      elim (Bool-cases (stops socks (socks sk).saddr (socks sk).daddr e)) [
        | inl here ↦
            rw (here, position)
              (let le = stops_le e e here in
                ((le, le_addr_trans (fill run_start sk e) e es le s.0), s))
        | inr later ↦
            rw (later, position)
              (placed-above e stale es (passes_le e stale later) s.0, placed-IsSorted stale es s.1)
      ]

  length-placed : (stale : RedSk) (es : List RedSk) → length (placed stale es) ≡ suc (length es)
  unfolding position shift_fill
  length-placed stale [] = refl
  length-placed stale (e ∷ es) =
      elim (Bool-cases (stops socks (socks sk).saddr (socks sk).daddr e)) [
        | inl here ↦ rw (here, position)
        | inr later ↦ rw (later, position) (ap suc (length-placed stale es))
      ]

  placed-split :
      (stale : RedSk) (es : List RedSk)
      → (pre post : List RedSk) × (x : RedSk) × (es ≡ pre ++ post)
        × (placed stale es ≡ pre ++ (fill run_start sk x ∷ post))
  unfolding position shift_fill
  placed-split stale [] = ([], [], stale, refl, refl)
  placed-split stale (e ∷ es) =
      let (pre, post, x, old, new) = placed-split stale es in
      elim (Bool-cases (stops socks (socks sk).saddr (socks sk).daddr e)) [
        | inl here ↦ ([], e ∷ es, e, refl, rw (here, position))
        | inr later ↦ (e ∷ pre, post, x, ap (◌∷◌ e) old, rw (later, position) (ap (◌∷◌ e) new))
      ]

  placed_inherits :
      (stale : RedSk) (es rest : List RedSk)
      → let i = position socks (socks sk).saddr (socks sk).daddr es in
        (get_or (placed stale es ++ rest) i empty_slot).bandwidth_mean
        ≡ (get_or (es ++ (stale ∷ rest)) i empty_slot).bandwidth_mean
  unfolding position shift_fill fill
  placed_inherits stale [] rest = refl
  placed_inherits stale (e ∷ es) rest =
      elim (Bool-cases (stops socks (socks sk).saddr (socks sk).daddr e)) [
        | inl here ↦ rw (here, position)
        | inr later ↦ rw (later, position) (placed_inherits stale es rest)
      ]

  -- The cases of an insertion.
  pub insert_sk_cases :
      (r : Register)
      → ((r.spare ≡ []) × (insert_sk socks run_start sk r ≡ none))
        ⊎ ((stale : RedSk) × (rest : List RedSk) × (r.spare ≡ stale ∷ rest)
            × (insert_sk socks run_start sk r
                ≡ some (record r { sk_list = placed stale r.sk_list; spare = rest })))
  unfolding insert_sk
  insert_sk_cases r = by_spare r.spare refl
    where
      by_spare :
          (xs : List RedSk)
          → r.spare ≡ xs
          → ((r.spare ≡ []) × (insert_sk socks run_start sk r ≡ none))
            ⊎ ((stale : RedSk) × (rest : List RedSk) × (r.spare ≡ stale ∷ rest)
                × (insert_sk socks run_start sk r
                    ≡ some (record r { sk_list = placed stale r.sk_list; spare = rest })))
      by_spare [] e = inl (e, rw (e, insert_sk))
      by_spare (stale ∷ rest) e = inr (stale, rest, e, rw (e, insert_sk))

  -- An insertion writes behind the end of the array exactly if the list has all its 24 entries:
  -- the code does not test for it.
  pub insert_sk-none-iff-full :
      (r : Register)
      → IsArray r
      → (insert_sk socks run_start sk r ≡ none) ↔ (length r.sk_list ≡ max_num_red_sk)
  insert_sk-none-iff-full r full = elim (insert_sk_cases r) [
    | inl (e, fault) ↦ (λ h. omega (arith, ap length e), λ h. fault)
    | inr (stale, rest, e, done) ↦ (λ h. cc, λ h. absurd (omega (arith, ap length e)))
  ]

  -- A successful insertion keeps the list sorted by address and the array full-length, and puts
  -- one new entry, for the given socket and with its counters at 0, between two parts of the old
  -- list, which it leaves as they are.
  pub insert_sk-IsSorted :
      (r r' : Register)
      → insert_sk socks run_start sk r ≡ some r'
      → IsArray r
      → IsSorted socks r.sk_list
      → IsSorted socks r'.sk_list
        × IsArray r'
        × ((pre post : List RedSk) × (x : RedSk) × (r.sk_list ≡ pre ++ post)
            × (r'.sk_list ≡ pre ++ (fill run_start sk x ∷ post)))
  insert_sk-IsSorted r r' h full s = elim (insert_sk_cases r) [
    | inl (e, fault) ↦ cc
    | inr (stale, rest, e, done) ↦
        let same : record r { sk_list = placed stale r.sk_list; spare = rest } ≡ r' = cc in
        rw (← same) (
          placed-IsSorted stale r.sk_list s,
          omega (arith, ap length e, length-placed stale r.sk_list),
          placed-split stale r.sk_list,
        )
  ]

  -- The new entry keeps the mean bandwidth that its slot held before: that of the subflow that was
  -- moved up, or of a spare slot.
  pub insert_sk_inherits :
      (r r' : Register)
      → insert_sk socks run_start sk r ≡ some r'
      → let i = position socks (socks sk).saddr (socks sk).daddr r.sk_list in
        (slot r' i).bandwidth_mean ≡ (slot r i).bandwidth_mean
  insert_sk_inherits r r' h = elim (insert_sk_cases r) [
    | inl (e, fault) ↦ cc
    | inr (stale, rest, e, done) ↦
        let same : record r { sk_list = placed stale r.sk_list; spare = rest } ≡ r' = cc in
        rw (← same, e) (placed_inherits stale r.sk_list rest)
  ]
