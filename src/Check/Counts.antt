-- ===== src/Check/Counts.antt =====
-- How many subflows of a list are available, and how many of these are main ones.
use redundant_mptcp_r_mptcp.Prelude.{
  ℕ, zero, suc, ◌+◌, ◌≤◌, ◌≡◌, refl, Bool, true, false, List, [], ◌∷◌, map, ap, modify, to_ℕ,
  length, arith,
}
use redundant_mptcp_r_mptcp.Register.{RedSk}
use redundant_mptcp_r_mptcp.Check.{set_available, is_avail_main}

abbrev pub count_avail : List RedSk → ℕ
count_avail [] = 0
count_avail (e ∷ es) = to_ℕ e.state.available + count_avail es

abbrev pub count_avail_main : List RedSk → ℕ
count_avail_main [] = 0
count_avail_main (e ∷ es) = to_ℕ (is_avail_main e) + count_avail_main es

-- Entry `i` is there and is an available main subflow.
abbrev pub taken : ℕ → List RedSk → Bool
taken i [] = false
taken zero (e ∷ es) = is_avail_main e
taken (suc i) (e ∷ es) = taken i es

pub count_avail_main-le : (es : List RedSk) → count_avail_main es ≤ count_avail es
count_avail_main-le [] = omega arith
count_avail_main-le (e ∷ es) = ground (arith, count_avail_main-le es)

pub count_avail-le : (es : List RedSk) → count_avail es ≤ length es
count_avail-le [] = omega arith
count_avail-le (e ∷ es) = ground (arith, count_avail-le es)

pub count_avail-modify :
    (i : ℕ) (es : List RedSk)
    → taken i es ≡ true
    → (count_avail (modify (set_available false) i es) + 1 ≡ count_avail es)
      × (count_avail_main (modify (set_available false) i es) + 1 ≡ count_avail_main es)
count_avail-modify i [] h = cc
count_avail-modify zero (e ∷ es) h = ground arith
count_avail-modify (suc i) (e ∷ es) h = ground (arith, count_avail-modify i es h)

-- The list without its flags of availability.
abbrev pub plain : List RedSk → List RedSk
plain = map (set_available false)

pub plain-modify : (i : ℕ) (es : List RedSk) → plain (modify (set_available false) i es) ≡ plain es
plain-modify i [] = refl
plain-modify zero (e ∷ es) = refl
plain-modify (suc i) (e ∷ es) = ap (◌∷◌ (set_available false e)) (plain-modify i es)
