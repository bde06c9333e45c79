-- ===== src/Main/Choice.antt =====
-- There is a main subflow whenever there is a usable one.
use redundant_mptcp_r_mptcp.Prelude.{
  ◌-◌, ◌^◌, ◌∙◌, ℕ, ◌≤◌, ◌≡◌, refl, Bool, true, false, ◌&&◌, ◌||◌, Bool-cases, inl, inr, List, [],
  ◌∷◌, map, ℤ, arith, ◌==◌, ◌∙◌,
}
use redundant_mptcp_r_mptcp.Register.{RedSk, Register, Socks, Sysctl}
use redundant_mptcp_r_mptcp.Main.{
  is_usable, set_main, is_uncong, set_all_main, set_all_uncong_main, count_uncong, mark, mark_all,
  count_main, choose_main, update_main_sk, lowest_rtt, highest_bw,
}

-- Some entry passes the test.
abbrev pub any : (RedSk → Bool) → List RedSk → Bool
any p [] = false
any p (e ∷ es) = p e || any p es

abbrev pub is_usable_main : RedSk → Bool
is_usable_main e = is_usable e && e.state.main

any-set_all_main :
    (es : List RedSk) → any is_usable es ≡ true → any is_usable_main (set_all_main es) ≡ true
unfolding set_all_main
any-set_all_main [] h = cc
any-set_all_main (e ∷ es) h = ground (arith, any-set_all_main es)

usable_marked :
    (es : List RedSk) → any is_usable (map (λ e. set_main (is_uncong e) e) es) ≡ any is_usable es
usable_marked [] = refl
usable_marked (e ∷ es) = ground (arith, usable_marked es)

uncong_any :
    (es : List RedSk)
    → 1 ≤ count_uncong es
    → any is_usable_main (map (λ e. set_main (is_uncong e) e) es) ≡ true
unfolding count_uncong
uncong_any [] h = absurd (omega arith)
uncong_any (e ∷ es) h = ground (arith, uncong_any es)

any-set_all_uncong_main :
    (es : List RedSk) → any is_usable es ≡ true → any is_usable_main (set_all_uncong_main es) ≡ true
unfolding set_all_uncong_main
any-set_all_uncong_main es h =
    let marked = map (λ e. set_main (is_uncong e) e) es in
    elim (Bool-cases (count_uncong es == 0)) [
      | inl nothing ↦ rw nothing (any-set_all_main marked (usable_marked es ∙ h))
      | inr found ↦ rw found (uncong_any es (ground arith))
    ]

module _ (socks : Socks) (ratio : ℤ) (lowest highest : ℕ) where
  mark_main :
      (e : RedSk)
      → (mark socks ratio lowest highest e).1 ≡ true
      → is_usable_main (mark socks ratio lowest highest e).0 ≡ true
  unfolding mark
  mark_main e h = ground arith

  any-count_main :
      (es : List RedSk)
      → 1 ≤ count_main socks ratio lowest highest es
      → any is_usable_main (mark_all socks ratio lowest highest es) ≡ true
  unfolding count_main mark_all
  any-count_main [] h = absurd (omega arith)
  any-count_main (e ∷ es) h = ground (arith, mark_main e, any-count_main es)

  mark_usable : (e : RedSk) → is_usable (mark socks ratio lowest highest e).0 ≡ is_usable e
  unfolding mark
  mark_usable e = ground arith

  mark_all_usable :
      (es : List RedSk) → any is_usable (mark_all socks ratio lowest highest es) ≡ any is_usable es
  unfolding mark_all
  mark_all_usable [] = refl
  mark_all_usable (e ∷ es) = ground (arith, mark_usable e, mark_all_usable es)

any-choose_main :
    (socks : Socks) (ratio : ℤ) (es : List RedSk)
    → any is_usable es ≡ true
    → any is_usable_main (choose_main socks ratio es) ≡ true
unfolding choose_main
any-choose_main socks ratio es h =
    let low = lowest_rtt socks (2 ^ 32 - 1) es in
    let high = highest_bw 0 es in
    elim (Bool-cases (count_main socks ratio low high es == 0)) [
      | inl nothing ↦ rw nothing (
          any-set_all_uncong_main (mark_all socks ratio low high es)
            (mark_all_usable socks ratio low high es ∙ h))
      | inr found ↦ rw found (any-count_main socks ratio low high es (ground arith))
    ]

-- In every state of the machine there is a main subflow afterwards, as soon as an enabled or a
-- substitute subflow is there at all: the marking by round trip time and bandwidth falls back on
-- the uncongested subflows, and these on all of them.
pub any-update_main_sk :
    (socks : Socks) (sys : Sysctl) (r : Register)
    → any is_usable r.sk_list ≡ true
    → any is_usable_main (update_main_sk socks sys r).sk_list ≡ true
unfolding update_main_sk
any-update_main_sk socks sys r h = ground (
  arith,
  any-set_all_main r.sk_list h,
  any-set_all_uncong_main r.sk_list h,
  any-choose_main socks sys.main_ratio r.sk_list h,
)
