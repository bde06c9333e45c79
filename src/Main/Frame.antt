-- ===== src/Main/Frame.antt =====
-- The choice of the main subflows leaves the sockets alone.
use redundant_mptcp_r_mptcp.Prelude.{
  ◌≡◌, refl, ◌∙◌, Bool-cases, inl, inr, List, map, ℤ, ◌==◌, ◌^◌, ◌-◌, ℕ, arith,
}
use redundant_mptcp_r_mptcp.Register.{RedSk, Register, Socks, Sysctl}
use redundant_mptcp_r_mptcp.Keeps.{sks, Keeps, sks-map}
use redundant_mptcp_r_mptcp.Main.{
  set_main, is_usable, is_uncong, set_all_main, set_all_uncong_main, count_uncong, lowest_rtt,
  highest_bw, mark, mark_all, count_main, choose_main, update_main_sk,
}

pub set_all_main-sks : (es : List RedSk) → sks (set_all_main es) ≡ sks es
unfolding set_all_main
set_all_main-sks = sks-map (λ e. set_main (is_usable e) e) (λ e. refl)

set_all_uncong_main-sks : (es : List RedSk) → sks (set_all_uncong_main es) ≡ sks es
unfolding set_all_uncong_main
set_all_uncong_main-sks es =
    let marked = map (λ e. set_main (is_uncong e) e) es in
    let kept = sks-map (λ e. set_main (is_uncong e) e) (λ e. refl) es in
    elim (Bool-cases (count_uncong es == 0)) [
      | inl nothing ↦ rw nothing (set_all_main-sks marked ∙ kept)
      | inr found ↦ rw found kept
    ]

mark-sk :
    (socks : Socks) (ratio : ℤ) (lowest highest : ℕ) (e : RedSk)
    → (mark socks ratio lowest highest e).0.sk ≡ e.sk
unfolding mark
mark-sk socks ratio lowest highest e = ground arith

choose_main-sks :
    (socks : Socks) (ratio : ℤ) (es : List RedSk) → sks (choose_main socks ratio es) ≡ sks es
unfolding choose_main mark_all
choose_main-sks socks ratio es =
    let low = lowest_rtt socks (2 ^ 32 - 1) es in
    let high = highest_bw 0 es in
    let kept = sks-map (λ e. (mark socks ratio low high e).0) (mark-sk socks ratio low high) es in
    elim (Bool-cases (count_main socks ratio low high es == 0)) [
      | inl nothing ↦ rw nothing (set_all_uncong_main-sks _ ∙ kept)
      | inr found ↦ rw found kept
    ]

pub update_main_sk-Keeps :
    (socks : Socks) (sys : Sysctl) (r : Register) → Keeps r (update_main_sk socks sys r)
unfolding update_main_sk
update_main_sk-Keeps socks sys r = ground (
  arith,
  set_all_main-sks r.sk_list,
  set_all_uncong_main-sks r.sk_list,
  choose_main-sks socks sys.main_ratio r.sk_list,
)
