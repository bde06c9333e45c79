-- ===== src/PathCheck/Addresses.antt =====
-- The addresses that `getAddresses` finds.
use redundant_mptcp_r_mptcp.Prelude.{
  ℕ, ◌≤◌, ◌<◌, ◌≡◌, refl, ◌∙◌, Bool, true, false, not, ◌&&◌, Bool-cases, inl, inr, List, [], ◌∷◌,
  ◌++◌, All, leb, length, length-append, arith,
}
use redundant_mptcp_r_mptcp.Register.{RedSk, Socks, PathIndex}
use redundant_mptcp_r_mptcp.PathCheck.{contains, collect, get_addresses}
use redundant_mptcp_r_mptcp.PathCheck.Free.{nodup, contains-append, contains-listed}

nodup-add : (xs : List ℕ) (a : ℕ) → nodup (xs ++ (a ∷ [])) ≡ (nodup xs && not (contains xs a))
unfolding contains
nodup-add [] a = refl
nodup-add (x ∷ xs) a = ground (
  arith,
  nodup-add xs a,
  contains-append xs (a ∷ []) x,
  contains-listed xs x,
  contains-listed (xs ++ (a ∷ [])) x,
)

-- What one loop comes to, from the addresses that are known before it.
record Collected (addr : RedSk → ℕ) (es : List RedSk) (found : List ℕ) (out : List ℕ × Bool)
    : Type 0 where
  once : nodup out.0 ≡ true
  keeps : (a : ℕ) → contains found a ≡ true → contains out.0 a ≡ true
  complete : out.1 ≡ true → (length out.0 < 4) × All (λ e. contains out.0 (addr e) ≡ true) es
  cut : out.1 ≡ false → length out.0 ≡ 4

collect-Collected :
    (addr : RedSk → ℕ) (found : List ℕ) (es : List RedSk)
    → nodup found ≡ true
    → length found < 4
    → Collected addr es found (collect 4 addr found es)
unfolding collect contains
collect-Collected addr found [] n few = record {
  once = n;
  keeps = λ a h. h;
  complete = λ e. (few, tt);
  cut = λ e. cc;
}
collect-Collected addr found (e ∷ es) n few = elim (Bool-cases (contains found (addr e))) [
  | inl known ↦
      let r = collect-Collected addr found es n few in
      rw (known, collect)
        (record {
          once = r.once;
          keeps = r.keeps;
          complete = λ c. ((r.complete c).0, (r.keeps (addr e) known, (r.complete c).1));
          cut = r.cut;
        })
  | inr new ↦
      let more = found ++ (addr e ∷ []) in
      let once : nodup more ≡ true = nodup-add found (addr e) ∙ ground (arith, n, new) in
      let len = length-append found (addr e ∷ []) in
      let has = λ (a : ℕ). contains-append found (addr e ∷ []) a in
      elim (Bool-cases (leb 4 (length more))) [
        | inl cut ↦
            let enough : 4 ≤ length more = ground arith in
            rw (new, collect, cut)
              (record {
                once = once;
                keeps = λ a h. has a ∙ ground (arith, h);
                complete = λ c. absurd (cc);
                cut = λ c. omega arith;
              })
        | inr room ↦
            let r = collect-Collected addr more es once (ground arith) in
            rw (new, collect, room)
              (record {
                once = r.once;
                keeps = λ a h. r.keeps a (has a ∙ ground (arith, h));
                complete = λ c. (
                  (r.complete c).0,
                  (r.keeps (addr e) (has (addr e) ∙ ground (arith, new)), (r.complete c).1),
                );
                cut = r.cut;
              })
      ]
]

-- What the two loops find. The source addresses are found without repetition: all of them, or the
-- first four. The destination addresses are found so too, but none where there are four source
-- addresses.
pub record Addresses (socks : Socks) (es : List RedSk) (q : PathIndex) : Type 0 where
  pub src_once : nodup q.src_addr ≡ true
  pub src_most : length q.src_addr ≤ 4
  pub src_all : length q.src_addr < 4 → All (λ e. contains q.src_addr (socks e.sk).saddr ≡ true) es
  pub dst_once : nodup q.dst_addr ≡ true
  pub dst_all :
      length q.src_addr < 4
      → length q.dst_addr < 4
      → All (λ e. contains q.dst_addr (socks e.sk).daddr ≡ true) es
  pub dst_most : length q.dst_addr ≤ 4
  pub dst_none : length q.src_addr ≡ 4 → q.dst_addr ≡ []

-- Both arrays hold each address once and at most four. While fewer than four source addresses are
-- found, those of all subflows are there; and while also fewer than four destination addresses are
-- found, those of all subflows are there too. Once the fourth source address is stored, there is no
-- destination address at all.
pub get_addresses-Addresses :
    (socks : Socks) (es : List RedSk) (p : PathIndex)
    → Addresses socks es (get_addresses socks es p)
unfolding get_addresses
get_addresses-Addresses socks es p =
    let src = collect 4 (λ e. (socks e.sk).saddr) [] es in
    let dst = collect 4 (λ e. (socks e.sk).daddr) [] es in
    let s = collect-Collected (λ e. (socks e.sk).saddr) [] es refl (omega arith) in
    let d = collect-Collected (λ e. (socks e.sk).daddr) [] es refl (omega arith) in
    let d_most : length dst.0 ≤ 4 = elim (Bool-cases dst.1) [
      | inl all ↦ omega (arith, d.complete all)
      | inr cut ↦ omega (arith, d.cut cut)
    ] in
    elim (Bool-cases src.1) [
      | inl all ↦
          rw (all, get_addresses)
            (record {
              src_once = s.once;
              src_most = omega (arith, s.complete all);
              src_all = λ h. (s.complete all).1;
              dst_once = d.once;
              dst_all = λ h h'. elim (Bool-cases dst.1) [
                | inl all' ↦ (d.complete all').1
                | inr cut ↦ absurd (omega (arith, d.cut cut))
              ];
              dst_most = d_most;
              dst_none = λ h. absurd (omega (arith, s.complete all));
            })
      | inr cut ↦
          rw (cut, get_addresses)
            (record {
              src_once = s.once;
              src_most = omega (arith, s.cut cut);
              src_all = λ h. absurd (omega (arith, s.cut cut));
              dst_once = refl;
              dst_all = λ h h'. absurd (omega (arith, s.cut cut));
              dst_most = omega arith;
              dst_none = λ h. refl;
            })
    ]
