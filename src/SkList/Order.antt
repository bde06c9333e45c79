-- ===== src/SkList/Order.antt =====
-- A list of subflows that is sorted by address and holds each socket once.
use redundant_mptcp_r_mptcp.Prelude.{
  ℕ, ◌≡◌, ◌≢◌, refl, ap, ◌∙◌, sym, true, false, Bool-cases, Option-cases, inl, inr, some, List, [],
  ◌∷◌, ◌++◌, ℤ, All, ◌==◌, length, length-map, arith, Option, not, ◌>>=◌,
}
use mathlib.Core.List.{map-append}
use redundant_mptcp_r_mptcp.Register.{RedSk, Register, Socks, Kernel, Skb, IsArray}
use redundant_mptcp_r_mptcp.Availability.{is_available}
use redundant_mptcp_r_mptcp.Keeps.{sks, Keeps}
use redundant_mptcp_r_mptcp.SkList.{
  fill, insert_sk, is_known, add_new, add_all, update_sk_list, set_enable_flag,
}
use redundant_mptcp_r_mptcp.SkList.Frame.{set_enable_flag-Keeps}
use redundant_mptcp_r_mptcp.SkList.Insert.{
  le_addr, IsSorted, insert_sk-IsSorted, insert_sk_cases, placed,
}

-- No socket stands twice.
abbrev pub Distinct : List ℕ → Type 0
Distinct [] = Unit
Distinct (k ∷ ks) = All (λ j. j ≢ k) ks × Distinct ks

pub record IsList (socks : Socks) (es : List RedSk) : Type 0 where
  pub sorted : IsSorted socks es
  pub once : Distinct (sks es)

-- Both depend on the sockets alone.
le_addr-sks :
    (socks : Socks) (x y : RedSk) (xs ys : List RedSk)
    → x.sk ≡ y.sk
    → sks xs ≡ sks ys
    → All (λ f. le_addr socks x f ≡ true) xs
    → All (λ f. le_addr socks y f ≡ true) ys
le_addr-sks socks x y [] [] e h a = tt
le_addr-sks socks x y [] (v ∷ ys) e h a = absurd (cc)
le_addr-sks socks x y (u ∷ xs) [] e h a = absurd (cc)
le_addr-sks socks x y (u ∷ xs) (v ∷ ys) e h a =
    let head : u.sk ≡ v.sk = cc in
    let tail : sks xs ≡ sks ys = cc in
    (rw (← e, ← head) a.0, le_addr-sks socks x y xs ys e tail a.1)

IsSorted-sks :
    (socks : Socks) (xs ys : List RedSk) → sks xs ≡ sks ys → IsSorted socks xs → IsSorted socks ys
IsSorted-sks socks [] [] h s = tt
IsSorted-sks socks [] (y ∷ ys) h s = absurd (cc)
IsSorted-sks socks (x ∷ xs) [] h s = absurd (cc)
IsSorted-sks socks (x ∷ xs) (y ∷ ys) h s =
    let head : x.sk ≡ y.sk = cc in
    let tail : sks xs ≡ sks ys = cc in
    (le_addr-sks socks x y xs ys head tail s.0, IsSorted-sks socks xs ys tail s.1)

pub IsList-sks :
    (socks : Socks) (xs ys : List RedSk) → sks xs ≡ sks ys → IsList socks xs → IsList socks ys
IsList-sks socks xs ys h l = record {
  sorted = IsSorted-sks socks xs ys h l.sorted;
  once = rw (← h) l.once;
}

-- An element between two parts of a list.
All-middle :
    (P : ℕ → Type 0) (pre post : List ℕ) (k : ℕ)
    → P k
    → All P (pre ++ post)
    → All P (pre ++ (k ∷ post))
All-middle P [] post k p h = (p, h)
All-middle P (j ∷ pre) post k p h = (h.0, All-middle P pre post k p h.1)

Distinct-middle :
    (pre post : List ℕ) (k : ℕ)
    → Distinct (pre ++ post)
    → All (λ j. j ≢ k) (pre ++ post)
    → Distinct (pre ++ (k ∷ post))
Distinct-middle [] post k d h = (h, d)
Distinct-middle (j ∷ pre) post k d h =
    (All-middle (λ i. i ≢ j) pre post k (λ e. h.0 (sym e)) d.0, Distinct-middle pre post k d.1 h.1)

is_known-All : (sk : ℕ) (es : List RedSk) → is_known sk es ≡ false → All (λ j. j ≢ sk) (sks es)
unfolding is_known
is_known-All sk [] h = tt
is_known-All sk (e ∷ es) h = (λ e'. ground arith, is_known-All sk es (ground arith))

-- What an addition to the list keeps.
pub record IsStore (socks : Socks) (r : Register) : Type 0 where
  pub array : IsArray r
  pub list : IsList socks r.sk_list

pub IsStore-sks :
    (socks : Socks) (r r' : Register)
    → sks r'.sk_list ≡ sks r.sk_list
    → length r'.spare ≡ length r.spare
    → IsStore socks r
    → IsStore socks r'
IsStore-sks socks r r' same spare s =
    let len = length-map (λ (e : RedSk). e.sk) r.sk_list in
    let len' = length-map (λ (e : RedSk). e.sk) r'.sk_list in
    record {
      array = omega (arith, len, len', ap length same, spare, s.array);
      list = IsList-sks socks r.sk_list r'.sk_list (sym same) s.list;
    }

pub Keeps-IsStore :
    (socks : Socks) (r r' : Register) → Keeps r r' → IsStore socks r → IsStore socks r'
Keeps-IsStore socks r r' k s = IsStore-sks socks r r' k.same k.spare s

insert_sk-IsStore :
    (socks : Socks) (run_start : ℤ) (sk : ℕ) (r r' : Register)
    → insert_sk socks run_start sk r ≡ some r'
    → IsStore socks r
    → All (λ j. j ≢ sk) (sks r.sk_list)
    → IsStore socks r'
unfolding fill
insert_sk-IsStore socks run_start sk r r' h s new =
    let (sorted, array, split) =
      insert_sk-IsSorted socks run_start sk r r' h s.array s.list.sorted in
    let (pre, post, x, old, now) = split in
    let before : sks r.sk_list ≡ sks pre ++ sks post = ap sks old ∙ map-append _ pre post in
    let after : sks r'.sk_list ≡ sks pre ++ (sk ∷ sks post) = ap sks now ∙ map-append _ pre _ in
    record {
      array = array;
      list = record {
        sorted = sorted;
        once =
            rw after (
              Distinct-middle (sks pre) (sks post) sk (rw before at s.list.once)
                (rw before at new));
      };
    }

insert_sk-state :
    (socks : Socks) (run_start : ℤ) (sk : ℕ) (r r' : Register)
    → insert_sk socks run_start sk r ≡ some r'
    → r'.state ≡ r.state
insert_sk-state socks run_start sk r r' h = elim (insert_sk_cases socks run_start sk r) [
  | inl (e, fault) ↦ absurd (cc)
  | inr (stale, rest, e, done) ↦
      let same : record r { sk_list = placed socks run_start sk stale r.sk_list; spare = rest }
          ≡ r' =
        cc in
      sym (ap (λ x. x.state) same)
]

module _ (k : Kernel) (socks : Socks) (skb : Option Skb) (run_start : ℤ) where
  add_new-IsStore :
      (sk : ℕ) (r r' : Register)
      → add_new k socks skb run_start sk r ≡ some r'
      → IsStore socks r
      → IsStore socks r' × (r'.state ≡ r.state)
  unfolding add_new
  add_new-IsStore sk r r' h s =
      elim (Bool-cases (not (is_available k (socks sk) skb false true == 0))) [
        | inl blocked ↦ let same : r ≡ r' = cc (rw (blocked, add_new) at h) in rw (← same) (s, refl)
        | inr free ↦ elim (Bool-cases (is_known sk r.sk_list)) [
          | inl known ↦
              let same : r ≡ r' = cc (rw (free, known, add_new) at h) in rw (← same) (s, refl)
          | inr new ↦
              let done : insert_sk socks run_start sk r ≡ some r' = rw (free, new, add_new) at h in
              (
                insert_sk-IsStore socks run_start sk r r' done s (is_known-All sk r.sk_list new),
                insert_sk-state socks run_start sk r r' done,
              )
        ]
      ]

  add_all-IsStore :
      (subflows : List ℕ) (r r' : Register)
      → add_all k socks skb run_start subflows r ≡ some r'
      → IsStore socks r
      → IsStore socks r' × (r'.state ≡ r.state)
  unfolding add_all
  add_all-IsStore [] r r' h s = let same : r ≡ r' = cc in rw (← same) (s, refl)
  add_all-IsStore (sk ∷ sks') r r' h s = elim (Option-cases (add_new k socks skb run_start sk r)) [
    | inl fault ↦ absurd (cc)
    | inr (r₁, done) ↦
        let (s₁, state₁) = add_new-IsStore sk r r₁ done s in
        let (s₂, state₂) =
          add_all-IsStore sks' r₁ r'
            (sym (ap (λ o. o >>= add_all k socks skb run_start sks') done) ∙ h) s₁ in
        (s₂, state₂ ∙ state₁)
  ]

  -- The search for new sockets.
  pub update_sk_list-IsStore :
      (subflows : List ℕ) (r r' : Register)
      → update_sk_list k socks run_start subflows skb r ≡ some r'
      → IsStore socks r
      → IsStore socks r' × (r'.state ≡ r.state)
  unfolding update_sk_list
  update_sk_list-IsStore subflows r r' h s = elim (Bool-cases r.state.in_cong) [
    | inl cong ↦ let same : r ≡ r' = cc (rw (cong, update_sk_list) at h) in rw (← same) (s, refl)
    | inr free ↦ elim (Option-cases (add_all k socks skb run_start subflows r)) [
      | inl fault ↦ absurd (cc)
      | inr (r₁, done) ↦
          let (s₁, state₁) = add_all-IsStore subflows r r₁ done s in
          let flags = set_enable_flag-Keeps r₁ in
          let same : set_enable_flag r₁ ≡ r' =
            cc (ap (λ o. o >>= λ (x : Register). some (set_enable_flag x)) done) in
          rw (← same) (Keeps-IsStore socks r₁ (set_enable_flag r₁) flags s₁, flags.state ∙ state₁)
    ]
  ]
