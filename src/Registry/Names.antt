-- ===== src/Registry/Names.antt =====
-- The names in a list: no two are the same.
use redundant_mptcp_r_mptcp.Prelude.{
  ℕ, ◌≡◌, ◌⊎◌, refl, ◌∙◌, ap, sym, inl, inr, true, false, Bool-cases, none, some, List, [], ◌∷◌,
  ◌++◌, ◌==◌, arith,
}
use mathlib.Core.List.{Memᴰ}
use redundant_mptcp_r_mptcp.Registry.Ops.{
  Ops, same_name, mptcp_sched_find, mptcp_unregister_scheduler,
}

pub same_name_refl : (a : List ℕ) → same_name a a ≡ true
unfolding same_name
same_name_refl [] = refl
same_name_refl (x ∷ a) = let same : (x == x) ≡ true = ground arith in rw same (same_name_refl a)

pub same_name_comm : (a b : List ℕ) → same_name a b ≡ same_name b a
unfolding same_name
same_name_comm [] [] = refl
same_name_comm [] (y ∷ b) = refl
same_name_comm (x ∷ a) [] = refl
same_name_comm (x ∷ a) (y ∷ b) =
    let same : (x == y) ≡ (y == x) = ground arith in rw (same, same_name_comm a b) refl

pub mptcp_sched_find-some :
    (name : List ℕ) (es : List Ops) (e : Ops)
    → mptcp_sched_find name es ≡ some e
    → Memᴰ e es × (same_name e.name name ≡ true)
unfolding mptcp_sched_find
mptcp_sched_find-some name [] e h = absurd (cc)
mptcp_sched_find-some name (x ∷ es) e h = elim (Bool-cases (same_name x.name name)) [
  | inl on ↦
      let same : x ≡ e = cc (rw on at h) in
      (Memᴰ.head (sym same), ap (λ (y : Ops). same_name y.name name) (sym same) ∙ on)
  | inr off ↦ (let (m, t) = mptcp_sched_find-some name es e (rw off at h) in (Memᴰ.tail m, t))
]

pub mptcp_sched_find-none :
    (name : List ℕ) (es : List Ops) (x : Ops)
    → mptcp_sched_find name es ≡ none
    → Memᴰ x es
    → same_name x.name name ≡ false
unfolding mptcp_sched_find
mptcp_sched_find-none name [] x h m = elim m [ ]
mptcp_sched_find-none name (e ∷ es) x h m = elim (Bool-cases (same_name e.name name)) [
  | inl on ↦ absurd (cc (rw on at h))
  | inr off ↦ elim m [
    | Memᴰ.head eq ↦ ap (λ (y : Ops). same_name y.name name) eq ∙ off
    | Memᴰ.tail m' ↦ mptcp_sched_find-none name es x (rw off at h) m'
  ]
]

abbrev pub Distinct : List Ops → Type 0
Distinct [] = Unit
Distinct (e ∷ es) = ((x : Ops) → Memᴰ x es → same_name e.name x.name ≡ false) × Distinct es

pub mem-unregister :
    (e x : Ops) (es : List Ops) → Memᴰ x (mptcp_unregister_scheduler e es) → Memᴰ x es
unfolding mptcp_unregister_scheduler
mem-unregister e x [] m = m
mem-unregister e x (y ∷ es) m = elim (Bool-cases (y.address == e.address)) [
  | inl on ↦ Memᴰ.tail (rw on at m)
  | inr off ↦ elim (rw off at m) [
    | Memᴰ.head eq ↦ Memᴰ.head eq
    | Memᴰ.tail m' ↦ Memᴰ.tail (mem-unregister e x es m')
  ]
]

pub Distinct-unregister :
    (e : Ops) (es : List Ops) → Distinct es → Distinct (mptcp_unregister_scheduler e es)
unfolding mptcp_unregister_scheduler
Distinct-unregister e [] h = h
Distinct-unregister e (y ∷ es) (apart, h) = elim (Bool-cases (y.address == e.address)) [
  | inl on ↦ rw on h
  | inr off ↦ rw off ((λ x m. apart x (mem-unregister e x es m)), Distinct-unregister e es h)
]

pub mem-append_one : (es : List Ops) (e x : Ops) → Memᴰ x (es ++ (e ∷ [])) → Memᴰ x es ⊎ (x ≡ e)
mem-append_one [] e x m = elim m [ Memᴰ.head eq ↦ inr eq | Memᴰ.tail m' ↦ elim m' [ ] ]
mem-append_one (y ∷ es) e x m = elim m [
  | Memᴰ.head eq ↦ inl (Memᴰ.head eq)
  | Memᴰ.tail m' ↦ elim (mem-append_one es e x m') [
    | inl old ↦ inl (Memᴰ.tail old)
    | inr new ↦ inr new
  ]
]

pub Distinct-append :
    (es : List Ops) (e : Ops)
    → Distinct es
    → ((x : Ops) → Memᴰ x es → same_name x.name e.name ≡ false)
    → Distinct (es ++ (e ∷ []))
Distinct-append [] e h k = ((λ x m. elim m [ ]), tt)
Distinct-append (y ∷ es) e (apart, h) k = (
  (λ x m. elim (mem-append_one es e x m) [
    | inl old ↦ apart x old
    | inr new ↦ ap (λ (z : Ops). same_name y.name z.name) new ∙ k y (Memᴰ.head refl)
  ]),
  Distinct-append es e h (λ x m. k x (Memᴰ.tail m)),
)
