-- ===== src/Registry/Reach.antt =====
-- The lists that the calls of a running kernel lead to.
use redundant_mptcp_r_mptcp.Prelude.{
  ℕ, ◌≡◌, refl, ◌∙◌, ap, sym, inl, inr, Bool, true, false, Bool-cases, Option-cases, List, [], ◌∷◌,
  ◌==◌, arith,
}
use mathlib.Core.List.{Memᴰ}
use redundant_mptcp_r_mptcp.Registry.Ops.{
  Ops, same_name, mptcp_sched_find, mptcp_register_scheduler, mptcp_unregister_scheduler,
  register_all, move_front, mptcp_set_default_scheduler,
}
use redundant_mptcp_r_mptcp.Registry.Names.{
  Distinct, same_name_comm, mptcp_sched_find-some, mptcp_sched_find-none, mem-unregister,
  mem-append_one, Distinct-unregister, Distinct-append,
}

-- A record has one name, which its address determines.
module _ (name_at : ℕ → List ℕ) where
  abbrev Named : List Ops → Type 0
  Named es = (x : Ops) → Memᴰ x es → x.name ≡ name_at x.address

  -- No two entries have the same name.
  pub record IsProper (es : List Ops) : Type 0 where
    pub named : Named es
    pub distinct : Distinct es

  -- The calls; a module that is loaded registers its records.
  pub data Reachable : List Ops → Type 0 where
    empty : Reachable []
    registers :
        (es : List Ops) (e : Ops)
        → e.name ≡ name_at e.address
        → Reachable es
        → Reachable (mptcp_register_scheduler e es).0
    unregisters :
        (es : List Ops) (e : Ops) → Reachable es → Reachable (mptcp_unregister_scheduler e es)
    sets_default :
        (es : List Ops) (may_load : Bool) (loaded : List ℕ → List Ops) (name : List ℕ)
        → ((x : Ops) → Memᴰ x (loaded name) → x.name ≡ name_at x.address)
        → Reachable es
        → Reachable (mptcp_set_default_scheduler may_load loaded name es).0

  tail-IsProper : (y : Ops) (es : List Ops) → IsProper (y ∷ es) → IsProper es
  tail-IsProper y es p = record { named = λ x m. p.named x (Memᴰ.tail m); distinct = p.distinct.1 }

  mptcp_register_scheduler-IsProper :
      (e : Ops) (es : List Ops)
      → e.name ≡ name_at e.address
      → IsProper es
      → IsProper (mptcp_register_scheduler e es).0
  unfolding mptcp_register_scheduler
  mptcp_register_scheduler-IsProper e es h p = elim (Bool-cases e.complete) [
    | inr off ↦ rw off p
    | inl on ↦ elim (Option-cases (mptcp_sched_find e.name es)) [
      | inr (old, eq) ↦ rw (on, eq) p
      | inl new ↦
          rw (on, new)
            (record {
              named = λ x m. elim (mem-append_one es e x m) [
                | inl old ↦ p.named x old
                | inr eq ↦
                    ap (λ (y : Ops). y.name) eq ∙ h ∙ ap (λ (y : Ops). name_at y.address) (sym eq)
              ];
              distinct =
                  Distinct-append es e p.distinct (λ x m. mptcp_sched_find-none e.name es x new m);
            })
    ]
  ]

  mptcp_unregister_scheduler-IsProper :
      (e : Ops) (es : List Ops) → IsProper es → IsProper (mptcp_unregister_scheduler e es)
  mptcp_unregister_scheduler-IsProper e es p = record {
    named = λ x m. p.named x (mem-unregister e x es m);
    distinct = Distinct-unregister e es p.distinct;
  }

  register_all-IsProper :
      (loaded es : List Ops) → Named loaded → IsProper es → IsProper (register_all loaded es)
  unfolding register_all
  register_all-IsProper [] es h p = p
  register_all-IsProper (e ∷ loaded) es h p =
      register_all-IsProper loaded (mptcp_register_scheduler e es).0 (λ x m. h x (Memᴰ.tail m))
        (mptcp_register_scheduler-IsProper e es (h e (Memᴰ.head refl)) p)

  -- An entry of the list that is taken out is not there any more under its name.
  mptcp_unregister_scheduler-away :
      (e : Ops) (es : List Ops)
      → IsProper es
      → Memᴰ e es
      → (x : Ops) → Memᴰ x (mptcp_unregister_scheduler e es)
      → same_name e.name x.name ≡ false
  unfolding mptcp_unregister_scheduler
  mptcp_unregister_scheduler-away e [] p m x n = elim m [ ]
  mptcp_unregister_scheduler-away e (y ∷ es) p m x n = elim (Bool-cases (y.address == e.address)) [
    | inl on ↦
        let same_at : y.address ≡ e.address = ground (arith, on) in
        let named = p.named y (Memᴰ.head refl) ∙ ap name_at same_at ∙ sym (p.named e m) in
        let apart = p.distinct.0 x (rw on at n) in ap (λ a. same_name a x.name) (sym named) ∙ apart
    | inr off ↦ elim m [
      | Memᴰ.head eq ↦
          let same : (y.address == y.address) ≡ true = ground arith in
          let at = ap (λ (z : Ops). y.address == z.address) eq in absurd (cc)
      | Memᴰ.tail m' ↦ elim (rw off at n) [
        | Memᴰ.head eq ↦
            ap (λ (z : Ops). same_name e.name z.name) eq
            ∙ same_name_comm e.name y.name
            ∙ p.distinct.0 e m'
        | Memᴰ.tail n' ↦ mptcp_unregister_scheduler-away e es (tail-IsProper y es p) m' x n'
      ]
    ]
  ]

  move_front-IsProper :
      (e : Ops) (es : List Ops) → Memᴰ e es → IsProper es → IsProper (move_front e es)
  move_front-IsProper e es m p = record {
    named = λ x n. elim n [
      | Memᴰ.head eq ↦
          ap (λ (y : Ops). y.name) eq ∙ p.named e m ∙ ap (λ (y : Ops). name_at y.address) (sym eq)
      | Memᴰ.tail n' ↦ p.named x (mem-unregister e x es n')
    ];
    distinct = (
      (λ x n. mptcp_unregister_scheduler-away e es p m x n),
      Distinct-unregister e es p.distinct,
    );
  }

  mptcp_set_default_scheduler-IsProper :
      (es : List Ops) (may_load : Bool) (loaded : List ℕ → List Ops) (name : List ℕ)
      → Named (loaded name)
      → IsProper es
      → IsProper (mptcp_set_default_scheduler may_load loaded name es).0
  unfolding mptcp_set_default_scheduler
  mptcp_set_default_scheduler-IsProper es may_load loaded name h p =
      let more = register_all (loaded name) es in
      let proper = register_all-IsProper (loaded name) es h p in
      elim (Option-cases (mptcp_sched_find name es)) [
        | inr (e, eq) ↦
            rw (eq, mptcp_set_default_scheduler)
              (move_front-IsProper e es (mptcp_sched_find-some name es e eq).0 p)
        | inl no_entry ↦ elim (Bool-cases may_load) [
          | inr off ↦ rw (no_entry, mptcp_set_default_scheduler, off) p
          | inl on ↦ elim (Option-cases (mptcp_sched_find name more)) [
            | inr (e, eq) ↦
                rw (no_entry, mptcp_set_default_scheduler, on, eq)
                  (move_front-IsProper e more (mptcp_sched_find-some name more e eq).0 proper)
            | inl none_of ↦ rw (no_entry, mptcp_set_default_scheduler, on, none_of) proper
          ]
        ]
      ]

  -- In every list that calls lead to, no two entries have the same name, if every record is
  -- registered under the one name that its address determines.
  pub Reachable-IsProper : (es : List Ops) → Reachable es → IsProper es
  Reachable-IsProper es empty = record { named = λ x m. elim m [ ]; distinct = tt }
  Reachable-IsProper es (registers es' e h r) =
      mptcp_register_scheduler-IsProper e es' h (Reachable-IsProper es' r)
  Reachable-IsProper es (unregisters es' e r) =
      mptcp_unregister_scheduler-IsProper e es' (Reachable-IsProper es' r)
  Reachable-IsProper es (sets_default es' may_load loaded name h r) =
      mptcp_set_default_scheduler-IsProper es' may_load loaded name h (Reachable-IsProper es' r)
