-- ===== src/Tests/Names.antt =====
-- Two schedulers that register under one name, and a default that is loaded.
use redundant_mptcp_r_mptcp.Prelude.{ℕ, ◌≡◌, ◌⊎◌, refl, ◌∙◌, sym, ap, true, none, List, [], ◌∷◌}
use mathlib.Core.List.{Memᴰ}
use redundant_mptcp_r_mptcp.Registry.Ops.{
  mptcp_fallback_default, Ops, same_name, mptcp_sched_find, mptcp_register_scheduler,
  mptcp_set_default_scheduler, enoent,
}
use redundant_mptcp_r_mptcp.Registry.Reach.{Reachable, IsProper, Reachable-IsProper}
use redundant_mptcp_r_mptcp.Registry.Front.{
  Registered, mptcp_register_scheduler-Registered, IsDefault, mptcp_set_default_scheduler-IsDefault,
}

-- The address of a record is the one byte of its name.
abbrev name_at : ℕ → List ℕ
name_at a = a ∷ []

abbrev ops : ℕ → Ops
ops a = record { address = a; name = name_at a; complete = true; owner = a }

abbrev loads : List ℕ → List Ops
loads [] = []
loads (a ∷ name) = ops a ∷ []

abbrev registered : List Ops
registered = (mptcp_register_scheduler (ops 1) []).0

reachable : Reachable name_at (mptcp_set_default_scheduler true loads (2 ∷ []) registered).0
reachable =
    Reachable.sets_default registered true loads (2 ∷ [])
      (λ x m. elim m [
        | Memᴰ.head eq ↦ ap (λ (y : Ops). y.name) eq ∙ sym (ap (λ (y : Ops). name_at y.address) eq)
        | Memᴰ.tail m' ↦ elim m' [ ]
      ])
      (Reachable.registers [] (ops 1) refl Reachable.empty)

Reachable-IsProper_example :
    IsProper name_at (mptcp_set_default_scheduler true loads (2 ∷ []) registered).0
Reachable-IsProper_example =
    Reachable-IsProper name_at (mptcp_set_default_scheduler true loads (2 ∷ []) registered).0
      reachable

mptcp_register_scheduler-Registered_example :
    Registered (ops 1) registered (mptcp_register_scheduler (ops 1) registered)
mptcp_register_scheduler-Registered_example = mptcp_register_scheduler-Registered (ops 1) registered

-- The name is taken.
twice : (mptcp_register_scheduler (ops 1) registered).1 ≡ 17
unfolding mptcp_register_scheduler
twice = refl

mptcp_set_default_scheduler-IsDefault_example :
    let (es, ret) = mptcp_set_default_scheduler true loads (2 ∷ []) registered in
    ((ret ≡ 0) × ((e : Ops) × (same_name e.name (2 ∷ []) ≡ true) × IsDefault e es))
    ⊎ ((ret ≡ enoent) × (mptcp_sched_find (2 ∷ []) es ≡ none))
mptcp_set_default_scheduler-IsDefault_example =
    mptcp_set_default_scheduler-IsDefault true loads (2 ∷ []) registered

-- The fallback reads NULL where the default path manager is not registered.
no_fallback :
    mptcp_fallback_default (ops 1) registered (record { live = λ m. true; refs = λ m. 1 }) ≡ none
unfolding mptcp_fallback_default mptcp_register_scheduler
no_fallback = refl
