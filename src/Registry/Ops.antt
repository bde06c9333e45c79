-- ===== src/Registry/Ops.antt =====
-- The registration of schedulers in mptcp_sched.c; mptcp_pm.c has the same code for path managers.
-- A return value of the source is its negation here: 0 or the number of the error.
use redundant_mptcp_r_mptcp.Prelude.{
  ℕ, zero, suc, ◌+◌, ◌-◌, Bool, true, false, not, ◌&&◌, Option, none, some, List, [], ◌∷◌, ◌++◌,
  ◌==◌, if◌then◌else◌,
}

-- `strcmp` of two names, without their final zeros.
unfoldable pub same_name : List ℕ → List ℕ → Bool
same_name [] [] = true
same_name (a ∷ as') (b ∷ bs) = (a == b) && same_name as' bs
same_name [] (b ∷ bs) = false
same_name (a ∷ as') [] = false

-- `struct mptcp_sched_ops` and `struct mptcp_pm_ops`: where it lies, whether it has the functions
-- that the registration asks for (`get_subflow` and `next_segment`; `get_local_id`), and its module.
pub record Ops : Type 0 where
  pub address : ℕ
  pub name : List ℕ
  pub complete : Bool
  pub owner : ℕ

unfoldable pub mptcp_sched_find : (name : List ℕ) → List Ops → Option Ops
unfolding same_name
mptcp_sched_find name [] = none
mptcp_sched_find name (e ∷ es) = if same_name e.name name then some e else mptcp_sched_find name es

abbrev pub einval : ℕ
einval = 22

abbrev pub eexist : ℕ
eexist = 17

abbrev pub enoent : ℕ
enoent = 2

-- The list and what is returned.
unfoldable pub mptcp_register_scheduler : Ops → List Ops → List Ops × ℕ
unfolding mptcp_sched_find
mptcp_register_scheduler e es =
    if not e.complete
    then (es, einval)
    else elim (mptcp_sched_find e.name es) [ some old ↦ (es, eexist) | none ↦ (es ++ (e ∷ []), 0) ]

-- `list_del_rcu`
unfoldable pub mptcp_unregister_scheduler : Ops → List Ops → List Ops
mptcp_unregister_scheduler e [] = []
mptcp_unregister_scheduler e (x ∷ es) =
    if x.address == e.address then es else x ∷ mptcp_unregister_scheduler e es

abbrev pub take {ℓ} : {A : Type ℓ} → ℕ → List A → List A
take zero xs = []
take (suc n) [] = []
take (suc n) (x ∷ xs) = x ∷ take n xs

-- `strncpy` of at most 16 bytes; an empty list is a bug.
unfoldable pub mptcp_get_default_scheduler : List Ops → Option (List ℕ)
mptcp_get_default_scheduler [] = none
mptcp_get_default_scheduler (e ∷ es) = some (take 16 e.name)

-- `list_move`
abbrev pub move_front : Ops → List Ops → List Ops
move_front e es = e ∷ mptcp_unregister_scheduler e es

-- What the loaded module registers.
unfoldable pub register_all : List Ops → List Ops → List Ops
unfolding mptcp_register_scheduler
register_all [] es = es
register_all (e ∷ loaded) es = register_all loaded (mptcp_register_scheduler e es).0

-- `may_load` is CONFIG_MODULES and CAP_NET_ADMIN, and `loaded` what `request_module` makes a module
-- register.
unfoldable pub mptcp_set_default_scheduler :
    (may_load : Bool) → (loaded : List ℕ → List Ops) → (name : List ℕ) → List Ops → List Ops × ℕ
unfolding mptcp_sched_find register_all mptcp_unregister_scheduler
mptcp_set_default_scheduler may_load loaded name es =
    let more = register_all (loaded name) es in
    elim (mptcp_sched_find name es) [
      | some e ↦ (move_front e es, 0)
      | none ↦ if not may_load then (es, enoent) else elim (mptcp_sched_find name more) [
        | some e ↦ (move_front e more, 0)
        | none ↦ (more, enoent)
      ]
    ]

-- The reference counts of the modules; a module that is going away takes no reference.
pub record Modules : Type 0 where
  pub live : ℕ → Bool
  pub refs : ℕ → ℕ

abbrev module_get : ℕ → Modules → Modules
module_get m ms = record ms { refs = λ i. if i == m then ms.refs i + 1 else ms.refs i }

abbrev module_put : ℕ → Modules → Modules
module_put m ms = record ms { refs = λ i. if i == m then ms.refs i - 1 else ms.refs i }

-- `sched_ops` or `pm_ops` of a new connection, which is NULL where nothing is found.
unfoldable pub mptcp_init_scheduler : List Ops → Modules → Option Ops × Modules
mptcp_init_scheduler [] ms = (none, ms)
mptcp_init_scheduler (e ∷ es) ms =
    let rest = mptcp_init_scheduler es ms in
    if ms.live e.owner then (some e, module_get e.owner ms) else rest

unfoldable pub mptcp_cleanup_scheduler : Ops → Modules → Modules
mptcp_cleanup_scheduler e ms = module_put e.owner ms

-- `mptcp_fallback_default` of mptcp_pm.c, for the bytes of "default"; NULL is read if the default
-- path manager is not there.
unfoldable pub mptcp_fallback_default : Ops → List Ops → Modules → Option (Ops × Modules)
unfolding mptcp_sched_find mptcp_cleanup_scheduler
mptcp_fallback_default old es ms =
    let ms' = mptcp_cleanup_scheduler old ms in
    elim (mptcp_sched_find (100 ∷ 101 ∷ 102 ∷ 97 ∷ 117 ∷ 108 ∷ 116 ∷ []) es) [
      | none ↦ none
      | some e ↦ some (e, if ms'.live e.owner then module_get e.owner ms' else ms')
    ]
