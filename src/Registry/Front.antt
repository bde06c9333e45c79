-- ===== src/Registry/Front.antt =====
-- Which entry is the default, and which one a connection gets.
use redundant_mptcp_r_mptcp.Prelude.{
  ℕ, ◌+◌, ◌-◌, ◌≡◌, ◌⊎◌, refl, inl, inr, Bool, true, false, Bool-cases, Option-cases, none, some,
  List, [], ◌∷◌, ◌++◌, ◌==◌, arith, if◌then◌else◌,
}
use redundant_mptcp_r_mptcp.Registry.Ops.{
  Ops, Modules, same_name, mptcp_sched_find, mptcp_register_scheduler, mptcp_unregister_scheduler,
  register_all, mptcp_get_default_scheduler, mptcp_set_default_scheduler, take, einval, eexist,
  enoent, mptcp_init_scheduler, mptcp_cleanup_scheduler,
}
use redundant_mptcp_r_mptcp.Registry.Names.{same_name_refl, mptcp_sched_find-some}

-- What `mptcp_register_scheduler` does, by its three results.
pub data Registered (e : Ops) (es : List Ops) : List Ops × ℕ → Type 0 where
  incomplete : e.complete ≡ false → Registered e es (es, einval)
  exists :
      (old : Ops)
      → e.complete ≡ true
      → mptcp_sched_find e.name es ≡ some old
      → Registered e es (es, eexist)
  added :
      (r : List Ops)
      → e.complete ≡ true
      → mptcp_sched_find e.name es ≡ none
      → mptcp_sched_find e.name r ≡ some e
      → ((name : List ℕ) (x : Ops)
          → mptcp_sched_find name es ≡ some x
          → mptcp_sched_find name r ≡ some x)
      → Registered e es (r, 0)

mptcp_sched_find-append_old :
    (name : List ℕ) (es : List Ops) (e x : Ops)
    → mptcp_sched_find name es ≡ some x
    → mptcp_sched_find name (es ++ (e ∷ [])) ≡ some x
unfolding mptcp_sched_find
mptcp_sched_find-append_old name [] e x h = absurd (cc)
mptcp_sched_find-append_old name (y ∷ es) e x h = elim (Bool-cases (same_name y.name name)) [
  | inl on ↦ rw on (rw on at h)
  | inr off ↦ rw off (mptcp_sched_find-append_old name es e x (rw off at h))
]

mptcp_sched_find-append_new :
    (es : List Ops) (e : Ops)
    → mptcp_sched_find e.name es ≡ none
    → mptcp_sched_find e.name (es ++ (e ∷ [])) ≡ some e
unfolding mptcp_sched_find
mptcp_sched_find-append_new [] e h = rw (same_name_refl e.name) refl
mptcp_sched_find-append_new (y ∷ es) e h = elim (Bool-cases (same_name y.name e.name)) [
  | inl on ↦ absurd (cc (rw on at h))
  | inr off ↦ rw off (mptcp_sched_find-append_new es e (rw off at h))
]

-- A record without its functions is refused with EINVAL, a complete one whose name is taken with
-- EEXIST, and the list stays as it was; any other is accepted with 0 and found under its name
-- afterwards, and every name that was found before still gives the entry it gave.
pub mptcp_register_scheduler-Registered :
    (e : Ops) (es : List Ops) → Registered e es (mptcp_register_scheduler e es)
unfolding mptcp_register_scheduler
mptcp_register_scheduler-Registered e es = elim (Bool-cases e.complete) [
  | inr off ↦ simp off (incomplete off)
  | inl on ↦ elim (Option-cases (mptcp_sched_find e.name es)) [
    | inr (old, eq) ↦ simp (on, eq) (exists old on eq)
    | inl new ↦
        simp (on, new)
          (added (es ++ (e ∷ [])) on new (mptcp_sched_find-append_new es e new)
            (λ name x h. mptcp_sched_find-append_old name es e x h))
  ]
]

-- What a change of the default leaves: an entry of that name in front, or none in the list.
data Changed (name : List ℕ) : List Ops × ℕ → Type 0 where
  front : (e : Ops) (es : List Ops) → same_name e.name name ≡ true → Changed name (e ∷ es, 0)
  missing : (es : List Ops) → mptcp_sched_find name es ≡ none → Changed name (es, enoent)

mptcp_set_default_scheduler-Changed :
    (may_load : Bool) (loaded : List ℕ → List Ops) (name : List ℕ) (es : List Ops)
    → Changed name (mptcp_set_default_scheduler may_load loaded name es)
unfolding mptcp_set_default_scheduler
mptcp_set_default_scheduler-Changed may_load loaded name es =
    let more = register_all (loaded name) es in
    elim (Option-cases (mptcp_sched_find name es)) [
      | inr (e, eq) ↦
          rw (eq, mptcp_set_default_scheduler)
            (front e (mptcp_unregister_scheduler e es) (mptcp_sched_find-some name es e eq).1)
      | inl no_entry ↦ elim (Bool-cases may_load) [
        | inr off ↦ rw (no_entry, mptcp_set_default_scheduler, off) (missing es no_entry)
        | inl on ↦ elim (Option-cases (mptcp_sched_find name more)) [
          | inr (e, eq) ↦
              rw (no_entry, mptcp_set_default_scheduler, on, eq)
                (front e (mptcp_unregister_scheduler e more)
                  (mptcp_sched_find-some name more e eq).1)
          | inl none_of ↦
              rw (no_entry, mptcp_set_default_scheduler, on, none_of) (missing more none_of)
        ]
      ]
    ]

count_back :
    (i owner n : ℕ)
    → (if i == owner
        then (if i == owner then n + 1 else n) - 1
        else (if i == owner then n + 1 else n))
      ≡ n
count_back i owner n = ground arith

-- What a new connection gets and gives back where `e` is the default.
pub record IsDefault (e : Ops) (es : List Ops) : Type 0 where
  pub named : mptcp_get_default_scheduler es ≡ some (take 16 e.name)
  pub given : (ms : Modules) → ms.live e.owner ≡ true → (mptcp_init_scheduler es ms).0 ≡ some e
  pub returned :
      (ms : Modules) (i : ℕ)
      → ms.live e.owner ≡ true
      → (mptcp_cleanup_scheduler e (mptcp_init_scheduler es ms).1).refs i ≡ ms.refs i

front-IsDefault : (e : Ops) (es : List Ops) → IsDefault e (e ∷ es)
unfolding mptcp_get_default_scheduler mptcp_init_scheduler mptcp_cleanup_scheduler
front-IsDefault e es = record {
  named = refl;
  given = λ ms h. rw h refl;
  returned = λ ms i h. rw h (count_back i e.owner (ms.refs i));
}

result :
    (name : List ℕ) (r : List Ops × ℕ)
    → Changed name r
    → ((r.1 ≡ 0) × ((e : Ops) × (same_name e.name name ≡ true) × IsDefault e r.0))
      ⊎ ((r.1 ≡ enoent) × (mptcp_sched_find name r.0 ≡ none))
result name r (front e es h) = inl (refl, (e, h, front-IsDefault e es))
result name r (missing es h) = inr (refl, h)

-- A call returns 0 or ENOENT. After 0 an entry of that name is the default: `mptcp_get_default_scheduler` gives the
-- first 16 bytes of its name, a new connection gets it if its module is not going away, and with the
-- end of the connection every module's count is as before. After ENOENT the name is not in the list.
pub mptcp_set_default_scheduler-IsDefault :
    (may_load : Bool) (loaded : List ℕ → List Ops) (name : List ℕ) (es : List Ops)
    → let (es', ret) = mptcp_set_default_scheduler may_load loaded name es in
      ((ret ≡ 0) × ((e : Ops) × (same_name e.name name ≡ true) × IsDefault e es'))
      ⊎ ((ret ≡ enoent) × (mptcp_sched_find name es' ≡ none))
mptcp_set_default_scheduler-IsDefault may_load loaded name es =
    result name (mptcp_set_default_scheduler may_load loaded name es)
      (mptcp_set_default_scheduler-Changed may_load loaded name es)
