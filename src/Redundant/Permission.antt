-- ===== src/Redundant/Permission.antt =====
-- When the redundant scheduler lets a subflow send a segment: `redsched_use_subflow` and
-- `redsched_get_active_valid_sks` of mptcp_redundant.c.
use redundant_mptcp_r_mptcp.Prelude.{
  ◌≡◌, ◌≢◌, ◌⊎◌, refl, inl, inr, true, false, ◌==◌, Bool-cases, some, List, [], ◌∷◌, All, arith,
}
use redundant_mptcp_r_mptcp.Register.{Socks, Kernel}
use redundant_mptcp_r_mptcp.Default.Subflow.{
  mptcp_is_available, mptcp_is_def_unavailable, subflow_is_active, subflow_is_backup,
}
use redundant_mptcp_r_mptcp.Redundant.Segment.{
  RedSkb, RedSub, RedMeta, redsched_get_active_valid_sks, redsched_use_subflow,
}

-- No subflow is an active one that can be used at all.
abbrev pub NoneActive : Socks → List RedSub → Type 0
NoneActive socks =
    All (λ e. subflow_is_active e.sub ≡ true → mptcp_is_def_unavailable (socks e.sub.sk) ≡ true)

active_valid_sks-NoneActive :
    (socks : Socks) (es : List RedSub)
    → redsched_get_active_valid_sks socks es ≡ false
    → NoneActive socks es
unfolding redsched_get_active_valid_sks
active_valid_sks-NoneActive socks [] h = tt
active_valid_sks-NoneActive socks (e ∷ es) h =
    (λ on. ground arith, active_valid_sks-NoneActive socks es (ground arith))

NoneActive-active_valid_sks :
    (socks : Socks) (es : List RedSub)
    → NoneActive socks es
    → redsched_get_active_valid_sks socks es ≡ false
unfolding redsched_get_active_valid_sks
NoneActive-active_valid_sks socks [] h = refl
NoneActive-active_valid_sks socks (e ∷ es) h =
    ground (arith, h.0, NoneActive-active_valid_sks socks es h.1)

-- A subflow may send a segment if it can take it now and, if the segment was sent before on any path,
-- is no backup, or if it was not, is no backup or no active subflow can be used.
pub data MaySend (k : Kernel) (socks : Socks) (m : RedMeta) (e : RedSub) (s : RedSkb) : Type 0 where
  sent_before :
      mptcp_is_available k socks e.sub (some s.skb.skb) false ≡ true
      → s.skb.path_mask ≢ 0
      → subflow_is_active e.sub ≡ true
      → MaySend k socks m e s
  fresh :
      mptcp_is_available k socks e.sub (some s.skb.skb) false ≡ true
      → s.skb.path_mask ≡ 0
      → (subflow_is_backup e.sub ≡ false) ⊎ NoneActive socks m.subflows
      → MaySend k socks m e s

module _ (k : Kernel) (socks : Socks) (m : RedMeta) (e : RedSub) (s : RedSkb) where
  pub use_subflow-MaySend :
      redsched_use_subflow k socks (redsched_get_active_valid_sks socks m.subflows) e s ≡ true
      → MaySend k socks m e s
  unfolding redsched_use_subflow
  use_subflow-MaySend h =
      let active = redsched_get_active_valid_sks socks m.subflows in
      elim (Bool-cases (s.skb.path_mask == 0)) [
        | inr some_path ↦
            sent_before (ground arith) (λ z. ground (arith, some_path, z)) (ground arith)
        | inl no_path ↦ elim (Bool-cases (subflow_is_backup e.sub)) [
          | inr main ↦ fresh (ground arith) (ground (arith, no_path)) (inl main)
          | inl backup ↦
              fresh (ground arith) (ground (arith, no_path))
                (inr (active_valid_sks-NoneActive socks m.subflows (ground arith)))
        ]
      ]

  pub MaySend-use_subflow :
      MaySend k socks m e s
      → redsched_use_subflow k socks (redsched_get_active_valid_sks socks m.subflows) e s ≡ true
  unfolding redsched_use_subflow
  MaySend-use_subflow (sent_before on some_path active) = ground (arith, on, some_path, active)
  MaySend-use_subflow (fresh on no_path (inl main)) = ground (arith, on, no_path, main)
  MaySend-use_subflow (fresh on no_path (inr none_active)) =
      ground (arith, on, no_path, NoneActive-active_valid_sks socks m.subflows none_active)
