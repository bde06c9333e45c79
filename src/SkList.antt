-- ===== src/SkList.antt =====
-- The subflow list of rmptcp.c: `rmptcp_insert_sk`, `rmptcp_set_enable_flag`,
-- `rmptcp_update_sk_list`. An insertion into a full array would write behind its end: it is the
-- fault `none`.
pub mod Insert
pub mod Enable
pub mod Order
pub mod Frame
use redundant_mptcp_r_mptcp.Prelude.{
  ℕ, zero, suc, ◌+◌, Bool, true, false, not, ◌&&◌, ◌||◌, Option, none, some, ◌>>=◌, List, [], ◌∷◌,
  ℤ, ltb, ◌==◌, bit, sub32, to_ℕ, if◌then◌else◌,
}
use redundant_mptcp_r_mptcp.Register.{RedSk, Register, Socks, Skb, Kernel, sk_list_size}
use redundant_mptcp_r_mptcp.Availability.{is_available}

-- Does the search for the place of an address pair stop at this entry?
stops : Socks → (saddr daddr : ℕ) → RedSk → Bool
stops socks saddr daddr e =
    let s = (socks e.sk).saddr in
    let d = (socks e.sk).daddr in
    if ltb s saddr
    then false
    else if (saddr == s) && ltb daddr d
    then true
    else if (saddr == s) && ltb d daddr
    then false
    else if (saddr == s) && (daddr == d)
    then true
    else ltb saddr s

-- The first index at which it stops, or the length of the list.
pub position : Socks → (saddr daddr : ℕ) → List RedSk → ℕ
position socks saddr daddr [] = 0
position socks saddr daddr (e ∷ es) =
    if stops socks saddr daddr e then 0 else suc (position socks saddr daddr es)

-- The six writes that make a slot the entry of a new socket. The other fields keep what they hold.
pub fill : ℤ → ℕ → RedSk → RedSk
fill run_start sk e = record e {
  sk = sk;
  last_used = run_start;
  seg_count = 0;
  byte_count = 0;
  byte_count_old = 0;
  state = record {
    active = true;
    available = false;
    enabled = false;
    main = true;
    cong = false;
    sub = false;
  };
}

-- The entries from index `i` on move up by one, and slot `i`, whose contents were copied and not
-- moved, is filled. At the end of the list that slot is the first spare one, `stale`.
pub shift_fill : ℤ → ℕ → (i : ℕ) → (stale : RedSk) → List RedSk → List RedSk
shift_fill run_start sk i stale [] = fill run_start sk stale ∷ []
shift_fill run_start sk zero stale (e ∷ es) = fill run_start sk e ∷ e ∷ es
shift_fill run_start sk (suc i) stale (e ∷ es) = e ∷ shift_fill run_start sk i stale es

unfoldable pub insert_sk : Socks → (run_start : ℤ) → (sk : ℕ) → Register → Option Register
unfolding stops position fill shift_fill
insert_sk socks run_start sk r = elim r.spare [
  | [] ↦ none
  | stale ∷ rest ↦
      let i = position socks (socks sk).saddr (socks sk).daddr r.sk_list in
      some (record r { sk_list = shift_fill run_start sk i stale r.sk_list; spare = rest })
]

-- A subflow that is not enabled is not a main one either.
enable_flag : Bool → RedSk → RedSk
enable_flag on e =
    if on
    then record e { state = record e.state { enabled = true } }
    else record e { state = record e.state { enabled = false; main = false } }

pub enable_from : (mask i : ℕ) → List RedSk → List RedSk
enable_from mask i [] = []
enable_from mask i (e ∷ es) = enable_flag (bit mask i) e ∷ enable_from mask (suc i) es

-- The second loop, which counts the clear bits of the mask.
count_disabled : (mask i : ℕ) → List RedSk → ℕ
count_disabled mask i [] = 0
count_disabled mask i (e ∷ es) = to_ℕ (not (bit mask i)) + count_disabled mask (suc i) es

unfoldable pub set_enable_flag : Register → Register
unfolding enable_flag enable_from count_disabled
set_enable_flag r = record r {
  sk_list = enable_from r.enable_mask 0 r.sk_list;
  num_enabled = sub32 (sk_list_size r) (count_disabled r.enable_mask 0 r.sk_list);
}

is_known : ℕ → List RedSk → Bool
is_known sk [] = false
is_known sk (e ∷ es) = (e.sk == sk) || is_known sk es

-- The body of `mptcp_for_each_sk`.
add_new : Kernel → Socks → Option Skb → (run_start : ℤ) → (sk : ℕ) → Register → Option Register
unfolding is_known insert_sk
add_new k socks skb run_start sk r =
    if not (is_available k (socks sk) skb false true == 0)
    then some r
    else if is_known sk r.sk_list
    then some r
    else insert_sk socks run_start sk r

pub add_all : Kernel → Socks → Option Skb → (run_start : ℤ) → List ℕ → Register → Option Register
add_all k socks skb run_start [] r = some r
add_all k socks skb run_start (sk ∷ sks) r =
    add_new k socks skb run_start sk r >>= add_all k socks skb run_start sks

-- `subflows` are the sockets of the connection in the order of `mptcp_for_each_sk`.
unfoldable pub update_sk_list :
    Kernel → Socks → (run_start : ℤ) → (subflows : List ℕ) → Option Skb → Register → Option Register
unfolding add_all add_new
update_sk_list k socks run_start subflows skb r =
    if r.state.in_cong
    then some r
    else add_all k socks skb run_start subflows r >>= λ r'. some (set_enable_flag r')
