-- ===== src/PathCheck.antt =====
-- rmptcp_pathcheck.c: the search for the path combinations that use no address twice, and the
-- measurement of each of them in turn. A write behind the array `pM` is the fault `none`.
pub mod Free
pub mod Addresses
pub mod Count
pub mod Search
pub mod Frame
use redundant_mptcp_r_mptcp.Prelude.{
  ℕ, zero, suc, ◌+◌, ◌/◌, ◌^◌, ◌-◌, Bool, true, false, not, ◌||◌, Option, none, some, ◌>>=◌, List,
  [], ◌∷◌, ◌++◌, ℤ, pos, negsuc, ◌*ℤ◌, u32, u64_of, s32, ltb, leb, ◌==◌, bit, to_ℕ, length, get_or,
  modify, if◌then◌else◌,
}
use Prim.Native.Nat.{min}
use redundant_mptcp_r_mptcp.Register.{
  RedSk, Register, Socks, Kernel, PathMeasurements, PathIndex, max_num_red_sk,
}
use redundant_mptcp_r_mptcp.SkList.{set_enable_flag}
use redundant_mptcp_r_mptcp.Main.{set_all_main}
use redundant_mptcp_r_mptcp.Settings.{Settings, empty_measurements}

abbrev pub max_num_src_sk : ℕ
max_num_src_sk = 4

abbrev pub max_num_dst_sk : ℕ
max_num_dst_sk = 4

pub contains : List ℕ → ℕ → Bool
contains [] a = false
contains (x ∷ xs) a = (a == x) || contains xs a

-- One of the two loops of `getAddresses`: the addresses in order of discovery, and whether the loop
-- came to its end. It returns early as soon as `limit` addresses are known.
pub collect : (limit : ℕ) → (RedSk → ℕ) → (found : List ℕ) → List RedSk → List ℕ × Bool
unfolding contains
collect limit addr found [] = (found, true)
collect limit addr found (e ∷ es) =
    let old = collect limit addr found es in
    let more = found ++ addr e ∷ [] in
    let new = collect limit addr more es in
    if contains found (addr e) then old else if leb limit (length more) then (more, false) else new

unfoldable pub get_addresses : Socks → List RedSk → PathIndex → PathIndex
unfolding collect
get_addresses socks es p =
    let (src, complete) = collect max_num_src_sk (λ e. (socks e.sk).saddr) [] es in
    let (dst, all) = collect max_num_dst_sk (λ e. (socks e.sk).daddr) [] es in
    record p { src_addr = src; dst_addr = if complete then dst else [] }

-- `numTestPaths`
pub count_paths : (mask i : ℕ) → List RedSk → ℕ
count_paths mask i [] = 0
count_paths mask i (e ∷ es) = to_ℕ (bit mask i) + count_paths mask (suc i) es

-- What the check of one mask comes to: no address is used twice, one is, or a temporary array is
-- full and the whole search returns.
pub data Overlap : Type 0 where
  distinct clash full : Overlap

pub check_overlap : Socks → (mask i : ℕ) → (src dst : List ℕ) → List RedSk → Overlap
unfolding contains
check_overlap socks mask i src dst [] = distinct
check_overlap socks mask i src dst (e ∷ es) =
    let s = (socks e.sk).saddr in
    let d = (socks e.sk).daddr in
    let skip = check_overlap socks mask (suc i) src dst es in
    let src' = src ++ s ∷ [] in
    let dst' = dst ++ d ∷ [] in
    let next = check_overlap socks mask (suc i) src' dst' es in
    if not (bit mask i)
    then skip
    else if contains src s || contains dst d
    then clash
    else if leb max_num_src_sk (length src') || leb max_num_dst_sk (length dst')
    then full
    else next

-- `pI.pM[pI.num_pathCombinations]` is written and the count goes up.
pub add_combination : (mask : ℕ) → PathIndex → Option PathIndex
add_combination mask p =
    let n = p.num_path_combinations in
    if ltb n max_num_red_sk
    then some (record p {
      path_measurements =
          modify (λ _. record empty_measurements { mask = mask }) n p.path_measurements;
      num_path_combinations = n + 1;
    })
    else none

-- The loop over the masks, from `mask` on, with the rounds left.
pub try_masks :
    Socks → List RedSk → (max_parallel : ℕ) → (rounds mask : ℕ) → PathIndex → Option PathIndex
unfolding count_paths check_overlap add_combination
try_masks socks es max_parallel zero mask p = some p
try_masks socks es max_parallel (suc rounds) mask p =
    let next = λ (q : PathIndex). try_masks socks es max_parallel rounds (suc mask) q in
    elim (count_paths mask 0 es == max_parallel) [
      | false ↦ next p
      | true ↦ elim (check_overlap socks mask 0 [] [] es) [
        | distinct ↦ add_combination mask p >>= next
        | clash ↦ next p
        | full ↦ some p
      ]
    ]

unfoldable pub get_path_combinations : Socks → List RedSk → PathIndex → Option PathIndex
unfolding get_addresses try_masks
get_path_combinations socks es p =
    let q = get_addresses socks es p in
    let parallel = min (length q.src_addr) (length q.dst_addr) in
    try_masks socks es parallel (2 ^ length es) 0
      (record q { max_num_parallel_paths = parallel; num_path_combinations = 0 })

-- One round of the loop of `getMeasurements`.
gather : Socks → PathMeasurements → RedSk → PathMeasurements
gather socks m e =
    let rtt = (socks e.sk).srtt_us / 2 ^ 3 in
    if e.state.enabled
    then record m {
      rtt_sum = u32 (m.rtt_sum + rtt);
      lowest_rtt = if ltb rtt m.lowest_rtt then rtt else m.lowest_rtt;
      min_subflow_bw =
          if ltb e.bandwidth_mean m.min_subflow_bw then e.bandwidth_mean else m.min_subflow_bw;
    }
    else m

gather_all : Socks → PathMeasurements → List RedSk → PathMeasurements
unfolding gather
gather_all socks m [] = m
gather_all socks m (e ∷ es) = gather_all socks (gather socks m e) es

unfoldable pub get_measurements : Socks → (index : ℕ) → Register → PathIndex → PathIndex
unfolding gather_all
get_measurements socks index r p =
    let start = λ (m : PathMeasurements). record m {
      total_bw = u32 r.total_bw_mean;
      lowest_rtt = 2 ^ 32 - 1;
      rtt_sum = 0;
      min_subflow_bw = 2 ^ 32 - 1;
    } in
    record p {
      path_measurements =
          modify (λ m. gather_all socks (start m) r.sk_list) index p.path_measurements;
    }

-- The static variables of `pathChecker`.
pub record Checker : Type 0 where
  pub running : Bool
  pub test_index : ℕ
  pub start_last_combination : ℤ

pub record Checked : Type 0 where
  pub settings : Settings
  pub checker : Checker

-- The register sends on the combination at `index`.
activate : (index : ℕ) → Settings → Settings
activate index s =
    let m = get_or s.paths.path_measurements index empty_measurements in
    let r = set_enable_flag (record s.reg { enable_mask = m.mask }) in
    record s { reg = record r { sk_list = set_all_main r.sk_list } }

-- The flag was set, so the search runs and the first combination is tested.
start_check : Socks → (run_start : ℤ) → Settings → Option Checked
unfolding activate
start_check socks run_start s = get_path_combinations socks s.reg.sk_list s.paths >>= λ p.
    some (record {
      settings = activate 0 (record s { paths = record p { active = negsuc 0 } });
      checker = record { running = true; test_index = 0; start_last_combination = run_start };
    })

-- The time of the current combination is over.
next_check : Socks → (run_start : ℤ) → Settings → Checker → Checked
unfolding activate
next_check socks run_start s c =
    let s' = record s { paths = get_measurements socks c.test_index s.reg s.paths } in
    let index = c.test_index + 1 in
    if leb s.paths.num_path_combinations index
    then record {
      settings = record s' { sys = record s'.sys { runpathcheck = pos 0 } };
      checker = record c { running = false; test_index = index };
    }
    else record {
      settings = activate index s';
      checker = record c { test_index = index; start_last_combination = run_start };
    }

unfoldable pub path_checker : Kernel → Socks → (run_start : ℤ) → Settings → Checker → Option Checked
unfolding start_check next_check
path_checker k socks run_start s c =
    let duration = u64_of (s32 (s.sys.runpathcheck_duration *ℤ pos 1000)) in
    if not c.running
    then start_check socks run_start s
    else if k.ktime_before (k.ktime_add_ms c.start_last_combination duration) run_start
    then some (next_check socks run_start s c)
    else some (record { settings = s; checker = c })
