-- ===== src/Lowpass/Learn.antt =====
-- `rmptcp_calc_lowpass_timeout` of mptcp_input.c: the mean time between two new segments becomes
-- the timeout of the lowpass.
pub mod Bounds
use redundant_mptcp_r_mptcp.Prelude.{
  ℕ, ◌+◌, ◌*◌, ◌/◌, Bool, true, false, not, ◌&&◌, ◌||◌, List, [], ◌∷◌, ℤ, pos, ◌-ℤ◌, ◌*ℤ◌, ltb_ℤ,
  u32, u32_of, s32, s64, ltb, leb, ◌==◌, modify, replicate, if◌then◌else◌,
}
use redundant_mptcp_r_mptcp.Lowpass.Queue.{
  LowpassQueue, initial_queue, add_to_sk_queue, peak_dsn_sk_queue,
}

abbrev pub one_sec : ℤ
one_sec = pos 1000000000

abbrev pub da_size : ℕ
da_size = 20

-- The sysctl variables of the lowpass, both `int`.
pub record LowpassSysctl : Type 0 where
  pub lowpassmaxwait : ℤ
  pub lplearnrate : ℤ

-- The static variables of the function with the two globals `red_lp_queue` and `learned_timeout`.
pub record Learner : Type 0 where
  pub queue : LowpassQueue
  pub last_new : ℤ
  pub delta_arr : List ℕ
  pub da_i : ℕ
  pub delta_mean : ℕ
  pub learned_timeout : ℕ

abbrev pub initial_learner : Learner
initial_learner = record {
  queue = initial_queue;
  last_new = pos 0;
  delta_arr = replicate da_size 0;
  da_i = 0;
  delta_mean = 0;
  learned_timeout = 200000000;
}

-- A time of the last new segment that is more than a second old, or in the future, is now.
refresh : (now : ℤ) → Learner → Learner
refresh now l =
    if ltb_ℤ l.last_new (s64 (now -ℤ one_sec)) || ltb_ℤ now l.last_new
    then record l { last_new = now }
    else l

-- `delta_mean + ((delta_mean/100)*sysctl_rmptcp_lplearnrate)`, an `unsigned int`.
unfoldable pub delta_mean_max : LowpassSysctl → (delta_mean : ℕ) → ℕ
delta_mean_max sys mean = u32 (mean + u32 (mean / 100 * u32_of sys.lplearnrate))

-- The time since the last new segment, cut to 32 bits and then to what the mean may grow to.
unfoldable pub current_delta : LowpassSysctl → (now : ℤ) → Learner → ℕ
current_delta sys now l =
    let delta = u32_of (s64 (now -ℤ l.last_new)) in
    let most = delta_mean_max sys l.delta_mean in
    if not (l.delta_mean == 0) && ltb most delta then most else delta

-- A new segment.
learn_new : LowpassSysctl → (now : ℤ) → (sk data_seq : ℕ) → Learner → Learner
unfolding add_to_sk_queue
learn_new sys now sk data_seq l = record l {
  queue = add_to_sk_queue sk data_seq l.queue;
  last_new = now;
  delta_arr = modify (λ _. current_delta sys now l) l.da_i l.delta_arr;
  da_i = if leb da_size (l.da_i + 1) then 0 else l.da_i + 1;
}

-- The walk over the receive queue of the socket, given by the numbers of its segments; `any_hit`
-- tells whether one of them is known from another socket.
learn_each :
    LowpassSysctl → (now : ℤ) → (sk : ℕ) → (any_hit : Bool) → List ℕ → Learner → Learner × Bool
unfolding learn_new peak_dsn_sk_queue
learn_each sys now sk any_hit [] l = (l, any_hit)
learn_each sys now sk any_hit (data_seq ∷ segs) l =
    let hit = peak_dsn_sk_queue sk data_seq l.queue in
    learn_each sys now sk (any_hit || hit) segs (if hit then l else learn_new sys now sk data_seq l)

-- `delta_mean += delta_arr[i]` over the array.
sum32 : (acc : ℕ) → List ℕ → ℕ
sum32 acc [] = acc
sum32 acc (d ∷ ds) = sum32 (u32 (acc + d)) ds

-- `sysctl_rmptcp_lowpassmaxwait * MICRO2NS`, compared as an `unsigned int`.
unfoldable pub max_wait : LowpassSysctl → ℕ
max_wait sys = u32_of (s32 (sys.lowpassmaxwait *ℤ pos 1000))

learn_mean : LowpassSysctl → Learner → Learner
unfolding sum32
learn_mean sys l =
    let mean = sum32 0 l.delta_arr / da_size in
    let limited = if ltb (max_wait sys) mean then max_wait sys else mean in
    record l { delta_mean = limited; learned_timeout = limited }

-- The learner after the call, and whether any segment was a hit.
unfoldable pub calc_lowpass_timeout :
    LowpassSysctl → (now : ℤ) → (sk : ℕ) → (segs : List ℕ) → Learner → Learner × Bool
unfolding refresh learn_each learn_mean
calc_lowpass_timeout sys now sk segs l =
    let (l', any_hit) = learn_each sys now sk false segs (refresh now l) in
    if any_hit then (l', true) else (learn_mean sys l', false)
