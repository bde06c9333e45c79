-- ===== src/Lowpass/Gate.antt =====
-- `rmptcp_lowpass` of mptcp_input.c: is a segment handed up now? The arrays `sk_list` and
-- `last_send` are one list of channels, as long as `sk_list_i`; what lies behind that is never
-- read. A write behind the arrays, at a 21st socket, is the fault `none`.
pub mod Channels
pub mod Upto
pub mod Release
use redundant_mptcp_r_mptcp.Prelude.{
  ℕ, ◌+◌, Bool, true, false, ◌||◌, Option, none, some, ◌>>=◌, List, [], ◌∷◌, ◌++◌, map, ℤ, pos,
  ◌-ℤ◌, ltb_ℤ, u64, u64_of, s64, ltb, ◌==◌, length, if◌then◌else◌,
}
use redundant_mptcp_r_mptcp.Lowpass.Learn.{one_sec}

abbrev pub sk_list_size : ℕ
sk_list_size = 20

-- A socket and the time at which a segment of it was handed up last.
pub record Channel : Type 0 where
  pub sk : ℕ
  pub last_send : ℤ

-- A channel that was not used for a second.
is_stale : (now : ℤ) → Channel → Bool
is_stale now c = ltb_ℤ one_sec (s64 (now -ℤ c.last_send))

pub any : (Channel → Bool) → List Channel → Bool
any test [] = false
any test (c ∷ cs) = test c || any test cs

-- The list is reset if one of its sockets is stale.
unfoldable pub reset_stale : (now : ℤ) → List Channel → List Channel
unfolding any is_stale
reset_stale now cs = if any (is_stale now) cs then [] else cs

-- Changes the first channel of a socket.
pub on_channel : (sk : ℕ) → (Channel → Channel) → List Channel → List Channel
on_channel sk f [] = []
on_channel sk f (c ∷ cs) = if c.sk == sk then f c ∷ cs else c ∷ on_channel sk f cs

unfoldable pub register : (sk : ℕ) → List Channel → Option (List Channel)
unfolding any
register sk cs =
    if any (λ c. c.sk == sk) cs
    then some cs
    else if ltb (length cs) sk_list_size
    then some (cs ++ (record { sk = sk; last_send = pos 0 } ∷ []))
    else none

-- A time in the future is now.
pub no_future : (now : ℤ) → Channel → Channel
no_future now c = if ltb_ℤ now c.last_send then record c { last_send = now } else c

-- The sum and the comparison are those of u64, since `learned_timeout` is one.
unfoldable pub is_silent : (learned_timeout : ℕ) → (now : ℤ) → Channel → Bool
is_silent learned_timeout now c = ltb (u64 (u64_of c.last_send + learned_timeout)) (u64_of now)

-- What follows the registration: the list of channels and the result.
hand_up :
    (learned_timeout : ℕ)
    → (now : ℤ) → (sk : ℕ) → (dsn_hit : Bool) → List Channel
    → List Channel × Bool
unfolding no_future on_channel
hand_up learned_timeout now sk dsn_hit cs =
    let there = on_channel sk (no_future now) cs in
    if dsn_hit || any (is_silent learned_timeout now) there
    then (on_channel sk (λ c. record c { last_send = now }) there, true)
    else (there, false)

unfoldable pub lowpass :
    (learned_timeout : ℕ)
    → (now : ℤ) → (sk : ℕ) → (dsn_hit : Bool) → List Channel
    → Option (List Channel × Bool)
unfolding hand_up
lowpass learned_timeout now sk dsn_hit cs =
    register sk (reset_stale now cs) >>= λ cs'. some (hand_up learned_timeout now sk dsn_hit cs')
