-- ===== src/Lowpass/Queue.antt =====
-- `red_lp_queue` of mptcp_input.c: a ring that holds the data sequence numbers seen last, each with
-- the socket that it came from: `rmptcp_add_to_sk_queue`, `rmptcp_get_from_sk_queue` and
-- `rmptcp_peak_dsn_sk_queue`. A segment is given by the number that `mptcp_skb_set_data_seq` of
-- mptcp.h reads from it.
pub mod Ring
pub mod Recall
use redundant_mptcp_r_mptcp.Prelude.{
  ℕ, ◌+◌, Bool, true, false, not, Option, none, some, List, [], ◌∷◌, leb, ◌==◌, get_or, modify,
  replicate, if◌then◌else◌,
}

abbrev pub max_num_red_in_sk : ℕ
max_num_red_in_sk = 100

-- `struct red_in_sk`. `sk` is the address of the socket, and 0 is NULL.
pub record RedInSk : Type 0 where
  pub sk : ℕ
  pub dsn : ℕ
  pub dsn_send : Bool

-- `struct rmptcp_lowpass_queue`.
pub record LowpassQueue : Type 0 where
  pub queue_head : ℕ
  pub queue_tail : ℕ
  pub sk_list : List RedInSk

abbrev pub empty_in_sk : RedInSk
empty_in_sk = record { sk = 0; dsn = 0; dsn_send = false }

-- The initial value of `red_lp_queue`.
abbrev pub initial_queue : LowpassQueue
initial_queue = record {
  queue_head = 0;
  queue_tail = 0;
  sk_list = replicate max_num_red_in_sk empty_in_sk;
}

-- An index goes up by one, and from the end of the array to its begin.
unfoldable pub advance : ℕ → ℕ
advance i = if leb max_num_red_in_sk (i + 1) then 0 else i + 1

unfoldable pub add_to_sk_queue : (sk data_seq : ℕ) → LowpassQueue → LowpassQueue
unfolding advance
add_to_sk_queue sk data_seq q = record q {
  sk_list =
      modify (λ _. record { sk = sk; dsn = data_seq; dsn_send = false }) q.queue_tail q.sk_list;
  queue_tail = advance q.queue_tail;
}

-- The socket is `none` where the queue is empty.
unfoldable pub get_from_sk_queue : LowpassQueue → Option ℕ × LowpassQueue
unfolding advance
get_from_sk_queue q = if q.queue_tail == q.queue_head then (none, q) else (
  some (get_or q.sk_list q.queue_head empty_in_sk).sk,
  record q {
    sk_list = modify (λ e. record e { dsn_send = true }) q.queue_head q.sk_list;
    queue_head = advance q.queue_head;
  },
)

-- The search over the whole array: it stops at the first entry with this number, and is a hit if
-- that entry came from another socket.
unfoldable pub peak : (sk data_seq : ℕ) → List RedInSk → Bool
peak sk data_seq [] = false
peak sk data_seq (e ∷ es) =
    let rest = peak sk data_seq es in if e.dsn == data_seq then not (e.sk == sk) else rest

unfoldable pub peak_dsn_sk_queue : (sk data_seq : ℕ) → LowpassQueue → Bool
unfolding peak
peak_dsn_sk_queue sk data_seq q = peak sk data_seq q.sk_list
