-- ===== src/Lowpass/Queue/Ring.antt =====
-- The ring as a queue: what it holds from the head to the tail.
use redundant_mptcp_r_mptcp.Prelude.{
  ℕ, zero, suc, ◌+◌, ◌-◌, ◌%◌, ◌<◌, ◌≡◌, refl, ap, ◌∙◌, Option, none, some, List, [], ◌∷◌, ◌++◌,
  length, get_or, modify, length-modify, get_or-modify_self, get_or-modify_other, arith, Bool-cases,
  ◌==◌, inl, inr, ltb, if◌then◌else◌, true, false,
}
use redundant_mptcp_r_mptcp.Lowpass.Queue.{
  RedInSk, LowpassQueue, empty_in_sk, advance, add_to_sk_queue, get_from_sk_queue,
}

-- The indices lie in the array.
pub record IsRing (q : LowpassQueue) : Type 0 where
  pub head_in : q.queue_head < 100
  pub tail_in : q.queue_tail < 100
  pub full_length : length q.sk_list ≡ 100

-- The number of entries from the head to the tail.
abbrev pub waiting : LowpassQueue → ℕ
waiting q = (q.queue_tail + 100 - q.queue_head) % 100

-- `n` entries from index `i` on, around the end of the array.
abbrev pub run : (n i : ℕ) → List RedInSk → List (ℕ × ℕ)
run zero i es = []
run (suc n) i es =
    ((get_or es i empty_in_sk).sk, (get_or es i empty_in_sk).dsn) ∷ run n (advance i) es

-- The queue as a list of sockets with their numbers, oldest first.
abbrev pub pending : LowpassQueue → List (ℕ × ℕ)
pending q = run (waiting q) q.queue_head q.sk_list

pub add_to_sk_queue-IsRing :
    (sk data_seq : ℕ) (q : LowpassQueue) → IsRing q → IsRing (add_to_sk_queue sk data_seq q)
unfolding add_to_sk_queue
add_to_sk_queue-IsRing sk data_seq q h = record {
  head_in = h.head_in;
  tail_in = ground arith;
  full_length = length-modify _ q.queue_tail q.sk_list ∙ h.full_length;
}

-- The socket and the number of the entry at an index.
abbrev entry : List RedInSk → ℕ → ℕ × ℕ
entry es i = ((get_or es i empty_in_sk).sk, (get_or es i empty_in_sk).dsn)

entry-modify_sent :
    (i j : ℕ) (es : List RedInSk)
    → entry (modify (λ e. record e { dsn_send = true }) i es) j ≡ entry es j
entry-modify_sent i j [] = refl
entry-modify_sent zero zero (e ∷ es) = refl
entry-modify_sent zero (suc j) (e ∷ es) = refl
entry-modify_sent (suc i) zero (e ∷ es) = refl
entry-modify_sent (suc i) (suc j) (e ∷ es) = entry-modify_sent i j es

run-modify_sent :
    (n i h : ℕ) (es : List RedInSk)
    → run n i (modify (λ e. record e { dsn_send = true }) h es) ≡ run n i es
run-modify_sent zero i h es = refl
run-modify_sent (suc n) i h es = cc (entry-modify_sent h i es, run-modify_sent n (advance i) h es)

-- A write behind the last of `n` entries makes it entry `n + 1`.
run-add :
    (n i t : ℕ) (v : RedInSk) (es : List RedInSk)
    → i < 100
    → t < 100
    → n < 100
    → length es ≡ 100
    → (i + n) % 100 ≡ t
    → run (suc n) i (modify (λ _. v) t es) ≡ run n i es ++ ((v.sk, v.dsn) ∷ [])
unfolding advance
run-add zero i t v es hi ht hn full at =
    let here : i ≡ t = omega arith in
    let set = get_or-modify_self (λ _. v) t empty_in_sk es (omega arith) in rw (here, set)
run-add (suc n) i t v es hi ht hn full at =
    let other = get_or-modify_other (λ _. v) t i empty_in_sk es (λ e. omega arith) in
    let next : advance i < 100 = ground arith in
    let same : (advance i + n) % 100 ≡ t = ground arith in
    rw other (ap (◌∷◌ (entry es i)) (run-add n (advance i) t v es next ht (omega arith) full same))

-- The operations of the queue on the list that it holds: an addition to 99 waiting entries makes
-- the two indices equal, so that none is left.
abbrev pub put_last : (sk data_seq : ℕ) → List (ℕ × ℕ) → List (ℕ × ℕ)
put_last sk data_seq ws = if ltb (length ws) 99 then ws ++ ((sk, data_seq) ∷ []) else []

abbrev pub take_first : List (ℕ × ℕ) → Option ℕ × List (ℕ × ℕ)
take_first [] = (none, [])
take_first ((sk, dsn) ∷ ws) = (some sk, ws)

length-run : (n i : ℕ) (es : List RedInSk) → length (run n i es) ≡ n
length-run zero i es = refl
length-run (suc n) i es = ap suc (length-run n (advance i) es)

waiting-add :
    (sk data_seq : ℕ) (q : LowpassQueue)
    → IsRing q
    → waiting (add_to_sk_queue sk data_seq q) ≡ (if ltb (waiting q) 99 then suc (waiting q) else 0)
unfolding add_to_sk_queue advance
waiting-add sk data_seq q h = ground (arith, h.head_in, h.tail_in)

-- On a ring whose indices lie in the array an addition puts the socket and its number behind what
-- waits, and empties the queue instead if 99 entries wait already. The indices stay in the array.
pub pending-add_to_sk_queue :
    (sk data_seq : ℕ) (q : LowpassQueue)
    → IsRing q
    → let q' = add_to_sk_queue sk data_seq q in
      (pending q' ≡ put_last sk data_seq (pending q)) × IsRing q'
unfolding add_to_sk_queue
pending-add_to_sk_queue sk data_seq q h =
    let count = waiting-add sk data_seq q h in
    let len = length-run (waiting q) q.queue_head q.sk_list in
    let v : RedInSk = record { sk = sk; dsn = data_seq; dsn_send = false } in
    let added =
      run-add (waiting q) q.queue_head q.queue_tail v q.sk_list h.head_in h.tail_in (omega arith)
        h.full_length (omega (arith, h.head_in, h.tail_in)) in
    (
      elim (Bool-cases (ltb (waiting q) 99)) [
        | inl room ↦ rw (count, len, room) added
        | inr full ↦ rw (count, len, full)
      ],
      add_to_sk_queue-IsRing sk data_seq q h,
    )

-- On a ring whose indices lie in the array, taking an entry hands out the socket that has waited
-- longest, or none from an empty queue, and leaves the others; the indices stay in the array.
pending-get_from_sk_queue :
    (q : LowpassQueue)
    → IsRing q
    → let (sk, q') = get_from_sk_queue q in ((sk, pending q') ≡ take_first (pending q)) × IsRing q'
unfolding get_from_sk_queue advance
pending-get_from_sk_queue q h = elim (Bool-cases (q.queue_tail == q.queue_head)) [
  | inl empty ↦
      let none_waits : waiting q ≡ 0 = ground (arith, h.head_in) in rw (empty, none_waits) (refl, h)
  | inr more ↦
      let rest = (q.queue_tail + 100 - advance q.queue_head) % 100 in
      let some_wait : waiting q ≡ suc rest = ground (arith, h.head_in, h.tail_in) in
      rw (more, some_wait)
        (
          ap (λ ws. (some (get_or q.sk_list q.queue_head empty_in_sk).sk, ws))
              (run-modify_sent rest (advance q.queue_head) q.queue_head q.sk_list),
          record {
            head_in = ground arith;
            tail_in = h.tail_in;
            full_length = length-modify _ q.queue_head q.sk_list ∙ h.full_length;
          },
        )
]
