-- ===== src/Lowpass/Queue/Recall.antt =====
-- How long the ring remembers a number.
use redundant_mptcp_r_mptcp.Prelude.{
  ℕ, zero, suc, ◌+◌, ◌%◌, ◌≤◌, ◌<◌, ◌≡◌, ◌≢◌, refl, ap, ◌∙◌, false, not, List, [], ◌∷◌, All, ◌==◌,
  length, get_or, modify, length-modify, get_or-modify_self, get_or-modify_other, arith, Bool-cases,
  inl, inr,
}
use redundant_mptcp_r_mptcp.Lowpass.Queue.{
  RedInSk, LowpassQueue, empty_in_sk, advance, add_to_sk_queue, peak, peak_dsn_sk_queue,
}
use redundant_mptcp_r_mptcp.Lowpass.Queue.Ring.{IsRing, add_to_sk_queue-IsRing}

-- Additions one after the other, each of a socket and a number.
abbrev pub add_each : List (ℕ × ℕ) → LowpassQueue → LowpassQueue
add_each [] q = q
add_each ((sk, dsn) ∷ xs) q = add_each xs (add_to_sk_queue sk dsn q)

-- No slot holds the number.
abbrev pub IsAbsent : (dsn : ℕ) → List RedInSk → Type 0
IsAbsent dsn = All (λ e. e.dsn ≢ dsn)

-- Slot `i`, and no other, holds the number, with the socket.
record Only (i sk dsn : ℕ) (es : List RedInSk) : Type 0 where
  inside : i < length es
  dsn_at : (get_or es i empty_in_sk).dsn ≡ dsn
  sk_at : (get_or es i empty_in_sk).sk ≡ sk
  others : (j : ℕ) → j < length es → j ≢ i → (get_or es j empty_in_sk).dsn ≢ dsn

peak-IsAbsent : (sk dsn : ℕ) (es : List RedInSk) → IsAbsent dsn es → peak sk dsn es ≡ false
unfolding peak
peak-IsAbsent sk dsn [] h = refl
peak-IsAbsent sk dsn (e ∷ es) h = ground (arith, peak-IsAbsent sk dsn es h.1)

get_or-IsAbsent :
    (dsn j : ℕ) (es : List RedInSk)
    → IsAbsent dsn es
    → j < length es
    → (get_or es j empty_in_sk).dsn ≢ dsn
get_or-IsAbsent dsn j [] h lt = absurd (omega arith)
get_or-IsAbsent dsn zero (e ∷ es) h lt = h.0
get_or-IsAbsent dsn (suc j) (e ∷ es) h lt = get_or-IsAbsent dsn j es h.1 (omega arith)

peak-Only :
    (i sk sk' dsn : ℕ) (es : List RedInSk) → Only i sk dsn es → peak sk' dsn es ≡ not (sk == sk')
unfolding peak
peak-Only i sk sk' dsn [] h = absurd (omega (arith, h.inside))
peak-Only zero sk sk' dsn (e ∷ es) h = ground (arith, h.dsn_at, h.sk_at)
peak-Only (suc i) sk sk' dsn (e ∷ es) h =
    let tail : Only i sk dsn es = record {
      inside = omega (arith, h.inside);
      dsn_at = h.dsn_at;
      sk_at = h.sk_at;
      others = λ j lt ne. h.others (suc j) (omega arith) (λ e. ne (omega arith));
    } in
    ground (arith, h.others 0 (omega arith) (λ e. omega arith), peak-Only i sk sk' dsn es tail)

-- The write of an addition makes its number the only one, or leaves another one the only one.
Only-new :
    (t sk dsn : ℕ) (v : RedInSk) (es : List RedInSk)
    → v.sk ≡ sk
    → v.dsn ≡ dsn
    → t < length es
    → IsAbsent dsn es
    → Only t sk dsn (modify (λ _. v) t es)
Only-new t sk dsn v es hs hd lt absent =
    let len = length-modify (λ _. v) t es in
    let set = get_or-modify_self (λ _. v) t empty_in_sk es lt in
    record {
      inside = omega arith;
      dsn_at = ap (λ e. e.dsn) set ∙ hd;
      sk_at = ap (λ e. e.sk) set ∙ hs;
      others = λ j below ne.
          rw (get_or-modify_other (λ _. v) t j empty_in_sk es (λ e. ne (omega arith)))
            (get_or-IsAbsent dsn j es absent (omega arith));
    }

Only-kept :
    (i t sk dsn : ℕ) (v : RedInSk) (es : List RedInSk)
    → v.dsn ≢ dsn
    → t ≢ i
    → Only i sk dsn es
    → Only i sk dsn (modify (λ _. v) t es)
Only-kept i t sk dsn v es hv ne h =
    let same = get_or-modify_other (λ _. v) t i empty_in_sk es ne in
    let len = length-modify (λ _. v) t es in
    record {
      inside = omega (arith, h.inside);
      dsn_at = ap (λ e. e.dsn) same ∙ h.dsn_at;
      sk_at = ap (λ e. e.sk) same ∙ h.sk_at;
      others = λ j below off. elim (Bool-cases (j == t)) [
        | inl here ↦
            let at : j ≡ t = ground arith in
            rw (at, get_or-modify_self (λ _. v) t empty_in_sk es (omega arith)) hv
        | inr else_where ↦
            rw (get_or-modify_other (λ _. v) t j empty_in_sk es (λ e. ground arith))
              (h.others j (omega arith) off)
      ];
    }

all_others :
    {dsn : ℕ} (es : List RedInSk)
    → ((j : ℕ) → j < length es → (get_or es j empty_in_sk).dsn ≢ dsn)
    → IsAbsent dsn es
all_others [] h = tt
all_others (e ∷ es) h = (h 0 (omega arith), all_others es (λ j lt. h (suc j) (omega arith)))

-- Over the slot of the number, the write of another one removes it.
Only-lost :
    (i sk dsn : ℕ) (v : RedInSk) (es : List RedInSk)
    → v.dsn ≢ dsn
    → Only i sk dsn es
    → IsAbsent dsn (modify (λ _. v) i es)
Only-lost i sk dsn v [] hv h = tt
Only-lost zero sk dsn v (e ∷ es) hv h =
    (hv, all_others es (λ j lt. h.others (suc j) (omega arith) (λ e. omega arith)))
Only-lost (suc i) sk dsn v (e ∷ es) hv h = (
  h.others 0 (omega arith) (λ e. omega arith),
  Only-lost i sk dsn v es hv (record {
    inside = omega (arith, h.inside);
    dsn_at = h.dsn_at;
    sk_at = h.sk_at;
    others = λ j lt ne. h.others (suc j) (omega arith) (λ e. ne (omega arith));
  }),
)

-- A ring in which slot `i` alone holds the number, `k` additions after its own.
record Recalls (i k sk dsn : ℕ) (q : LowpassQueue) : Type 0 where
  ring : IsRing q
  tail_at : (i + 1 + k) % 100 ≡ q.queue_tail
  only : Only i sk dsn q.sk_list

Recalls-add :
    (i k sk dsn sk' dsn' : ℕ) (q : LowpassQueue)
    → i < 100
    → k < 99
    → dsn' ≢ dsn
    → Recalls i k sk dsn q
    → Recalls i (suc k) sk dsn (add_to_sk_queue sk' dsn' q)
unfolding add_to_sk_queue advance
Recalls-add i k sk dsn sk' dsn' q hi hk ne h = record {
  ring = add_to_sk_queue-IsRing sk' dsn' q h.ring;
  tail_at = ground (arith, h.tail_at);
  only = Only-kept i q.queue_tail sk dsn _ q.sk_list ne (λ e. omega (arith, h.tail_at)) h.only;
}

Recalls-each :
    (i k sk dsn sk' : ℕ) (xs : List (ℕ × ℕ)) (q : LowpassQueue)
    → i < 100
    → k + length xs ≤ 99
    → All (λ x. x.1 ≢ dsn) xs
    → Recalls i k sk dsn q
    → peak_dsn_sk_queue sk' dsn (add_each xs q) ≡ not (sk == sk')
unfolding peak_dsn_sk_queue
Recalls-each i k sk dsn sk' [] q hi hk ne h = peak-Only i sk sk' dsn q.sk_list h.only
Recalls-each i k sk dsn sk' ((sk₁, dsn₁) ∷ xs) q hi hk ne h =
    Recalls-each i (suc k) sk dsn sk' xs (add_to_sk_queue sk₁ dsn₁ q) hi (omega arith) ne.1
      (Recalls-add i k sk dsn sk₁ dsn₁ q hi (omega arith) ne.0 h)

Recalls-new :
    (sk dsn : ℕ) (q : LowpassQueue)
    → IsRing q
    → IsAbsent dsn q.sk_list
    → Recalls q.queue_tail 0 sk dsn (add_to_sk_queue sk dsn q)
unfolding add_to_sk_queue advance
Recalls-new sk dsn q ring absent = record {
  ring = add_to_sk_queue-IsRing sk dsn q ring;
  tail_at = ground (arith, ring.tail_in);
  only = Only-new q.queue_tail sk dsn _ q.sk_list refl refl (omega (arith, ring)) absent;
}

-- On a ring whose indices lie in the array, a number that is new to it is known after its addition,
-- and still after up to 99 further additions of other numbers: a segment that brings it again is a
-- hit exactly if it comes from another socket.
pub peak-add_each :
    (sk dsn sk' : ℕ) (xs : List (ℕ × ℕ)) (q : LowpassQueue)
    → IsRing q
    → IsAbsent dsn q.sk_list
    → All (λ x. x.1 ≢ dsn) xs
    → length xs ≤ 99
    → peak_dsn_sk_queue sk' dsn (add_each xs (add_to_sk_queue sk dsn q)) ≡ not (sk == sk')
peak-add_each sk dsn sk' xs q ring absent ne few =
    Recalls-each q.queue_tail 0 sk dsn sk' xs (add_to_sk_queue sk dsn q) ring.tail_in (omega arith)
      ne (Recalls-new sk dsn q ring absent)

forgets_from :
    (i k sk dsn sk' : ℕ) (xs : List (ℕ × ℕ)) (q : LowpassQueue)
    → i < 100
    → k + length xs ≡ 100
    → k ≤ 99
    → All (λ x. x.1 ≢ dsn) xs
    → Recalls i k sk dsn q
    → peak_dsn_sk_queue sk' dsn (add_each xs q) ≡ false
unfolding peak_dsn_sk_queue add_to_sk_queue
forgets_from i k sk dsn sk' [] q hi count hk ne h = absurd (omega arith)
forgets_from i k sk dsn sk' ((sk₁, dsn₁) ∷ []) q hi count hk ne h =
    let here : q.queue_tail ≡ i = omega (arith, h.tail_at) in
    rw here (peak-IsAbsent sk' dsn _ (Only-lost i sk dsn _ q.sk_list ne.0 h.only))
forgets_from i k sk dsn sk' ((sk₁, dsn₁) ∷ x ∷ xs) q hi count hk ne h =
    forgets_from i (suc k) sk dsn sk' (x ∷ xs) (add_to_sk_queue sk₁ dsn₁ q) hi (omega arith)
      (omega arith) ne.1 (Recalls-add i k sk dsn sk₁ dsn₁ q hi (omega arith) ne.0 h)

-- On a ring whose indices lie in the array, a number that was new to it is forgotten after its own
-- and 100 further additions of other numbers: no socket is told of a hit.
pub peak_forgets :
    (sk dsn sk' : ℕ) (xs : List (ℕ × ℕ)) (q : LowpassQueue)
    → IsRing q
    → IsAbsent dsn q.sk_list
    → All (λ x. x.1 ≢ dsn) xs
    → length xs ≡ 100
    → peak_dsn_sk_queue sk' dsn (add_each xs (add_to_sk_queue sk dsn q)) ≡ false
peak_forgets sk dsn sk' xs q ring absent ne many =
    forgets_from q.queue_tail 0 sk dsn sk' xs (add_to_sk_queue sk dsn q) ring.tail_in (omega arith)
      (omega arith) ne (Recalls-new sk dsn q ring absent)
