-- ===== src/Tests/Filter.antt =====
-- The lowpass filter at concrete states.
use redundant_mptcp_r_mptcp.Prelude.{
  ℕ, zero, suc, ◌≡◌, ◌≢◌, refl, inl, ◌↔◌, true, false, none, some, List, [], ◌∷◌, pos, All, length,
  replicate, ◌==◌, arith,
}
use redundant_mptcp_r_mptcp.Lowpass.Queue.{
  initial_queue, empty_in_sk, add_to_sk_queue, peak_dsn_sk_queue,
}
use redundant_mptcp_r_mptcp.Lowpass.Queue.Ring.{IsRing, pending, put_last, pending-add_to_sk_queue}
use redundant_mptcp_r_mptcp.Lowpass.Queue.Recall.{add_each, peak-add_each, peak_forgets}
use redundant_mptcp_r_mptcp.Lowpass.Learn.{
  LowpassSysctl, Learner, initial_learner, calc_lowpass_timeout,
}
use redundant_mptcp_r_mptcp.Lowpass.Learn.Bounds.{Caps, Learned, calc_lowpass_timeout-Learned}
use redundant_mptcp_r_mptcp.Lowpass.Gate.{Channel, any, reset_stale, lowpass}
use redundant_mptcp_r_mptcp.Lowpass.Gate.Release.{
  Decided, lowpass-none-iff-full, lowpass-Decided, Meanwhile, call, end, Handed, lowpass_releases,
}
use redundant_mptcp_r_mptcp.Tests.Program.{program}

All-replicate {ℓ κ} : {A : Type ℓ} (P : A → Type κ) (n : ℕ) (a : A) → P a → All P (replicate n a)
All-replicate P zero a p = tt
All-replicate P (suc n) a p = (p, All-replicate P n a p)

initial-IsRing : IsRing initial_queue
initial-IsRing = omega arith

pending-add_to_sk_queue_example :
    let q' = add_to_sk_queue 1 700 initial_queue in
    (pending q' ≡ put_last 1 700 (pending initial_queue)) × IsRing q'
pending-add_to_sk_queue_example = pending-add_to_sk_queue 1 700 initial_queue initial-IsRing

-- Before any segment a number 0 counts as known.
zero_known : peak_dsn_sk_queue 1 0 initial_queue ≡ true
unfolding program
zero_known = refl

peak-add_each_example :
    peak_dsn_sk_queue 2 700
      (add_each ((1, 701) ∷ (2, 702) ∷ []) (add_to_sk_queue 1 700 initial_queue))
    ≡ true
peak-add_each_example =
    peak-add_each 1 700 2 ((1, 701) ∷ (2, 702) ∷ []) initial_queue initial-IsRing
      (All-replicate (λ e. e.dsn ≢ 700) 100 empty_in_sk (omega arith)) (omega arith) (omega arith)

peak_forgets_example :
    peak_dsn_sk_queue 2 700
      (add_each (replicate 100 (1, 701)) (add_to_sk_queue 1 700 initial_queue))
    ≡ false
peak_forgets_example =
    peak_forgets 1 700 2 (replicate 100 (1, 701)) initial_queue initial-IsRing
      (All-replicate (λ e. e.dsn ≢ 700) 100 empty_in_sk (omega arith))
      (All-replicate {A = ℕ × ℕ} (λ x. x.1 ≢ 700) 100 (1, 701) (omega arith)) refl

abbrev lowpass_defaults : LowpassSysctl
lowpass_defaults = record { lowpassmaxwait = pos 200000; lplearnrate = pos 3 }

-- A mean of 500 µs, of twenty equal gaps.
abbrev steady : Learner
steady = record initial_learner {
  last_new = pos 9000000;
  delta_arr = replicate 20 500000;
  delta_mean = 500000;
  learned_timeout = 500000;
}

-- After a gap of a millisecond the mean goes up by 3 % of a twentieth.
learns_slowly :
    (calc_lowpass_timeout lowpass_defaults (pos 10000000) 1 (700 ∷ []) steady).0.delta_mean ≡ 500750
unfolding program
learns_slowly = refl

steady-Caps : Caps lowpass_defaults 515000 500000
unfolding program
steady-Caps = record { unlimited = λ e. omega arith; limited = λ e. omega arith }

calc_lowpass_timeout-Learned_example :
    let out = calc_lowpass_timeout lowpass_defaults (pos 10000000) 1 (700 ∷ []) steady in
    Learned lowpass_defaults 515000 steady out.0 out.1
calc_lowpass_timeout-Learned_example =
    calc_lowpass_timeout-Learned lowpass_defaults (pos 10000000) 515000 1 (700 ∷ []) steady
      steady-Caps (omega arith)

abbrev tiny : Learner
tiny = record steady { delta_arr = replicate 20 60; delta_mean = 60 }

-- Two channels that were used a moment ago, and arrays that are full.
abbrev recent : List Channel
recent =
    record { sk = 1; last_send = pos 9900000 } ∷ record { sk = 2; last_send = pos 9800000 } ∷ []

abbrev full_gate : List Channel
full_gate = replicate 20 (record { sk = 1; last_send = pos 9900000 })

writes_behind : lowpass 500000 (pos 10000000) 2 false full_gate ≡ none
unfolding program
writes_behind = refl

lowpass-none-iff-full_example :
    let left = reset_stale (pos 10000000) full_gate in
    (lowpass 500000 (pos 10000000) 2 false full_gate ≡ none)
    ↔ ((length left ≡ 20) × (any (λ c. c.sk == 2) left ≡ false))
lowpass-none-iff-full_example =
    lowpass-none-iff-full 500000 10000000 2 false full_gate (omega arith)

held_back : lowpass 500000 (pos 10000000) 1 false recent ≡ some (recent, false)
unfolding program
held_back = refl

lowpass-Decided_example : Decided 500000 10000000 1 false recent false
lowpass-Decided_example =
    lowpass-Decided 500000 10000000 1 false (omega arith) (omega arith) recent recent false
      (omega arith) held_back

held_at_other : lowpass 500000 (pos 10100000) 2 false recent ≡ some (recent, false)
unfolding program
held_at_other = refl

held_again : lowpass 500000 (pos 10200000) 1 false recent ≡ some (recent, false)
unfolding program
held_again = refl

-- A call for the other socket and one more for this one, both held back.
two_calls : Meanwhile 1 recent recent
two_calls =
    call 500000 10100000 2 false false recent recent recent (omega arith) (omega arith)
      held_at_other (inl refl)
      (call 500000 10200000 1 false false recent recent recent (omega arith) (omega arith)
        held_again (inl refl) (end recent))

lowpass_releases_example : Handed 500000 10500001 1 false recent
lowpass_releases_example =
    lowpass_releases 500000 10000000 1 false recent recent recent 500000 10500001 false
      (omega arith) (omega arith) (omega arith) (omega arith) (omega arith) held_back two_calls
