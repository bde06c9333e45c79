-- ===== src/RoundRobin/Served.antt =====
-- What `mptcp_rr_next_segment` returns.
use redundant_mptcp_r_mptcp.Prelude.{
  ℕ, suc, ◌<◌, ◌≤◌, ◌≡◌, ◌⊎◌, refl, ◌∙◌, ap, sym, inl, inr, Bool, true, false, not, ◌&&◌,
  Bool-cases, Option-cases, Option, none, some, List, [], ◌∷◌, ◌==◌, length, get_or, arith,
}
use mathlib.Core.Path.{subst}
use redundant_mptcp_r_mptcp.Register.{Socks, Kernel}
use redundant_mptcp_r_mptcp.RoundRobin.Subflow.{
  mptcp_rr_dont_reinject_skb, RrSub, RrSkb, RrMeta, skb_of, mptcp_rr_is_available, find_first,
  find_last, best_subflow, rr_get_available_subflow,
}
use redundant_mptcp_r_mptcp.RoundRobin.Segment.{
  empty_sub, RrScan, RrResult, rr_next_segment_from, send_on, reinject_segment, choose_segment,
  mptcp_rr_next_segment,
}
use redundant_mptcp_r_mptcp.RoundRobin.Rounds.{rounds-Searched}

-- A segment that is returned goes to a socket that can take it.
pub record Served (k : Kernel) (socks : Socks) (r : RrResult) : Type 0 where
  pub ready :
      (s : RrSkb)
      → r.segment ≡ some s
      → (sk : ℕ) × (r.subsk ≡ some sk)
        × (mptcp_rr_is_available k (socks sk) (some s.skb) false true ≡ true)
  pub nothing : r.segment ≡ none → r.subsk ≡ none

send_on-Served :
    (k : Kernel) (socks : Socks) (mss : ℕ → ℕ) (s : RrSkb) (i split : ℕ) (m : RrMeta)
    → Served k socks (send_on k socks mss s i split m)
unfolding send_on
send_on-Served k socks mss s i split m =
    let sk = (get_or m.subflows i empty_sub).sk in
    elim (Bool-cases (mptcp_rr_is_available k (socks sk) (some s.skb) false true)) [
      | inr off ↦ rw off (record { ready = λ x h. absurd (cc); nothing = λ h. refl })
      | inl on ↦ rw on (record {
        ready = λ x h. (sk, refl, let same : s ≡ x = cc in rw (← same) on);
        nothing = λ h. absurd (cc);
      })
    ]

-- A result with no segment.
Served-none :
    {k : Kernel} {socks : Socks} (r : RrResult)
    → r.segment ≡ none
    → r.subsk ≡ none
    → Served k socks r
Served-none r h h' = record { ready = λ s e. absurd (cc); nothing = λ e. h' }

find_first-test :
    (test : RrSub → Bool) (es : List RrSub) (sk : ℕ)
    → find_first test es ≡ some sk
    → (e : RrSub) × (e.sk ≡ sk) × (test e ≡ true)
unfolding find_first
find_first-test test [] sk h = absurd (cc)
find_first-test test (e ∷ es) sk h = elim (Bool-cases (test e)) [
  | inl on ↦ (e, cc (rw on at h), on)
  | inr off ↦ find_first-test test es sk (rw off at h)
]

find_last-test :
    (test : RrSub → Bool) (last : Option ℕ) (es : List RrSub) (sk : ℕ)
    → find_last test last es ≡ some sk
    → (last ≡ some sk) ⊎ ((e : RrSub) × (e.sk ≡ sk) × (test e ≡ true))
unfolding find_last
find_last-test test last [] sk h = inl h
find_last-test test last (e ∷ es) sk h = elim (Bool-cases (test e)) [
  | inl on ↦ elim (find_last-test test (some e.sk) es sk (rw on at h)) [
    | inl here ↦ inr (e, cc, on)
    | inr later ↦ inr later
  ]
  | inr off ↦ find_last-test test last es sk (rw off at h)
]

-- A socket found in a list passes the test on sockets.
find_last-ready :
    (test : RrSub → Bool) (ok : ℕ → Bool) (es : List RrSub) (sk : ℕ)
    → ((e : RrSub) → test e ≡ true → ok e.sk ≡ true)
    → find_last test none es ≡ some sk
    → ok sk ≡ true
find_last-ready test ok es sk imp h = elim (find_last-test test none es sk h) [
  | inl empty ↦ absurd (cc)
  | inr (e, same, on) ↦ rw (← same) (imp e on)
]

-- A socket that is chosen can take the segment, whose contents stay.
record Ready (ok : ℕ → Bool) (s : RrSkb) (out : Option ℕ × Option RrSkb) : Type 0 where
  ready : (x : ℕ) → out.0 ≡ some x → ok x ≡ true
  same : skb_of out.1 ≡ some s.skb

best_subflow-Ready :
    (ok : ℕ → Bool) (s : RrSkb) (es : List RrSub)
    → Ready ok s (best_subflow (λ e. ok e.sk) (some s) es)
unfolding best_subflow
best_subflow-Ready ok s es =
    let fresh = λ (e : RrSub). ok e.sk && not (mptcp_rr_dont_reinject_skb e (some s)) in
    let sent = λ (e : RrSub). ok e.sk && mptcp_rr_dont_reinject_skb e (some s) in
    elim (Option-cases (find_last fresh none es)) [
      | inr (sk, found) ↦
          rw (found, best_subflow)
            (record {
              ready = λ x h.
                  let same : sk ≡ x = cc in
                  find_last-ready fresh ok es x (λ e on. ground arith) (found ∙ ap some same);
              same = refl;
            })
      | inl no_fresh ↦ elim (Option-cases (find_last sent none es)) [
        | inr (sk, found) ↦
            rw (no_fresh, found, best_subflow)
              (record {
                ready = λ x h.
                    let same : sk ≡ x = cc in
                    find_last-ready sent ok es x (λ e on. ground arith) (found ∙ ap some same);
                same = refl;
              })
        | inl no_sent ↦
            rw (no_fresh, no_sent, best_subflow)
              (record { ready = λ x h. absurd (cc); same = refl })
      ]
    ]

rr_get_available_subflow-Ready :
    (k : Kernel) (socks : Socks) (m : RrMeta) (s : RrSkb) (zero_wnd_test : Bool)
    → let ok = λ (sk : ℕ). mptcp_rr_is_available k (socks sk) (some s.skb) zero_wnd_test true in
      Ready ok s (rr_get_available_subflow k socks m (some s) zero_wnd_test)
unfolding rr_get_available_subflow
rr_get_available_subflow-Ready k socks m s zero_wnd_test =
    let ok = λ (sk : ℕ). mptcp_rr_is_available k (socks sk) (some s.skb) zero_wnd_test true in
    let answers = λ (e : RrSub). (e.path_index == m.dfin_path_index) && ok e.sk in
    let other = best_subflow-Ready ok s m.subflows in
    elim (Bool-cases (m.rcv_shutdown && s.data_fin)) [
      | inr plain ↦ rw (plain, rr_get_available_subflow) other
      | inl fin ↦ elim (Option-cases (find_first answers m.subflows)) [
        | inl nobody ↦ rw (fin, nobody, rr_get_available_subflow) other
        | inr (sk, found) ↦
            rw (fin, found, rr_get_available_subflow)
              (record {
                ready = λ x h.
                    let same : sk ≡ x = cc in
                    let (e, at, on) = find_first-test answers m.subflows x (found ∙ ap some same) in
                    rw (← at) (ground (arith, on));
                same = refl;
              })
      ]
    ]

reinject_segment-Served :
    (k : Kernel) (socks : Socks) (s : RrSkb) (m : RrMeta)
    → Served k socks (reinject_segment k socks s m)
unfolding reinject_segment
reinject_segment-Served k socks s m =
    let out = rr_get_available_subflow k socks m (some s) false in
    let r = rr_get_available_subflow-Ready k socks m s false in
    elim (Option-cases out.0) [
      | inl nobody ↦ rw (nobody, reinject_segment) (Served-none _ refl refl)
      | inr (x, found) ↦
          rw (found, reinject_segment)
            (record {
              ready = λ t h.
                  let same : some s.skb ≡ some t.skb = sym r.same ∙ ap skb_of h in
                  (
                    x,
                    refl,
                    subst (λ o. mptcp_rr_is_available k (socks x) o false true ≡ true) same
                        (r.ready x found),
                  );
              nothing = λ h. absurd (cc (sym r.same ∙ ap skb_of h));
            })
    ]

choose_segment-Served :
    (k : Kernel) (socks : Socks) (mss : ℕ → ℕ) (s : RrSkb) (m : RrMeta) (es : List RrSub)
    (t : RrScan)
    → Served k socks (choose_segment k socks mss s m (es, t))
unfolding choose_segment
choose_segment-Served k socks mss s m es t = elim (Option-cases t.choose) [
  | inl nobody ↦ rw (nobody, choose_segment) (Served-none _ refl refl)
  | inr (i, choice) ↦
      rw (choice, choose_segment)
        (send_on-Served k socks mss s i t.split (record m { subflows = es }))
]

-- For a burst of at least one segment, fewer than 256 subflows and two rounds or more the function
-- returns. A segment that it returns, from the reinject queue or from the send queue, goes to a
-- socket that can take it now; without a segment it writes no socket.
pub mptcp_rr_next_segment-Served :
    (k : Kernel) (socks : Socks) (mss : ℕ → ℕ) (num : ℕ) (cwnd_limited : Bool) (fuel : ℕ)
    (m : RrMeta)
    → 1 ≤ num
    → length m.subflows < 256
    → (r : RrResult) × (mptcp_rr_next_segment k socks mss num cwnd_limited (suc (suc fuel)) m
        ≡ some r)
      × Served k socks r
unfolding mptcp_rr_next_segment
mptcp_rr_next_segment-Served k socks mss num cwnd_limited fuel m pos few =
    let q = rr_next_segment_from m in
    elim (Option-cases q.0) [
      | inl idle ↦ (
        record { state = m; segment = none; subsk = none; limit = 0; reinject = q.1 },
        rw (idle, mptcp_rr_next_segment) refl,
        Served-none _ refl refl,
      )
      | inr (s, ready) ↦ elim (Bool-cases (q.1 == 0)) [
        | inr again ↦ (
          reinject_segment k socks s m,
          rw (ready, again, mptcp_rr_next_segment) refl,
          reinject_segment-Served k socks s m,
        )
        | inl normal ↦
            let avail =
              λ (e : RrSub). mptcp_rr_is_available k (socks e.sk) (some s.skb) false cwnd_limited in
            let (es, t, done, searched) =
              rounds-Searched avail num (λ e. refl) pos m.subflows fuel few in
            (
              choose_segment k socks mss s m (es, t),
              rw (ready, normal, done, mptcp_rr_next_segment) refl,
              choose_segment-Served k socks mss s m es t,
            )
      ]
    ]
