-- ===== src/Tests/Rotation.antt =====
-- The round robin scheduler on two subflows, with bursts of two segments.
use redundant_mptcp_r_mptcp.Prelude.{ℕ, ◌≡◌, refl, Bool, true, false, some, List, [], ◌∷◌, arith}
use redundant_mptcp_r_mptcp.RoundRobin.Subflow.{RrSub, RrSkb, RrMeta, mptcp_rr_is_available}
use redundant_mptcp_r_mptcp.RoundRobin.Segment.{
  RrScan, RrResult, rounds, start, mptcp_rr_next_segment,
}
use redundant_mptcp_r_mptcp.RoundRobin.Rounds.{Searched, rounds-Searched}
use redundant_mptcp_r_mptcp.RoundRobin.Served.{Served, mptcp_rr_next_segment-Served}
use redundant_mptcp_r_mptcp.Tests.Program.{program}
use redundant_mptcp_r_mptcp.Tests.Fixtures.{clock, sockets, segment}

abbrev pair : (q r : ℕ) → List RrSub
pair q r =
    record { sk = 1; path_index = 1; quota = q } ∷ record { sk = 2; path_index = 2; quota = r } ∷ []

abbrev fresh : RrSkb
fresh = record { skb = segment; path_mask = 0; data_fin = false }

abbrev connection : RrMeta
connection = record {
  rcv_shutdown = false;
  dfin_path_index = 0;
  infinite_mapping = false;
  subflows = pair 2 2;
  reinject_queue = [];
  send_head = some fresh;
}

abbrev available : RrSub → Bool
available e = mptcp_rr_is_available clock (sockets e.sk) (some segment) false true

-- A subflow in the middle of its burst goes on.
goes_on :
    rounds available 2 2 (start 2) (pair 1 0)
    ≡ some (pair 1 0, record { choose = some 0; split = 1; iter = 1; full_subs = 0; found = true })
unfolding program
goes_on = refl

rounds-Searched_example :
    (es' : List RrSub) × (t : RrScan) × (rounds available 2 2 (start 2) (pair 2 2) ≡ some (es', t))
    × Searched available 2 (pair 2 2) es' t
rounds-Searched_example =
    rounds-Searched available 2 (λ e. refl) (omega arith) (pair 2 2) 0 (omega arith)

mptcp_rr_next_segment-Served_example :
    (r : RrResult) × (mptcp_rr_next_segment clock sockets (λ sk. 1400) 2 false 2 connection
      ≡ some r)
    × Served clock sockets r
mptcp_rr_next_segment-Served_example =
    mptcp_rr_next_segment-Served clock sockets (λ sk. 1400) 2 false 0 connection (omega arith)
      (omega arith)
