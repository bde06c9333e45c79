-- ===== src/Tests/Copies.antt =====
-- The redundant scheduler on two subflows, of which the first has sent the first segment.
use redundant_mptcp_r_mptcp.Prelude.{ℕ, ◌≡◌, refl, false, none, some, [], ◌∷◌}
use redundant_mptcp_r_mptcp.Redundant.Segment.{
  RedSkb, RedMeta, redundant_next_segment, redundant_get_subflow, redundant_release,
}
use redundant_mptcp_r_mptcp.Redundant.Next.{SendsNext, redundant_next_segment-SendsNext}
use redundant_mptcp_r_mptcp.Tests.Fixtures.{clock}
use redundant_mptcp_r_mptcp.Tests.Lowest.{two_socks, sub, sent_on}

abbrev queued : (id mask : ℕ) → RedSkb
queued n mask = record { id = n; end_seq = n; skb = sent_on mask }

abbrev connection : RedMeta
connection = record {
  rcv_shutdown = false;
  dfin_path_index = 0;
  snd_una = 0;
  subflows =
      record { sub = sub 1; skb = some 7; skb_end_seq = 7 }
      ∷ record { sub = sub 2; skb = none; skb_end_seq = 0 }
      ∷ [];
  next_subflow = some 2;
  reinject_queue = [];
  write_queue = queued 7 1 ∷ queued 8 0 ∷ [];
}

-- The second subflow sends the first segment again.
copies :
    let r = redundant_next_segment clock two_socks connection in
    (r.segment ≡ some (queued 7 1)) × (r.subsk ≡ some (sub 2))
unfolding redundant_next_segment
copies = (refl, refl)

redundant_next_segment-SendsNext_example :
    SendsNext clock two_socks connection (redundant_next_segment clock two_socks connection)
redundant_next_segment-SendsNext_example =
    redundant_next_segment-SendsNext clock two_socks connection (queued 7 1) (queued 8 0 ∷ []) refl
      refl

-- The search starts at the second subflow, and the one behind it is NULL.
rotated :
    let r = redundant_get_subflow clock two_socks connection (some (queued 8 0)) false in
    (r.1 ≡ some (sub 2)) × (r.0.next_subflow ≡ none)
unfolding redundant_get_subflow
rotated = (refl, refl)

released : (redundant_release 2 connection).next_subflow ≡ none
unfolding redundant_release
released = refl
