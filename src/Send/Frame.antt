-- ===== src/Send/Frame.antt =====
-- The transmission leaves the sockets alone.
use redundant_mptcp_r_mptcp.Prelude.{ℕ, ◌≡◌, refl, Bool, List, [], ◌∷◌, ℤ, arith}
use redundant_mptcp_r_mptcp.Register.{RedSk, Register, Skb}
use redundant_mptcp_r_mptcp.Keeps.{sks, Keeps}
use redundant_mptcp_r_mptcp.Send.{used, send_loop, send_skb}

send_loop-sks :
    (entail : ℕ → Bool) (run_start : ℤ) (len : ℕ) (es : List RedSk)
    → sks (send_loop entail run_start len es).entries ≡ sks es
unfolding send_loop used
send_loop-sks entail run_start len [] = refl
send_loop-sks entail run_start len (e ∷ es) = ground (arith, send_loop-sks entail run_start len es)

pub send_skb-Keeps :
    (entail : ℕ → Bool) (skb : Skb) (reinject : Bool) (run_start : ℤ) (r : Register)
    → Keeps r (send_skb entail skb reinject run_start r).0
unfolding send_skb
send_skb-Keeps entail skb reinject run_start r =
    ground (arith, send_loop-sks entail run_start skb.len r.sk_list)
