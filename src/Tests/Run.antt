-- ===== src/Tests/Run.antt =====
-- One call of the scheduler: both subflows could take the segment, the quota asks for one copy, so
-- the subflow used last is taken out and the segment goes out on the other one.
use redundant_mptcp_r_mptcp.Prelude.{◌≡◌, refl, false, Option, none, some, [], ◌∷◌}
use redundant_mptcp_r_mptcp.Scheduler.{Outcome, send_next_segment}
use redundant_mptcp_r_mptcp.Scheduler.Delivery.{Delivered, send_next_segment-Delivered}
use redundant_mptcp_r_mptcp.Tests.Program.{program}
use redundant_mptcp_r_mptcp.Tests.Fixtures.{call, open_settings, idle_checker}

-- The outcome, read off the result.
abbrev from_some : Option Outcome → Outcome
from_some none = record {
  state = record { settings = open_settings; checker = idle_checker };
  sockets = [];
  result = false;
}
from_some (some out) = out

abbrev outcome : Outcome
outcome = from_some (send_next_segment call open_settings idle_checker)

sent_once : outcome.sockets ≡ 1 ∷ []
unfolding program
sent_once = refl

send_next_segment-Delivered_example : Delivered call (1 ∷ [])
unfolding program
send_next_segment-Delivered_example =
    send_next_segment-Delivered call open_settings idle_checker outcome refl refl
