-- ===== src/Tests/States.antt =====
-- The states of a run: the module is loaded, the user writes the settings, and a call follows.
use redundant_mptcp_r_mptcp.Prelude.{◌≡◌, refl, false, Option, none, some, [], ◌∷◌, pos}
use redundant_mptcp_r_mptcp.Register.{Sysctl, initial}
use redundant_mptcp_r_mptcp.Settings.{Settings}
use redundant_mptcp_r_mptcp.Validity.{IsValid}
use redundant_mptcp_r_mptcp.Keeps.{sks}
use redundant_mptcp_r_mptcp.Scheduler.{Outcome, send_next_segment}
use redundant_mptcp_r_mptcp.Scheduler.Reach.{
  initial_paths, initial_checker, Reachable, loaded, configured, called, Reachable-IsValid,
}
use redundant_mptcp_r_mptcp.Tests.Program.{program}
use redundant_mptcp_r_mptcp.Tests.Fixtures.{call, defaults, sockets}

abbrev quick : Sysctl
quick = record defaults { skreg_update = pos 40 }

abbrev start : Settings
start = record { reg = initial; sys = quick; paths = initial_paths }

abbrev from_some : Option Outcome → Outcome
from_some none = record {
  state = record { settings = start; checker = initial_checker };
  sockets = [];
  result = false;
}
from_some (some out) = out

abbrev first : Outcome
first = from_some (send_next_segment call start initial_checker)

-- The first call enters both subflows into the list.
both_known : sks first.state.settings.reg.sk_list ≡ 1 ∷ 2 ∷ []
unfolding program
both_known = refl

first-Reachable : Reachable sockets first.state.settings first.state.checker
unfolding program
first-Reachable =
    called call first (record { source = λ sk. refl; destination = λ sk. refl }) refl
      (configured quick (loaded defaults))

Reachable-IsValid_example : IsValid sockets first.state.settings
Reachable-IsValid_example =
    Reachable-IsValid sockets first.state.settings first.state.checker first-Reachable
