-- ===== src/Validity.antt =====
-- What holds of the scheduler's state between two calls.
use redundant_mptcp_r_mptcp.Prelude.{◌≡◌, ◌≢◌, length}
use redundant_mptcp_r_mptcp.Register.{Register, Socks, phase, invalid}
use redundant_mptcp_r_mptcp.Keeps.{Keeps}
use redundant_mptcp_r_mptcp.SkList.Order.{IsStore, Keeps-IsStore}
use redundant_mptcp_r_mptcp.Settings.{Settings}

-- The array of the register has its 24 entries, those in use are sorted by address and each is for
-- another socket, the machine is in one of its four states, and `pM` has its 24 entries.
pub record IsValid (socks : Socks) (s : Settings) : Type 0 where
  pub store : IsStore socks s.reg
  pub machine : phase s.reg.state ≢ invalid
  pub paths : length s.paths.path_measurements ≡ 24

-- A step on the register.
pub Keeps-IsValid :
    (socks : Socks) (s : Settings) (r : Register)
    → Keeps s.reg r
    → IsValid socks s
    → IsValid socks (record s { reg = r })
Keeps-IsValid socks s r k v = record {
  store = Keeps-IsStore socks s.reg r k v.store;
  machine = rw k.state v.machine;
  paths = v.paths;
}
