-- ===== src/Settings/Frame.antt =====
-- The settings leave the list of subflows and the array `pM` alone; a new connection empties the
-- list.
use redundant_mptcp_r_mptcp.Prelude.{◌≡◌, ◌∙◌, ap, length, arith}
use redundant_mptcp_r_mptcp.Register.{Socks, Sysctl, PathIndex}
use redundant_mptcp_r_mptcp.Validity.{IsValid}
use redundant_mptcp_r_mptcp.Settings.{
  Settings, min_quota, select_path, copy_settings, update_sysctl, reset_meta,
}
use redundant_mptcp_r_mptcp.Settings.Ranges.{reset_meta_lem}

select_path-paths :
    (p : PathIndex) (sys : Sysctl) → (select_path p sys).0.path_measurements ≡ p.path_measurements
unfolding select_path
select_path-paths p sys = ground arith

pub update_sysctl-IsValid :
    (socks : Socks) (s : Settings) → IsValid socks s → IsValid socks (update_sysctl s)
unfolding update_sysctl copy_settings
update_sysctl-IsValid socks s v = record {
  store = record { array = v.store.array; list = v.store.list };
  machine = v.machine;
  paths = ap length (select_path-paths s.paths (min_quota s.sys)) ∙ v.paths;
}

pub reset_meta-IsValid :
    (socks : Socks) (s : Settings) → IsValid socks s → IsValid socks (reset_meta s)
unfolding reset_meta
reset_meta-IsValid socks s v = record {
  store = record {
    array = (reset_meta_lem s).2 ∙ v.store.array;
    list = record { sorted = tt; once = tt };
  };
  machine = λ e. cc;
  paths = v.paths;
}
