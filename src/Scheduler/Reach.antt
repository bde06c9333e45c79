-- ===== src/Scheduler/Reach.antt =====
-- The states that the scheduler can be in between two calls.
use redundant_mptcp_r_mptcp.Prelude.{
  ℕ, ◌≡◌, refl, sym, true, false, some, List, [], ◌∷◌, replicate, All, pos,
}
use redundant_mptcp_r_mptcp.Register.{RedSk, Socks, Sysctl, PathIndex, initial}
use redundant_mptcp_r_mptcp.SkList.Insert.{le_addr, IsSorted}
use redundant_mptcp_r_mptcp.Settings.{Settings, empty_measurements}
use redundant_mptcp_r_mptcp.Validity.{IsValid}
use redundant_mptcp_r_mptcp.PathCheck.{Checker}
use redundant_mptcp_r_mptcp.Scheduler.{Call, Outcome, send_next_segment}
use redundant_mptcp_r_mptcp.Scheduler.Invariant.{send_next_segment-IsValid}

-- The global variables when the module is loaded.
abbrev pub initial_paths : PathIndex
initial_paths = record {
  num_path_combinations = 0;
  max_num_parallel_paths = 0;
  active = pos 0;
  src_addr = [];
  dst_addr = [];
  path_measurements = replicate 24 empty_measurements;
}

abbrev pub initial_checker : Checker
initial_checker = record { running = false; test_index = 0; start_last_combination = pos 0 }

-- Two states of the sockets in which each has the same addresses.
pub record SameAddresses (socks socks' : Socks) : Type 0 where
  pub source : (sk : ℕ) → (socks sk).saddr ≡ (socks' sk).saddr
  pub destination : (sk : ℕ) → (socks sk).daddr ≡ (socks' sk).daddr

-- A state is reachable when calls lead to it, between which the user may write the settings. What a
-- socket answers may change from call to call, but not its addresses.
pub data Reachable (home : Socks) : Settings → Checker → Type 0 where
  loaded :
      (sys : Sysctl)
      → Reachable home (record { reg = initial; sys = sys; paths = initial_paths }) initial_checker
  configured :
      {s : Settings} {ch : Checker}
      → (sys : Sysctl) → Reachable home s ch
      → Reachable home (record s { sys = sys }) ch
  called :
      {s : Settings} {ch : Checker}
      → (c : Call) → (out : Outcome) → SameAddresses home c.socks
      → send_next_segment c s ch ≡ some out
      → Reachable home s ch
      → Reachable home out.state.settings out.state.checker

-- The order of the entries depends on the addresses alone.
le_addr-Same :
    (socks socks' : Socks) (e f : RedSk)
    → SameAddresses socks socks'
    → le_addr socks e f ≡ le_addr socks' e f
le_addr-Same socks socks' e f h =
    cc (h.source e.sk, h.source f.sk, h.destination e.sk, h.destination f.sk)

All-Same :
    (socks socks' : Socks) (e : RedSk) (es : List RedSk)
    → SameAddresses socks socks'
    → All (λ f. le_addr socks e f ≡ true) es
    → All (λ f. le_addr socks' e f ≡ true) es
All-Same socks socks' e [] h a = tt
All-Same socks socks' e (f ∷ es) h a =
    (rw (← le_addr-Same socks socks' e f h) a.0, All-Same socks socks' e es h a.1)

IsSorted-Same :
    (socks socks' : Socks) (es : List RedSk)
    → SameAddresses socks socks'
    → IsSorted socks es
    → IsSorted socks' es
IsSorted-Same socks socks' [] h s = tt
IsSorted-Same socks socks' (e ∷ es) h s =
    (All-Same socks socks' e es h s.0, IsSorted-Same socks socks' es h s.1)

IsValid-Same :
    (socks socks' : Socks) (s : Settings)
    → SameAddresses socks socks'
    → IsValid socks s
    → IsValid socks' s
IsValid-Same socks socks' s h v = record {
  store = record {
    array = v.store.array;
    list = record {
      sorted = IsSorted-Same socks socks' s.reg.sk_list h v.store.list.sorted;
      once = v.store.list.once;
    };
  };
  machine = v.machine;
  paths = v.paths;
}

SameAddresses-sym : {socks socks' : Socks} → SameAddresses socks socks' → SameAddresses socks' socks
SameAddresses-sym h = record {
  source = λ sk. sym (h.source sk);
  destination = λ sk. sym (h.destination sk);
}

-- However the calls follow each other, and whatever the user writes to the settings between them,
-- as long as no call writes behind an array and the sockets keep their addresses the state is
-- valid: the array of subflows has its 24 slots, those in use are sorted by address and each is for
-- another socket, the failure machine is in one of its four states, and the array of path
-- measurements has its 24 entries.
pub Reachable-IsValid :
    (home : Socks) (s : Settings) (ch : Checker) → Reachable home s ch → IsValid home s
Reachable-IsValid home _ _ (loaded sys) = record {
  store = record { array = refl; list = record { sorted = tt; once = tt } };
  machine = λ e. cc;
  paths = refl;
}
Reachable-IsValid home _ _ (configured {s} {ch} sys h) =
    let v = Reachable-IsValid home s ch h in
    record {
      store = record { array = v.store.array; list = v.store.list };
      machine = v.machine;
      paths = v.paths;
    }
Reachable-IsValid home _ _ (called {s} {ch} c out same done h) =
    let v = IsValid-Same home c.socks s same (Reachable-IsValid home s ch h) in
    IsValid-Same c.socks home out.state.settings (SameAddresses-sym same)
      (send_next_segment-IsValid c s ch out done v)
