-- ===== src/Registry.antt =====
-- The lists of schedulers (mptcp_sched.c) and of path managers (mptcp_pm.c).
pub mod Ops
pub mod Names
pub mod Reach
pub mod Front
