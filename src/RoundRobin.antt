-- ===== src/RoundRobin.antt =====
-- mptcp_rr.c, the round robin scheduler.
pub mod Subflow
pub mod Segment
pub mod Scan
pub mod Rounds
pub mod Served
