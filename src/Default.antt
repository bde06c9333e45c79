-- ===== src/Default.antt =====
-- mptcp_sched.c: the default scheduler and the list of schedulers.
pub mod Subflow
pub mod Choice
pub mod Lowest
pub mod Available
pub mod Retry
pub mod Segment
pub mod Penalty
pub mod Optimise
pub mod Next
