-- ===== src/Redundant.antt =====
-- mptcp_redundant.c, the redundant scheduler of the kernel.
pub mod Segment
pub mod Order
pub mod Permission
pub mod Next
