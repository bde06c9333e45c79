-- ===== src/Lowpass.antt =====
-- The lowpass filter at the input, in rmptcp/net/mptcp/mptcp_input.c: a segment is handed up only
-- when another subflow has brought it too, or when a subflow has been silent for the learned time.
pub mod Queue
pub mod Learn
pub mod Gate
