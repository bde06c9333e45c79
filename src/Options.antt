-- ===== src/Options.antt =====
-- The MPTCP options in the header of a segment: what mptcp_output.c writes and mptcp_input.c reads.
pub mod Wire
pub mod Header
pub mod Write
pub mod Parse
pub mod Step
pub mod Received
pub mod Dispatch
pub mod RoundTrip
