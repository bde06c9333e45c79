-- ===== src/Options/RoundTrip.antt =====
-- What `mptcp_options_write` writes is what `tcp_parse_mptcp_options` reads.
pub mod Handshake
pub mod Control
pub mod Data
pub mod Segment
