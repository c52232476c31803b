-- ===== src/Transport.antt =====
-- src/pqtrust_agent/transport: the order of frames.
pub mod Sequence
