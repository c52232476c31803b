-- ===== src/Protocol.antt =====
-- The protocol layer: time checks, replay registries, commit-reveal, transcripts and contracts.
pub mod Time
pub mod Replay
pub mod Models
pub mod Commitment
pub mod Transcript
pub mod Verification
