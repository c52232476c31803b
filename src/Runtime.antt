-- ===== src/Runtime.antt =====
-- src/pqtrust_agent/runtime: the session's state machine and the execution gate.
pub mod StateMachine
pub mod Gate
