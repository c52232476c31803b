-- ===== src/Tests.antt =====
-- Concrete inputs for the theorems.
pub mod Numbers
pub mod Assurance
pub mod Selection
pub mod Registry
pub mod Contracts
pub mod Runtime
pub mod Solver
pub mod Compiler
pub mod Conflict
pub mod Abort
