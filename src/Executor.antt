-- ===== src/Executor.antt =====
-- src/sync/plan-executor.ts: the admitted actions of a cycle are carried out, proved and committed.
pub mod Checks
pub mod Effects
pub mod Terminal
pub mod Action
pub mod Plan
pub mod Kept
pub mod Conflict
mod Tests
