-- ===== src/Resolver.antt =====
-- src/sync/conflict-resolver.ts, src/sync/content-snapshot.ts and
-- src/sync/conflict-policy-admission.ts: what becomes of two versions of one file.
pub mod Snapshot
pub mod Policy
pub mod Resolve
mod Tests
