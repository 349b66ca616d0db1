-- ===== src/Types.antt =====
-- The data of the sync engine: entities of a filesystem, the records of what was synced, and the
-- planned actions.
pub mod Entity
pub mod Action
