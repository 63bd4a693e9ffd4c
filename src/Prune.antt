-- ===== src/Prune.antt =====
-- The module prune: archiving completely delivered messages and deleting them.
pub mod Archive
pub mod Service
pub mod Safety
pub mod Passes
pub mod Ends
