-- ===== src/Dlq.antt =====
-- The module dlq: the summary of dead jobs by consumer.
pub mod Updater
pub mod Counts
pub mod Increments
