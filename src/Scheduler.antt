-- ===== src/Scheduler.antt =====
-- The module scheduler: messages that are dispatched at a later time.
pub mod Store
pub mod Service
pub mod Once
