-- ===== src/Dispatcher.antt =====
-- The module dispatcher: the lanes of waiting jobs, the pauses, the workers and the dispatching.
pub mod Queue
pub mod Lanes
pub mod Pause
pub mod Backoff
pub mod Worker
pub mod Settling
pub mod Delivery
pub mod Dispatching
pub mod Queueing
pub mod Exclusion
pub mod Retrying
