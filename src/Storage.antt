-- ===== src/Storage.antt =====
-- The module storage: the tables, and the repositories over them.
pub mod Tables
pub mod Transactions
pub mod Rows
pub mod Jobs
pub mod Dispatch
pub mod Dispatched
pub mod Parking
pub mod Locks
pub mod Pausing
pub mod DeadJobs
pub mod Counts
pub mod Handout
pub mod Lifecycle
pub mod Drained
pub mod Pruning
pub mod Pruned
pub mod Cache
pub mod Caching
pub mod Paused
pub mod Pages
pub mod Summaries
pub mod Stakeholders
pub mod RowKeys
pub mod Storing
pub mod Cached
pub mod Coherence
pub mod Ranks
pub mod Walking
pub mod Ownership
pub mod Updates
pub mod Removal
pub mod Consumers
pub mod ConsumerKeys
