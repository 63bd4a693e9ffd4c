-- ===== src/Dispatcher/Lanes.antt =====
-- dispatcher/lanes.go: the laneScheduler.
pub mod State
pub mod Enqueue
pub mod Serve
pub mod Invariant
pub mod Admission
pub mod Scanning
pub mod Service
pub mod Next
pub mod Completion
pub mod Wakeup
