-- ===== src/Controllers.antt =====
-- The module controllers: the requests that change jobs and pauses. An answer is its HTTP status.
pub mod Access
pub mod JobStatus
pub mod Transitions
pub mod PauseRequests
pub mod PauseAgreement
pub mod DeadJobs
pub mod DeadJobLaws
pub mod Gateway
pub mod Signed
pub mod Broadcast
pub mod Accepted
pub mod Registration
pub mod Registered
pub mod ConsumerRequests
