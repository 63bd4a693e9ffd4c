-- ===== src/Parking.antt =====
-- The module parking: the hand-off of drained jobs, and the drain loop.
pub mod Handoff
pub mod Passage
pub mod Drainer
pub mod Draining
pub mod Rounds
pub mod Liveness
pub mod Runs
pub mod Wiring
pub mod Signing
