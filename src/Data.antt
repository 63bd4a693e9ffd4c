-- ===== src/Data.antt =====
-- The records of storage/data, with their `QuickFix`, `IsInValidState` and constructors.
mod Clocks
pub mod Cursors
mod Stakeholders
mod Messages
mod Jobs
mod Pauses
mod Schedules
pub mod Validity
pub use Clocks.*
unfoldable pub use Stakeholders.*
unfoldable pub use Messages.*
unfoldable pub use Jobs.*
unfoldable pub use Pauses.*
unfoldable pub use Schedules.*
