-- ===== src/Dispatcher/Pause.antt =====
-- dispatcher/pause.go: the PauseRegistry.
-- A pause that is in the registry is not nil. The map `consumers` is its list of entries; `all`
-- lists them in that order, and the theorems hold for any. The gauge dispatch_paused is the list
-- of the labels that are set to 1. `get_consumer` is ConsumerRepository.GetByID. The write mutex
-- makes each of Apply, Remove and Refresh one step.
mod Defs
mod View
mod Refinement
mod Loaded
unfoldable pub use Defs.*
unfoldable pub use View.*
pub use Refinement.*
pub use Loaded.*
