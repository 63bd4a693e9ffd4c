-- ===== src/Config.antt =====
-- The module config: the settings that the modelled parts read.
pub mod DispatchPause
pub mod Bounds
pub mod GatewayAuth
