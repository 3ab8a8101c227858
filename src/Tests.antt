-- ===== src/Tests.antt =====
-- Runs at concrete inputs.
pub mod Samples
pub mod Settings
pub mod Calls
pub mod Grants
pub mod Outbound
pub mod Firings
pub mod Transitions
pub mod Built
pub mod Pipelines
pub mod Runs
pub mod Terms
pub mod Gates
