-- ===== src/Dispatcher.antt =====
-- The checks of the dispatcher on what comes in.
pub mod Mapping
pub mod Validate
pub mod Needs
pub mod Accepts
