-- ===== src/Darwin/VirtualKeys.antt =====
-- The virtual key codes of macOS that src/darwin/ names: those of its own input_helper.h, and those of
-- the Events.h of the platform, which fixes them.
mod Low
mod High
pub use Low.*
pub use High.*
