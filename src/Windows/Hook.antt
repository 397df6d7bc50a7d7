-- ===== src/Windows/Hook.antt =====
-- src/windows/input_hook.c: the hook for Windows.
pub mod State
pub mod Keys
pub mod Mouse
pub mod Proc
pub mod KeyMasks
pub mod Invariant
pub mod Extra
pub mod Events
