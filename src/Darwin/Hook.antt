-- ===== src/Darwin/Hook.antt =====
-- src/darwin/input_hook.c: the hook for macOS.
pub mod State
pub mod Keys
pub mod Mouse
pub mod Proc
pub mod Steps
pub mod Invariant
pub mod ModifierBits
pub mod Sent
pub mod Pointer
