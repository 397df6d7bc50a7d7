-- ===== src/X11/Hook.antt =====
-- src/x11/input_hook.c: the hook for X11.
pub mod State
pub mod Modifiers
pub mod Fire
pub mod Keys
pub mod Buttons
pub mod Proc
pub mod Frame
pub mod KeyMasks
pub mod Invariant
pub mod KeyEvents
pub mod ButtonMasks
pub mod Clicks
pub mod ButtonEvents
pub mod Drag
pub mod Startup
pub mod StartMask
