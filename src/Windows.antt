-- ===== src/Windows.antt =====
-- src/windows/: the hook for Windows.
pub mod VirtualKeys
pub mod Keymap
pub mod Wheel
pub mod Hook
pub mod Post
pub mod Layout
pub mod Screens
pub mod Properties
pub mod Typing
mod Examples
pub mod Run
