-- ===== src/Darwin.antt =====
-- src/darwin: the library for macOS.
pub mod VirtualKeys
pub mod Keymap
pub mod Screens
pub mod Properties
pub mod Text
pub mod Hook
pub mod Run
pub mod Post
mod Examples
