-- ===== src/X11.antt =====
-- src/x11/: the hook for X11, in the default build.
pub mod Keymap
pub mod Keysym
pub mod Helper
pub mod Screens
pub mod Properties
pub mod Settings
pub mod Hook
pub mod Run
pub mod Xkb
pub mod Post
mod Examples
