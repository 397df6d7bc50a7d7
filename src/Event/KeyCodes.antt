-- ===== src/Event/KeyCodes.antt =====
-- The virtual key codes of include/uiohook.h.
mod Typing
mod Zones
mod Media
pub use Typing.*
pub use Zones.*
pub use Media.*
