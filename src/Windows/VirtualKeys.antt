-- ===== src/Windows/VirtualKeys.antt =====
-- The virtual-key codes of the Windows headers that src/windows/ names. They are fixed by the
-- platform.
mod Basic
mod Extended
pub use Basic.*
pub use Extended.*
