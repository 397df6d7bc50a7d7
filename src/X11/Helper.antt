-- ===== src/X11/Helper.antt =====
-- src/x11/input_helper.c: the helper's state, the pointer mapping, and the UTF-16 of a key.
pub mod State
pub mod Text
pub mod Laws
