-- ===== src/X11/Keymap.antt =====
-- src/x11/input_helper.c: the translation between X11 key codes and virtual scan codes.
-- `is_evdev` is the flag that `load_input_helper` sets from the name of the layout.
mod Evdev
mod XFree86
pub mod Lookup
pub mod RoundTrip
