-- ===== src/X11/Keymap/Lookup.antt =====
-- `keycode_to_scancode` and `scancode_to_keycode` of src/x11/input_helper.c.
use libuiohook.Prelude.{ℕ, Bool, List, ltb, if◌then◌else◌, length, get_or, bit_and, bit_or}
use libuiohook.Event.KeyCodes.{vc_undefined}
use libuiohook.X11.Keymap.Evdev.{evdev_scancode_table}
use libuiohook.X11.Keymap.XFree86.{xfree86_scancode_table}

abbrev empty_row : ℕ × ℕ
empty_row = (0, 0)

unfoldable pub keycode_to_scancode : Bool → ℕ → ℕ
unfolding evdev_scancode_table xfree86_scancode_table
keycode_to_scancode is_evdev keycode =
    if is_evdev
    then (if ltb keycode (length evdev_scancode_table)
        then (get_or evdev_scancode_table keycode empty_row).0
        else vc_undefined)
    else (if ltb keycode (length xfree86_scancode_table)
        then (get_or xfree86_scancode_table keycode empty_row).0
        else vc_undefined)

-- The index of a code in the upper half of the table.
abbrev pub upper_offset : ℕ → ℕ
upper_offset scancode = bit_or (bit_and scancode 0x007F) 0x80

native_code : List (ℕ × ℕ) → ℕ → ℕ
native_code table scancode =
    if ltb scancode 128
    then (get_or table scancode empty_row).1
    else if ltb (upper_offset scancode) (length table)
    then (get_or table (upper_offset scancode) empty_row).1
    else 0x0000

unfoldable pub scancode_to_keycode : Bool → ℕ → ℕ
unfolding native_code evdev_scancode_table xfree86_scancode_table
scancode_to_keycode is_evdev scancode =
    if is_evdev
    then native_code evdev_scancode_table scancode
    else native_code xfree86_scancode_table scancode
