-- ===== src/Darwin/Keymap.antt =====
-- src/darwin/input_helper.c: the translation between virtual key codes of macOS and virtual scan
-- codes.
mod Table
mod RoundTrip
use libuiohook.Prelude.{ℕ, List, ltb, if◌then◌else◌, length, get_or, bit_and, bit_or}
use libuiohook.Event.KeyCodes.{vc_undefined}
use libuiohook.Darwin.VirtualKeys.{kvk_undefined}
use Table.{keycode_scancode_table}

abbrev empty_row : ℕ × ℕ
empty_row = (0, 0)

unfoldable pub keycode_to_scancode : ℕ → ℕ
unfolding keycode_scancode_table
keycode_to_scancode keycode =
    if ltb keycode (length keycode_scancode_table)
    then (get_or keycode_scancode_table keycode empty_row).0
    else vc_undefined

abbrev pub upper_offset : ℕ → ℕ
upper_offset scancode = bit_or (bit_and scancode 0x007F) 0x80

unfoldable pub scancode_to_keycode : ℕ → ℕ
unfolding keycode_scancode_table
scancode_to_keycode scancode =
    if ltb scancode 128
    then (get_or keycode_scancode_table scancode empty_row).1
    else if ltb (upper_offset scancode) (length keycode_scancode_table)
    then (get_or keycode_scancode_table (upper_offset scancode) empty_row).1
    else kvk_undefined
