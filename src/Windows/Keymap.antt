-- ===== src/Windows/Keymap.antt =====
-- src/windows/input_helper.c: the translation between virtual-key codes and virtual scan codes.
mod Table
pub mod RoundTrip
use libuiohook.Prelude.{
  ℕ, Bool, ◌||◌, List, ltb, ◌==◌, if◌then◌else◌, length, get_or, bit_and, bit_or,
}
use libuiohook.Event.KeyCodes.{vc_undefined}
use libuiohook.Windows.VirtualKeys.{
  vk_prior, vk_next, vk_end, vk_home, vk_left, vk_up, vk_right, vk_down, vk_insert, vk_delete,
  vk_return,
}
use Table.{keycode_scancode_table}

abbrev empty_row : ℕ × ℕ
empty_row = (0, 0)

unfoldable pub is_extendable : ℕ → Bool
is_extendable vk_code =
    vk_code == vk_prior
    || vk_code == vk_next
    || vk_code == vk_end
    || vk_code == vk_home
    || vk_code == vk_left
    || vk_code == vk_up
    || vk_code == vk_right
    || vk_code == vk_down
    || vk_code == vk_insert
    || vk_code == vk_delete

-- `extended` is the bit `LLKHF_EXTENDED` of the flags.
unfoldable pub keycode_to_scancode : ℕ → Bool → ℕ
unfolding keycode_scancode_table is_extendable
keycode_to_scancode vk_code extended =
    let scancode = (get_or keycode_scancode_table vk_code empty_row).0 in
    let widened =
      if is_extendable vk_code
      then bit_or scancode 0xEE00
      else if vk_code == vk_return
      then bit_or scancode 0x0E00
      else scancode in
    if ltb vk_code (length keycode_scancode_table)
    then (if extended then widened else scancode)
    else vc_undefined

abbrev pub upper_offset : ℕ → ℕ
upper_offset scancode = bit_or (bit_and scancode 0x007F) 0x80

unfoldable pub scancode_to_keycode : ℕ → ℕ
unfolding keycode_scancode_table
scancode_to_keycode scancode =
    if ltb scancode 128
    then (get_or keycode_scancode_table scancode empty_row).1
    else if ltb (upper_offset scancode) (length keycode_scancode_table)
    then (get_or keycode_scancode_table (upper_offset scancode) empty_row).1
    else 0x0000
