-- ===== src/Windows/Keymap/RoundTrip.antt =====
-- src/windows/input_helper.c: the two translations one after the other, over the whole table.
use libuiohook.Prelude.{
  ℕ, ◌<◌, ◌≡◌, ◌≢◌, refl, Bool, true, false, ◌||◌, arith, ltb, ◌==◌, if◌then◌else◌, holds_below,
  holds_below-at,
}
use libuiohook.Event.KeyCodes.{vc_undefined}
use libuiohook.Windows.Keymap.{keycode_to_scancode, scancode_to_keycode, upper_offset}

-- A virtual code as an index of the table.
abbrev pub table_index : ℕ → ℕ
table_index scancode = if ltb 127 scancode then upper_offset scancode else scancode

abbrev returns_keycode : ℕ → Bool
returns_keycode k =
    ltb k 19
    || k == 226
    || k == 254
    || keycode_to_scancode k false == vc_undefined
    || scancode_to_keycode (keycode_to_scancode k false) == k

keycode_table : holds_below returns_keycode 256 ≡ true
unfolding holds_below keycode_to_scancode scancode_to_keycode
keycode_table = refl

abbrev returns_scancode : ℕ → Bool
returns_scancode s =
    s == 226
    || scancode_to_keycode s == 0
    || table_index (keycode_to_scancode (scancode_to_keycode s) false) == s

scancode_table : holds_below returns_scancode 256 ≡ true
unfolding holds_below keycode_to_scancode scancode_to_keycode
scancode_table = refl

-- A virtual-key code from 19 to 255 that has a virtual code, without the extended flag, is found
-- again from it, but for 226 and 254.
pub vk_code_returns :
    (k : ℕ)
    → 18 < k
    → k < 256
    → k ≢ 226
    → k ≢ 254
    → keycode_to_scancode k false ≢ vc_undefined
    → scancode_to_keycode (keycode_to_scancode k false) ≡ k
vk_code_returns k low h a b some_code =
    ground (arith, holds_below-at returns_keycode 256 k keycode_table h)

-- An index of the table from 0 to 255 that has a virtual-key code is found again from it, but for 226.
pub table_index_returns :
    (s : ℕ)
    → s < 256
    → s ≢ 226
    → scancode_to_keycode s ≢ 0
    → table_index (keycode_to_scancode (scancode_to_keycode s) false) ≡ s
table_index_returns s h a some_code =
    ground (arith, holds_below-at returns_scancode 256 s scancode_table h)
