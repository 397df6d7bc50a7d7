-- ===== src/X11/Helper/Laws.antt =====
-- src/x11/input_helper.c: UTF-16, and the life of the helper's memory.
use libuiohook.Prelude.{
  ℕ, ◌+◌, ◌-◌, ◌%◌, ◌/◌, ◌≤◌, ◌<◌, ◌≡◌, ◌≢◌, ◌⊎◌, Bool, true, false, [], some, arith, bit_or,
  bit_and, bit_or-add, bit_and_ten, if◌then◌else◌,
}
use libuiohook.X11.Helper.State.{
  null, live, LoadAnswers, Helper, load_input_helper, unload_input_helper,
}
use libuiohook.X11.Helper.Text.{keycode_to_unicode, decode_utf16}

abbrev pub IsScalar : ℕ → Type 0
IsScalar u = (u ≤ 0x10FFFF) × ((u < 0xD800) ⊎ (0xDFFF < u))

surrogate_units :
    (c : ℕ)
    → c < 0x100000
    → (bit_or 0xD800 (c / 1024) ≡ 0xD800 + c / 1024)
      × (bit_or 0xDC00 (bit_and c 0x3FF) ≡ 0xDC00 + c % 1024)
surrogate_units c h = (
  bit_or-add 10 54 (c / 1024) (omega arith),
  rw (bit_and_ten c) (bit_or-add 10 55 (c % 1024) (omega arith)),
)

-- A Unicode scalar value written by `keycode_to_unicode` is read back by the UTF-16 decoder.
pub decode_utf16-keycode_to_unicode :
    (u : ℕ) → IsScalar u → decode_utf16 (keycode_to_unicode true u 2) ≡ some u
unfolding keycode_to_unicode decode_utf16
decode_utf16-keycode_to_unicode u h = ground (arith, surrogate_units (u - 0x10000))

-- A surrogate and a value past 0x10FFFF write nothing, and neither does a missing xkb state.
pub keycode_to_unicode_non_scalar :
    (state : Bool) (u n : ℕ)
    → (state ≡ false) ⊎ (0x10FFFF < u) ⊎ ((0xD800 ≤ u) × (u ≤ 0xDFFF))
    → keycode_to_unicode state u n ≡ []
unfolding keycode_to_unicode
keycode_to_unicode_non_scalar state u n h = ground arith

-- Loading and then unloading leaves no button map and no live keyboard map; the evdev flag is clear
-- again if a keyboard map was found, and otherwise is what loading made it.
pub unload_input_helper-load_input_helper :
    (a : LoadAnswers) (h : Helper)
    → let h' = unload_input_helper (load_input_helper a h) in
      (h'.mouse_button_map ≡ null)
      × (h'.keyboard_map ≢ live)
      × (h'.is_evdev ≡ (if a.map_found then false else (load_input_helper a h).is_evdev))
unfolding unload_input_helper load_input_helper
unload_input_helper-load_input_helper a h = ground arith
