-- ===== src/Darwin/Keymap/RoundTrip.antt =====
-- src/darwin/input_helper.c: the two translations one after the other, over the whole table.
use libuiohook.Prelude.{
  ℕ, ◌<◌, ◌≡◌, ◌≢◌, refl, Bool, true, ◌||◌, arith, ◌==◌, holds_below, holds_below-at,
}
use libuiohook.Event.KeyCodes.{vc_undefined}
use libuiohook.Darwin.Keymap.{keycode_to_scancode, scancode_to_keycode}

abbrev keycode_back : ℕ → Bool
keycode_back k =
    k == 226
    || keycode_to_scancode k == vc_undefined
    || scancode_to_keycode (keycode_to_scancode k) == k

keycodes_back : holds_below keycode_back 256 ≡ true
unfolding holds_below keycode_to_scancode scancode_to_keycode
keycodes_back = refl

-- On macOS every key code below 256 that has a virtual code is found again from that virtual code, but
-- for 226.
pub kvk_returns :
    (k : ℕ)
    → k < 256
    → k ≢ 226
    → keycode_to_scancode k ≢ vc_undefined
    → scancode_to_keycode (keycode_to_scancode k) ≡ k
kvk_returns k h other some_code = ground (arith, holds_below-at keycode_back 256 k keycodes_back h)
