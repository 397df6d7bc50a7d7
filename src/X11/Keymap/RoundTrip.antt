-- ===== src/X11/Keymap/RoundTrip.antt =====
-- src/x11/input_helper.c: the two translations one after the other, over the whole tables.
use libuiohook.Prelude.{
  ℕ, ◌<◌, ◌≡◌, refl, ◌≢◌, Bool, true, false, ◌&&◌, ◌||◌, arith, ltb, ◌==◌, holds_below,
  holds_below-at, if◌then◌else◌, ◌⊎◌,
}
use libuiohook.Event.KeyCodes.{vc_undefined}
use libuiohook.X11.Keymap.Lookup.{keycode_to_scancode, scancode_to_keycode, upper_offset}

-- A virtual code as an index of the table: itself below 128, else its offset in the upper half.
abbrev pub table_index : ℕ → ℕ
table_index scancode = if ltb 127 scancode then upper_offset scancode else scancode

abbrev returns_scancode : Bool → ℕ → Bool
returns_scancode e s =
    scancode_to_keycode e s == 0
    || table_index (keycode_to_scancode e (scancode_to_keycode e s)) == s

abbrev returns_keycode : Bool → ℕ → Bool
returns_keycode e k =
    keycode_to_scancode e k == vc_undefined
    || (e && k == 226)
    || scancode_to_keycode e (keycode_to_scancode e k) == k

scancode_table : (e : Bool) → holds_below (returns_scancode e) 256 ≡ true
unfolding holds_below keycode_to_scancode scancode_to_keycode
scancode_table true = refl
scancode_table false = refl

keycode_table : (e : Bool) → holds_below (returns_keycode e) 256 ≡ true
unfolding holds_below keycode_to_scancode scancode_to_keycode
keycode_table true = refl
keycode_table false = refl

-- Every index `s` of the table that has a native code is found again from that code, under both
-- layouts.
pub keycode_to_scancode-scancode_to_keycode :
    (e : Bool) (s : ℕ)
    → s < 256
    → scancode_to_keycode e s ≢ 0
    → table_index (keycode_to_scancode e (scancode_to_keycode e s)) ≡ s
keycode_to_scancode-scancode_to_keycode e s h some_code =
    ground (arith, holds_below-at (returns_scancode e) 256 s (scancode_table e) h)

-- Every native code below 256 that has a virtual code is found again from it, under both layouts,
-- but for the native code 226 of evdev.
pub scancode_to_keycode-keycode_to_scancode :
    (e : Bool) (k : ℕ)
    → k < 256
    → keycode_to_scancode e k ≢ vc_undefined
    → (e ≡ false) ⊎ (k ≢ 226)
    → scancode_to_keycode e (keycode_to_scancode e k) ≡ k
scancode_to_keycode-keycode_to_scancode e k h some_code other =
    ground (arith, holds_below-at (returns_keycode e) 256 k (keycode_table e) h)

abbrev returns_low : Bool → ℕ → Bool
returns_low e s =
    scancode_to_keycode e s == 0 || keycode_to_scancode e (scancode_to_keycode e s) == s

low_table : (e : Bool) → holds_below (returns_low e) 128 ≡ true
unfolding holds_below keycode_to_scancode scancode_to_keycode
low_table true = refl
low_table false = refl

-- Below 128 the virtual code itself comes back.
pub low_scancode_returns :
    (e : Bool) (s : ℕ)
    → s < 128
    → scancode_to_keycode e s ≢ 0
    → keycode_to_scancode e (scancode_to_keycode e s) ≡ s
low_scancode_returns e s h some_code =
    ground (arith, holds_below-at (returns_low e) 128 s (low_table e) h)
