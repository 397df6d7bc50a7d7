-- ===== src/X11/Hook/Keys.antt =====
-- src/x11/input_hook.c: the `KeyPress` and `KeyRelease` branches of `hook_event_proc`.
use libuiohook.Prelude.{
  ℕ, Bool, ◌&&◌, ◌||◌, List, [], ◌∷◌, Option, none, some, ◌==◌, if◌then◌else◌, bit_and, bit_or, u16,
}
use libuiohook.Event.{KeyboardEventData, keyboard, key_typed, key_pressed, key_released}
use libuiohook.Event.KeyCodes.{
  vc_shift_l, vc_shift_r, vc_control_l, vc_control_r, vc_alt_l, vc_alt_r, vc_meta_l, vc_meta_r,
  vc_kp_separator, vc_kp_0, vc_kp_1, vc_kp_2, vc_kp_3, vc_kp_4, vc_kp_5, vc_kp_6, vc_kp_7, vc_kp_8,
  vc_kp_9, vc_undefined, char_undefined,
}
use libuiohook.Event.Masks.{
  mask_shift_l, mask_shift_r, mask_ctrl_l, mask_ctrl_r, mask_alt_l, mask_alt_r, mask_meta_l,
  mask_meta_r, mask_num_lock,
}
use libuiohook.X11.Keymap.Lookup.{keycode_to_scancode}
use libuiohook.X11.Helper.Text.{keycode_to_unicode}
use libuiohook.X11.Hook.State.{
  HookState, Leds, set_modifier_mask, unset_modifier_mask, get_modifiers, initialize_locks,
}
use libuiohook.X11.Hook.Fire.{fire, not_consumed}

-- A key event with what libxkbcommon answers for it: whether the xkb state is not null, the symbol
-- and the character of the key, and the LEDs after the key is applied.
pub record KeyInput : Type 0 where
  pub time : ℕ
  pub keycode : ℕ
  pub state : Bool
  pub keysym : ℕ
  pub utf32 : ℕ
  pub leds : Leds

-- The chain of tests that picks a modifier mask for a scan code.
unfoldable pub key_modifier : ℕ → Option ℕ
key_modifier scancode =
    if scancode == vc_shift_l
    then some mask_shift_l
    else if scancode == vc_shift_r
    then some mask_shift_r
    else if scancode == vc_control_l
    then some mask_ctrl_l
    else if scancode == vc_control_r
    then some mask_ctrl_r
    else if scancode == vc_alt_l
    then some mask_alt_l
    else if scancode == vc_alt_r
    then some mask_alt_r
    else if scancode == vc_meta_l
    then some mask_meta_l
    else if scancode == vc_meta_r
    then some mask_meta_r
    else none

unfoldable pub set_key_modifier : ℕ → HookState → HookState
set_key_modifier scancode s = elim (key_modifier scancode) [
  | none ↦ s
  | some m ↦ set_modifier_mask m s
]

unfoldable pub unset_key_modifier : ℕ → HookState → HookState
unset_key_modifier scancode s = elim (key_modifier scancode) [
  | none ↦ s
  | some m ↦ unset_modifier_mask m s
]

unfoldable pub is_keypad : ℕ → Bool
is_keypad scancode =
    scancode == vc_kp_separator
    || scancode == vc_kp_1
    || scancode == vc_kp_2
    || scancode == vc_kp_3
    || scancode == vc_kp_4
    || scancode == vc_kp_5
    || scancode == vc_kp_6
    || scancode == vc_kp_7
    || scancode == vc_kp_8
    || scancode == vc_kp_0
    || scancode == vc_kp_9

-- Without num lock the keypad's digits are its cursor keys.
unfoldable pub adjust_keypad : HookState → ℕ → ℕ
unfolding is_keypad get_modifiers
adjust_keypad s scancode =
    if bit_and (get_modifiers s) mask_num_lock == 0 && is_keypad scancode
    then u16 (bit_or scancode 0xEE00)
    else scancode

-- `KeySym keysym = 0x00` stays where the xkb state is missing.
unfoldable pub key_symbol : KeyInput → ℕ
key_symbol k = if k.state then k.keysym else 0x00

unfoldable pub key_data : KeyInput → ℕ → KeyboardEventData
unfolding key_symbol
key_data k code = record { keycode = code; rawcode = u16 (key_symbol k); keychar = char_undefined }

unfoldable pub typed_data : KeyInput → ℕ → KeyboardEventData
unfolding key_symbol
typed_data k unit = record { keycode = vc_undefined; rawcode = u16 (key_symbol k); keychar = unit }

-- The loop over the units in `buffer`.
unfoldable pub fire_typed : KeyInput → List ℕ → HookState → HookState
unfolding typed_data
fire_typed k [] s = s
fire_typed k (unit ∷ units) s =
    fire_typed k units (fire key_typed k.time (keyboard (typed_data k unit)) s)

unfoldable pub key_units : KeyInput → List ℕ
key_units k = keycode_to_unicode k.state k.utf32 2

unfoldable pub scancode_of : KeyInput → HookState → ℕ
scancode_of k s = keycode_to_scancode s.helper.is_evdev k.keycode

-- The state in which the event is filled in.
unfoldable pub key_press_state : KeyInput → HookState → HookState
key_press_state k s = initialize_locks k.leds (set_key_modifier (scancode_of k s) s)

unfoldable pub process_key_press : KeyInput → HookState → HookState
unfolding key_data
process_key_press k s =
    let s1 = key_press_state k s in
    let code = adjust_keypad s1 (scancode_of k s) in
    let s2 = fire key_pressed k.time (keyboard (key_data k code)) s1 in
    if not_consumed s2 then fire_typed k (key_units k) s2 else s2

unfoldable pub key_release_state : KeyInput → HookState → HookState
key_release_state k s = initialize_locks k.leds (unset_key_modifier (scancode_of k s) s)

unfoldable pub process_key_release : KeyInput → HookState → HookState
unfolding key_data
process_key_release k s =
    let s1 = key_release_state k s in
    let code = adjust_keypad s1 (scancode_of k s) in
    fire key_released k.time (keyboard (key_data k code)) s1
