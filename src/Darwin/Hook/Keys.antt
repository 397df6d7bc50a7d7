-- ===== src/Darwin/Hook/Keys.antt =====
-- src/darwin/input_hook.c: `process_key_pressed`, `process_key_released`,
-- `process_modifier_changed` and `process_system_key`.
use libuiohook.Prelude.{
  ℕ, ◌/◌, Bool, List, [], ◌∷◌, Option, none, some, ◌==◌, if◌then◌else◌, bit_and, not, u16,
}
use libuiohook.Event.{KeyboardEventData, keyboard, key_typed, key_pressed, key_released}
use libuiohook.Event.KeyCodes.{vc_undefined, char_undefined}
use libuiohook.Event.Masks.{
  mask_shift_l, mask_shift_r, mask_ctrl_l, mask_ctrl_r, mask_alt_l, mask_alt_r, mask_meta_l,
  mask_meta_r, mask_caps_lock,
}
use libuiohook.Darwin.VirtualKeys.{
  kvk_shift, kvk_rightshift, kvk_control, kvk_rightcontrol, kvk_command, kvk_rightcommand,
  kvk_option, kvk_rightoption, kvk_capslock, kvk_volumeup, kvk_volumedown, kvk_mute, kvk_nx_eject,
  kvk_media_play, kvk_media_next, kvk_media_previous,
}
use libuiohook.Darwin.Keymap.{keycode_to_scancode}
use libuiohook.Darwin.Hook.State.{
  HookState, set_modifier_mask, unset_modifier_mask, fire, not_consumed,
}

-- A key event: `kCGKeyboardEventKeycode`, and the units that the lookup on the main run loop leaves in
-- `tis_keycode_message`.
pub record KeyInput : Type 0 where
  pub time : ℕ
  pub keycode : ℕ
  pub units : List ℕ

unfoldable pub key_data : KeyInput → KeyboardEventData
key_data k = record {
  keycode = keycode_to_scancode k.keycode;
  rawcode = u16 k.keycode;
  keychar = char_undefined;
}

unfoldable pub typed_data : KeyInput → ℕ → KeyboardEventData
typed_data k unit = record { keycode = vc_undefined; rawcode = u16 k.keycode; keychar = unit }

-- The loop over `tis_keycode_message->buffer`.
unfoldable pub fire_typed : KeyInput → List ℕ → HookState → HookState
fire_typed k [] s = s
fire_typed k (unit ∷ units) s =
    fire_typed k units (fire key_typed k.time (keyboard (typed_data k unit)) s)

unfoldable pub process_key_pressed : KeyInput → HookState → HookState
process_key_pressed k s =
    let s1 = fire key_pressed k.time (keyboard (key_data k)) s in
    if not_consumed s1 then fire_typed k k.units s1 else s1

unfoldable pub process_key_released : KeyInput → HookState → HookState
process_key_released k s = fire key_released k.time (keyboard (key_data k)) s

-- The bits of `CGEventGetFlags` for either key of a pair.
pub record Flags : Type 0 where
  pub shift : Bool
  pub control : Bool
  pub command : Bool
  pub alternate : Bool

-- The chain of tests that picks the mask of a key and the flag that is asked for it.
unfoldable pub key_modifier : ℕ → Flags → Option (ℕ × Bool)
key_modifier keycode flags =
    if keycode == kvk_shift
    then some (mask_shift_l, flags.shift)
    else if keycode == kvk_control
    then some (mask_ctrl_l, flags.control)
    else if keycode == kvk_command
    then some (mask_meta_l, flags.command)
    else if keycode == kvk_option
    then some (mask_alt_l, flags.alternate)
    else if keycode == kvk_rightshift
    then some (mask_shift_r, flags.shift)
    else if keycode == kvk_rightcontrol
    then some (mask_ctrl_r, flags.control)
    else if keycode == kvk_rightcommand
    then some (mask_meta_r, flags.command)
    else if keycode == kvk_rightoption
    then some (mask_alt_r, flags.alternate)
    else none

-- Caps lock is turned over, and its events come from `process_system_key`.
unfoldable pub toggle_caps_lock : HookState → HookState
toggle_caps_lock s =
    if not (bit_and s.current_modifiers mask_caps_lock == 0)
    then unset_modifier_mask mask_caps_lock s
    else set_modifier_mask mask_caps_lock s

-- A branch of `process_modifier_changed`, with the mask and the flag it tests.
unfoldable pub change_modifier : KeyInput → ℕ × Bool → HookState → HookState
change_modifier k (m, down) s =
    if down
    then process_key_pressed k (set_modifier_mask m s)
    else process_key_released k (unset_modifier_mask m s)

unfoldable pub process_modifier_changed : KeyInput → Flags → HookState → HookState
process_modifier_changed k flags s = elim (key_modifier k.keycode flags) [
  | none ↦ if k.keycode == kvk_capslock then toggle_caps_lock s else s
  | some change ↦ change_modifier k change s
]

-- A system event: `subtype` and `data1`, unless reading them fails, and the units that the lookup
-- leaves for the event made up of it.
pub record SystemInput : Type 0 where
  pub time : ℕ
  pub message : Option (ℕ × ℕ)
  pub units : List ℕ

-- The key that an `NX_KEYTYPE` code stands for.
unfoldable pub system_keycode : ℕ → Option ℕ
system_keycode key_code =
    if key_code == 4
    then some kvk_capslock
    else if key_code == 0
    then some kvk_volumeup
    else if key_code == 1
    then some kvk_volumedown
    else if key_code == 7
    then some kvk_mute
    else if key_code == 0x0E
    then some kvk_nx_eject
    else if key_code == 0x10
    then some kvk_media_play
    else if key_code == 0x13
    then some kvk_media_next
    else if key_code == 0x14
    then some kvk_media_previous
    else none

unfoldable pub system_key_code : ℕ → ℕ
system_key_code data1 = bit_and data1 0xFFFF0000 / 65536

unfoldable pub is_key_down : ℕ → Bool
is_key_down data1 = bit_and (bit_and (bit_and data1 0xFFFF) 0xFF00 / 256) 0x1 == 0

-- The event made up for a key is processed as a press or as a release.
unfoldable pub process_made_up : Bool → KeyInput → HookState → HookState
process_made_up down k s = if down then process_key_pressed k s else process_key_released k s

unfoldable pub process_message : SystemInput → ℕ × ℕ → HookState → HookState
process_message p (subtype, data1) s = elim (system_keycode (system_key_code data1)) [
  | none ↦ s
  | some keycode ↦
      let k : KeyInput = record { time = p.time; keycode = keycode; units = p.units } in
      if subtype == 8 then process_made_up (is_key_down data1) k s else s
]

unfoldable pub process_system_key : SystemInput → HookState → HookState
process_system_key p s = elim p.message [ none ↦ s | some message ↦ process_message p message s ]
