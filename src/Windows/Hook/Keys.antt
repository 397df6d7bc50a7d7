-- ===== src/Windows/Hook/Keys.antt =====
-- src/windows/input_hook.c: `process_key_pressed` and `process_key_released`.
use libuiohook.Prelude.{ℕ, Bool, List, [], ◌∷◌, Option, none, some, ◌==◌, if◌then◌else◌, u16}
use libuiohook.Event.{KeyboardEventData, keyboard, key_typed, key_pressed, key_released}
use libuiohook.Event.KeyCodes.{vc_undefined, char_undefined}
use libuiohook.Event.Masks.{
  mask_shift_l, mask_shift_r, mask_ctrl_l, mask_ctrl_r, mask_alt_l, mask_alt_r, mask_meta_l,
  mask_meta_r, mask_num_lock, mask_caps_lock, mask_scroll_lock,
}
use libuiohook.Windows.VirtualKeys.{
  vk_lshift, vk_rshift, vk_lcontrol, vk_rcontrol, vk_lmenu, vk_rmenu, vk_lwin, vk_rwin, vk_numlock,
  vk_capital, vk_scroll,
}
use libuiohook.Windows.Keymap.{keycode_to_scancode}
use libuiohook.Windows.Hook.State.{
  HookState, set_modifier_mask, unset_modifier_mask, fire, not_consumed,
}

-- `KBDLLHOOKSTRUCT`, `extended` being `LLKHF_EXTENDED` of its flags, with the units that
-- `keycode_to_unicode` writes for the key.
pub record KeyInput : Type 0 where
  pub vk_code : ℕ
  pub extended : Bool
  pub time : ℕ
  pub units : List ℕ

-- The chain of tests that picks a mask for a virtual-key code.
unfoldable pub key_modifier : ℕ → Option ℕ
key_modifier vk =
    if vk == vk_lshift
    then some mask_shift_l
    else if vk == vk_rshift
    then some mask_shift_r
    else if vk == vk_lcontrol
    then some mask_ctrl_l
    else if vk == vk_rcontrol
    then some mask_ctrl_r
    else if vk == vk_lmenu
    then some mask_alt_l
    else if vk == vk_rmenu
    then some mask_alt_r
    else if vk == vk_lwin
    then some mask_meta_l
    else if vk == vk_rwin
    then some mask_meta_r
    else if vk == vk_numlock
    then some mask_num_lock
    else if vk == vk_capital
    then some mask_caps_lock
    else if vk == vk_scroll
    then some mask_scroll_lock
    else none

unfoldable pub set_key_modifier : ℕ → HookState → HookState
set_key_modifier vk s = elim (key_modifier vk) [ none ↦ s | some m ↦ set_modifier_mask m s ]

unfoldable pub unset_key_modifier : ℕ → HookState → HookState
unset_key_modifier vk s = elim (key_modifier vk) [ none ↦ s | some m ↦ unset_modifier_mask m s ]

unfoldable pub key_data : KeyInput → KeyboardEventData
key_data k = record {
  keycode = keycode_to_scancode k.vk_code k.extended;
  rawcode = u16 k.vk_code;
  keychar = char_undefined;
}

unfoldable pub typed_data : KeyInput → ℕ → KeyboardEventData
typed_data k unit = record { keycode = vc_undefined; rawcode = u16 k.vk_code; keychar = unit }

unfoldable pub fire_typed : KeyInput → List ℕ → HookState → HookState
fire_typed k [] s = s
fire_typed k (unit ∷ units) s =
    fire_typed k units (fire key_typed k.time (keyboard (typed_data k unit)) s)

unfoldable pub process_key_pressed : KeyInput → HookState → HookState
process_key_pressed k s =
    let s1 = set_key_modifier k.vk_code s in
    let s2 = fire key_pressed k.time (keyboard (key_data k)) s1 in
    if not_consumed s2 then fire_typed k k.units s2 else s2

unfoldable pub process_key_released : KeyInput → HookState → HookState
process_key_released k s =
    fire key_released k.time (keyboard (key_data k)) (unset_key_modifier k.vk_code s)
