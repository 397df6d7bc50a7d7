-- ===== src/Darwin/Examples/Hook.antt =====
-- The macOS hook at concrete inputs.
use libuiohook.Prelude.{◌≡◌, refl, true, false, List, [], ◌∷◌, some, arith, bit}
use libuiohook.Event.{key_pressed, mouse_pressed, keyboard}
use libuiohook.Darwin.Keymap.{keycode_to_scancode}
use libuiohook.Darwin.Hook.State.{fresh_event, set_modifier_mask}
use libuiohook.Darwin.Hook.Keys.{KeyInput, Flags, key_data, process_modifier_changed}
use libuiohook.Darwin.Hook.Mouse.{elapsed}
use libuiohook.Darwin.Hook.Proc.{
  TapEvent, flags_changed, sys_defined, other_mouse_down, other_mouse_up, dragged,
  process_other_down, process_other_up, run_events,
}
use libuiohook.Darwin.Hook.Invariant.{IsValid, tap_events_keep}
use libuiohook.Darwin.Hook.Steps.{button3}
use libuiohook.Darwin.Hook.ModifierBits.{process_modifier_changed_bits}
use libuiohook.Darwin.Hook.Sent.{process_modifier_changed_sent}
use libuiohook.Darwin.Hook.Pointer.{types, other_down_up}
use libuiohook.Darwin.Examples.{keep, state_with, mouse_at}

-- The left shift key goes up while the right one is held: the flag of both is set.
abbrev shift_key : KeyInput
shift_key = record { time = 7; keycode = 0x38; units = [] }

abbrev shift_held : Flags
shift_held = record { shift = true; control = false; command = false; alternate = false }

-- The middle button, caps lock by a system event, and a drag.
abbrev events : List TapEvent
events =
    other_mouse_down (mouse_at 6000000000 2)
    ∷ sys_defined (record { time = 8; message = some (8, 0x0A00); units = [] })
    ∷ flags_changed shift_key shift_held
    ∷ dragged (mouse_at 6100000000 2)
    ∷ other_mouse_up (mouse_at 6200000000 2)
    ∷ []

state_with-IsValid : IsValid (state_with 0x11)
state_with-IsValid = record { mask_fits = omega arith; count_fits = omega arith }

tap_events_keep_example : bit (run_events events (state_with 0x11)).current_modifiers 10 ≡ 0
tap_events_keep_example = tap_events_keep events (state_with 0x11) button3

process_modifier_changed_bits_example :
    bit (process_modifier_changed shift_key shift_held (state_with 0x11)).current_modifiers 0 ≡ 1
process_modifier_changed_bits_example =
    process_modifier_changed_bits shift_key shift_held (state_with 0x11) 0 (omega arith)

process_modifier_changed_sent_example :
    (process_modifier_changed shift_key shift_held (state_with 0x11)).session.sent
    ≡ record {
      type = key_pressed;
      time = 7;
      mask = 0x11;
      reserved = 0;
      payload = keyboard (record { keycode = 0x2A; rawcode = 0x38; keychar = 0xFFFF });
    }
      ∷ []
unfolding fresh_event key_data set_modifier_mask keycode_to_scancode
process_modifier_changed_sent_example =
    process_modifier_changed_sent shift_key shift_held (state_with 0x11) keep refl

other_down_up_example :
    let t =
      process_other_up
        (mouse_at 6200000000 2)
        (process_other_down (mouse_at 6000000000 2) (state_with 0)) in
    (types t ≡ mouse_pressed ∷ mouse_pressed ∷ []) × (t.click_count ≡ 2)
unfolding elapsed libuiohook.Darwin.Hook.Mouse.quot_ℤ
other_down_up_example =
    other_down_up (mouse_at 6000000000 2) (mouse_at 6200000000 2) (state_with 0) keep refl refl
      (omega arith) (λ e. omega (arith, e)) refl
