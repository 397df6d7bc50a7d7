-- ===== src/X11/Examples/Keyboard.antt =====
-- Keys at concrete inputs.
use libuiohook.Prelude.{◌≡◌, refl, true, [], ◌∷◌, arith, bit}
use libuiohook.Event.{EventType, key_typed, key_pressed, KeyboardEventData, UiohookEvent, keyboard}
use libuiohook.X11.Keymap.Lookup.{keycode_to_scancode}
use libuiohook.X11.Helper.Text.{keycode_to_unicode}
use libuiohook.X11.Hook.State.{initialize_locks, put_modifier_mask}
use libuiohook.X11.Hook.Fire.{fresh_event}
use libuiohook.X11.Hook.Keys.{
  KeyInput, scancode_of, adjust_keypad, key_press_state, process_key_press, key_data, typed_data,
  key_units, set_key_modifier, key_modifier,
}
use libuiohook.X11.Examples.{keep, state_with, num_led}
use libuiohook.X11.Hook.KeyMasks.{process_key_press_bits}
use libuiohook.X11.Hook.KeyEvents.{process_key_press_sent}

-- The key of the letter a, and the left shift key.
abbrev press_a : KeyInput
press_a = record { time = 7; keycode = 38; state = true; keysym = 97; utf32 = 97; leds = num_led }

abbrev press_shift : KeyInput
press_shift = record {
  time = 6;
  keycode = 50;
  state = true;
  keysym = 0xFFE1;
  utf32 = 0;
  leds = num_led;
}

abbrev event_of_a : EventType → KeyboardEventData → UiohookEvent
event_of_a type k = record {
  type = type;
  time = 7;
  mask = 0x2001;
  reserved = 0;
  payload = keyboard k;
}

process_key_press_sent_example :
    (process_key_press press_a (state_with keep 1)).session.sent
    ≡ event_of_a key_typed (record { keycode = 0; rawcode = 97; keychar = 97 })
      ∷ event_of_a key_pressed (record { keycode = 0x1E; rawcode = 97; keychar = 0xFFFF })
      ∷ []
unfolding process_key_press key_press_state fresh_event key_data typed_data key_units
    keycode_to_unicode scancode_of adjust_keypad keycode_to_scancode set_key_modifier key_modifier
    initialize_locks put_modifier_mask
process_key_press_sent_example = process_key_press_sent press_a (state_with keep 1) keep refl

process_key_press_bits_example : bit (process_key_press press_shift (state_with keep 0)).mask 0 ≡ 1
unfolding process_key_press scancode_of keycode_to_scancode
process_key_press_bits_example =
    process_key_press_bits press_shift (state_with keep 0) 0 (omega arith)
