-- ===== src/Darwin/Examples.antt =====
-- The theorems on the macOS code at concrete inputs: the states and events that they share.
mod Hook
mod Lifecycle
mod System
use libuiohook.Prelude.{ℕ, true, false, [], some, pos}
use libuiohook.Event.{UiohookEvent, key_typed, keyboard}
use libuiohook.Dispatch.{Dispatcher}
use libuiohook.Darwin.Hook.State.{HookState}
use libuiohook.Darwin.Hook.Mouse.{MouseInput}

abbrev blank_event : UiohookEvent
blank_event = record {
  type = key_typed;
  time = 0;
  mask = 0;
  reserved = 0;
  payload = keyboard (record { keycode = 0; rawcode = 0; keychar = 0 });
}

abbrev pub keep : Dispatcher
keep sent event = event

-- The left button was pressed last, at 5 seconds.
abbrev pub state_with : ℕ → HookState
state_with modifiers = record {
  current_modifiers = modifiers;
  click_count = 1;
  click_time = 5000000000;
  click_button = 1;
  is_dragged = false;
  is_tapped = true;
  session = record { event = blank_event; dispatcher = some keep; sent = [] };
}

-- A mouse event at a time in nanoseconds, with the number of an extra button.
abbrev pub mouse_at : ℕ → ℕ → MouseInput
mouse_at time number = record {
  time = time;
  x = 10;
  y = 20;
  number = number;
  multi_click_time = pos 500;
}
