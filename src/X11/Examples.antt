-- ===== src/X11/Examples.antt =====
-- The theorems on the X11 code at concrete inputs: the states and events that they share.
mod Keyboard
mod Pointer
mod Lifecycle
mod System
mod Keysyms
use libuiohook.Prelude.{ℕ, true, false, List, [], some}
use libuiohook.Event.{UiohookEvent, key_typed, keyboard}
use libuiohook.Dispatch.{Dispatcher, Session}
use libuiohook.X11.Helper.State.{Helper, live}
use libuiohook.X11.Hook.State.{HookState, Leds, active, inactive}

abbrev pub start_helper : Helper
start_helper = record {
  helper_disp = true;
  mouse_button_map = live;
  keyboard_map = live;
  is_evdev = true;
}

abbrev pub blank_event : UiohookEvent
blank_event = record {
  type = key_typed;
  time = 0;
  mask = 0;
  reserved = 0;
  payload = keyboard (record { keycode = 0; rawcode = 0; keychar = 0 });
}

abbrev pub keep : Dispatcher
keep sent event = event

abbrev pub consume : Dispatcher
consume sent event = record event { reserved = 1 }

abbrev pub session_with : Dispatcher → Session
session_with d = record { event = blank_event; dispatcher = some d; sent = [] }

abbrev pub state_with : Dispatcher → ℕ → HookState
state_with d mask = record {
  mask = mask;
  is_dragged = false;
  click_count = 0;
  click_time = 0;
  click_button = 0;
  session = session_with d;
  helper = start_helper;
}

abbrev pub num_led : Leds
num_led = record { caps = inactive; num = active; scroll = inactive }
