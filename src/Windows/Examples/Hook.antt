-- ===== src/Windows/Examples/Hook.antt =====
-- The Windows hook at concrete inputs.
use libuiohook.Prelude.{ℕ, false, List, [], ◌∷◌, some, arith, pos}
use libuiohook.Event.{EventType, key_released, MouseEventData, UiohookEvent, keyboard, mouse}
use libuiohook.Dispatch.{Dispatcher}
use libuiohook.Windows.Hook.State.{HookState}
use libuiohook.Windows.Hook.Keys.{KeyInput}
use libuiohook.Windows.Hook.Mouse.{MouseInput}
use libuiohook.Windows.Hook.Proc.{
  key_up, extra_down, vertical_wheel, Message, keyboard_message, mouse_message, run_messages,
}
use libuiohook.Windows.Hook.Invariant.{IsValid, run_messages-IsValid}

abbrev blank_event : UiohookEvent
blank_event = record {
  type = key_released;
  time = 0;
  mask = 0;
  reserved = 1;
  payload = keyboard (record { keycode = 0; rawcode = 0; keychar = 0 });
}

abbrev pub keep : Dispatcher
keep sent event = event

abbrev pub consume : Dispatcher
consume sent event = record event { reserved = 1 }

abbrev pub state_with : Dispatcher → ℕ → HookState
state_with d modifiers = record {
  current_modifiers = modifiers;
  click_count = 1;
  click_time = 4294967290;
  click_button = 1;
  last_click = record { x = 10; y = 20 };
  rotation = record { vertical = pos 0; horizontal = pos 0 };
  session = record { event = blank_event; dispatcher = some d; sent = [] };
}

state_with-IsValid : IsValid (state_with keep 0)
state_with-IsValid = record {
  mask_fits = omega arith;
  count_fits = omega arith;
  rotation_partial = record {
    vertical_partial = (omega arith, omega arith);
    horizontal_partial = (omega arith, omega arith);
  };
}

-- The left shift key.
abbrev pub shift_key : KeyInput
shift_key = record { vk_code = 0xA0; extended = false; time = 7; units = [] }

-- The pointer at the last click, shortly after it, although the time has wrapped.
abbrev mouse_input : ℕ → MouseInput
mouse_input high_word = record {
  time = 4;
  pt = record { x = 10; y = 20 };
  high_word = high_word;
  delta = pos 120;
  multi_click_time = pos 200;
  wheel_amount = some 3;
  stale = record {
    clicks = 0;
    x = 0;
    y = 0;
    type = 0;
    amount = 0;
    rotation = pos 0;
    direction = 0;
  };
}

abbrev messages : List Message
messages =
    keyboard_message false (key_up shift_key)
    ∷ mouse_message false (extra_down (mouse_input 5))
    ∷ mouse_message false (vertical_wheel (mouse_input 0))
    ∷ []

run_messages-IsValid_example : IsValid (run_messages messages (state_with keep 0))
run_messages-IsValid_example = run_messages-IsValid messages (state_with keep 0) state_with-IsValid

abbrev event_at : EventType → MouseEventData → UiohookEvent
event_at type m = record { type = type; time = 4; mask = 0; reserved = 0; payload = mouse m }
