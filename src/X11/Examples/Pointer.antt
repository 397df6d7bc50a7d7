-- ===== src/X11/Examples/Pointer.antt =====
-- Buttons, clicks and drags at concrete inputs.
use libuiohook.Prelude.{ℕ, ◌≡◌, refl, true, List, [], ◌∷◌, some, arith, pos, bit}
use libuiohook.Event.{
  EventType, mouse_clicked, mouse_released, mouse_dragged, MouseEventData, UiohookEvent, mouse,
}
use libuiohook.Dispatch.{Dispatcher}
use libuiohook.X11.Hook.State.{HookState, unset_modifier_mask}
use libuiohook.X11.Hook.Fire.{fresh_event}
use libuiohook.X11.Hook.Buttons.{
  PointerInput, virtual_button, mouse_data, button_mask, unset_button_mask, is_multi_click,
  process_plain_press, process_plain_release, expire_clicks, process_motion,
}
use libuiohook.X11.Hook.Proc.{
  button_press, button_release, Recorded, from_server, end_of_data, run_events, initial_state,
}
use libuiohook.X11.Hook.ButtonEvents.{process_plain_release_sent}
use libuiohook.X11.Hook.Clicks.{Press, press_all, streak, press_all-streak}
use libuiohook.X11.Hook.Drag.{process_motion_sent}
use libuiohook.X11.Hook.Startup.{StartAnswers, initialize_modifiers}
use libuiohook.X11.Hook.Invariant.{IsValid, run_events-IsValid}
use libuiohook.X11.Examples.{start_helper, keep, session_with, state_with, num_led}

abbrev pub pointer_at : ℕ → ℕ → PointerInput
pointer_at time detail = record {
  time = time;
  detail = detail;
  root_x = 10;
  root_y = 20;
  mapping = 1 ∷ 2 ∷ 3 ∷ 4 ∷ 5 ∷ [];
  screens = [];
  multi_click_time = pos 200;
}

abbrev event_at : EventType → ℕ → ℕ → MouseEventData → UiohookEvent
event_at type time mask m = record {
  type = type;
  time = time;
  mask = mask;
  reserved = 0;
  payload = mouse m;
}

-- Button 1 is down since time 5, after one click.
abbrev pressed_state : Dispatcher → HookState
pressed_state d = record (state_with d 0x0100) { click_count = 1; click_time = 5; click_button = 1 }

-- The two extra buttons, and the end of the recording.
abbrev extra_buttons : List Recorded
extra_buttons =
    from_server (button_press (pointer_at 5 8))
    ∷ from_server (button_press (pointer_at 6 9))
    ∷ from_server (button_release (pointer_at 7 8))
    ∷ end_of_data 9
    ∷ []

-- Num lock is on and the first button is down when the hook starts.
abbrev locked_start : StartAnswers
locked_start = record {
  keymap = [];
  pointer = some 0x110;
  keycodes = record {
    shift_l = 50;
    shift_r = 62;
    control_l = 37;
    control_r = 105;
    alt_l = 64;
    alt_r = 108;
    super_l = 133;
    super_r = 134;
  };
  leds = num_led;
}

run_events-IsValid_example : IsValid (
    run_events extra_buttons
      (initialize_modifiers locked_start (initial_state (session_with keep) start_helper)))
run_events-IsValid_example =
    run_events-IsValid locked_start extra_buttons (session_with keep) start_helper

-- Both extra buttons' bits are set, and the first extra button is released.
process_plain_release_sent_example :
    ((process_plain_release (pointer_at 6 8) 8 (state_with keep 0x1800)).session.sent
      ≡ event_at mouse_clicked 6 0x0800 (record { button = 4; clicks = 0; x = 10; y = 20 })
        ∷ event_at mouse_released 6 0x0800 (record { button = 4; clicks = 0; x = 10; y = 20 })
        ∷ [])
    × (bit 0x0800 11 ≡ 1)
    × (bit 0x0800 11 ≡ 1)
unfolding fresh_event unset_button_mask mouse_data button_mask virtual_button unset_modifier_mask
process_plain_release_sent_example =
    process_plain_release_sent (pointer_at 6 8) 8 (state_with keep 0x1800) keep 11 refl
      (omega arith)

abbrev double_click : List Press
double_click =
    record { input = pointer_at 150 1; map_button = 1 }
    ∷ record { input = pointer_at 50 1; map_button = 1 }
    ∷ record { input = pointer_at 40 3; map_button = 3 }
    ∷ []

press_all-streak_example :
    (press_all
      (record { input = pointer_at 250 1; map_button = 1 } ∷ double_click)
      (state_with keep 0)).click_count
    ≡ 3
unfolding streak virtual_button is_multi_click
press_all-streak_example =
    press_all-streak (record { input = pointer_at 250 1; map_button = 1 }) double_click
      (state_with keep 0) refl

process_motion_sent_example :
    (process_motion (pointer_at 9 0) (state_with keep 0x0100)).session.sent
    ≡ event_at mouse_dragged 9 0x0100 (record { button = 0; clicks = 0; x = 10; y = 20 }) ∷ []
unfolding fresh_event expire_clicks mouse_data
process_motion_sent_example =
    process_motion_sent (pointer_at 9 0) (state_with keep 0x0100) keep refl

abbrev dragged_state : HookState
dragged_state =
    process_motion (pointer_at 9 0) (process_plain_press (pointer_at 5 1) 1 (state_with keep 0))

abbrev stale_state : HookState
stale_state = record (state_with keep 0) { is_dragged = true }
