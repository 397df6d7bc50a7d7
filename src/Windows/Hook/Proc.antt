-- ===== src/Windows/Hook/Proc.antt =====
-- src/windows/input_hook.c: `keyboard_hook_event_proc`, `mouse_hook_event_proc`, and the start and
-- stop events.
use libuiohook.Prelude.{ℕ, Bool, ◌||◌, List, [], ◌∷◌, ◌==◌, if◌then◌else◌}
use libuiohook.Event.{EventType, hook_enabled, hook_disabled}
use libuiohook.Event.Masks.{
  mask_button1, mask_button2, mask_button3, mask_button4, mask_button5, mouse_button1,
  mouse_button2, mouse_button3, mouse_button4, mouse_button5, wheel_vertical_direction,
  wheel_horizontal_direction,
}
use libuiohook.Dispatch.{dispatch_event}
use libuiohook.Windows.Hook.State.{
  HookState, set_modifier_mask, unset_modifier_mask, reset_rotation, not_consumed,
}
use libuiohook.Windows.Hook.Keys.{KeyInput, process_key_pressed, process_key_released}
use libuiohook.Windows.Hook.Mouse.{
  MouseInput, process_button_pressed, process_button_released, process_mouse_moved,
  process_mouse_wheel,
}

-- What a hook procedure answers: `CallNextHookEx`, or -1 for a consumed event.
pub data HookResult : Type 0 where
  call_next consumed : HookResult

-- `nCode < 0 || event.reserved ^ 0x01`; `negative` is that `nCode` is below 0.
unfoldable pub hook_result : Bool → HookState → HookResult
hook_result negative s = if negative || not_consumed s then call_next else consumed

-- The messages of the keyboard hook, the system ones with the others.
pub data KeyMessage : Type 0 where
  key_down : KeyInput → KeyMessage
  key_up : KeyInput → KeyMessage
  other_key : KeyMessage

unfoldable pub process_key_message : KeyMessage → HookState → HookState
process_key_message (key_down k) s = process_key_pressed k s
process_key_message (key_up k) s = process_key_released k s
process_key_message other_key s = s

unfoldable pub keyboard_hook_event_proc : Bool → KeyMessage → HookState → HookState × HookResult
keyboard_hook_event_proc negative m s =
    let s1 = process_key_message m s in (s1, hook_result negative s1)

-- The messages of the mouse hook, the non-client ones with the others.
pub data MouseMessage : Type 0 where
  left_down right_down middle_down extra_down : MouseInput → MouseMessage
  left_up right_up middle_up extra_up : MouseInput → MouseMessage
  mouse_move vertical_wheel horizontal_wheel : MouseInput → MouseMessage
  other_mouse : MouseMessage

-- `XBUTTON1` is 1 and `XBUTTON2` is 2. The last branches pass button numbers for masks.
unfoldable pub process_extra_down : MouseInput → HookState → HookState
process_extra_down p s =
    if p.high_word == 1
    then process_button_pressed p mouse_button4 (set_modifier_mask mask_button4 s)
    else if p.high_word == 2
    then process_button_pressed p mouse_button5 (set_modifier_mask mask_button5 s)
    else if p.high_word == 4
    then process_button_pressed p p.high_word (set_modifier_mask mouse_button4 s)
    else if p.high_word == 5
    then process_button_pressed p p.high_word (set_modifier_mask mouse_button5 s)
    else process_button_pressed p p.high_word s

unfoldable pub process_extra_up : MouseInput → HookState → HookState
process_extra_up p s =
    if p.high_word == 1
    then process_button_released p mouse_button4 (unset_modifier_mask mask_button4 s)
    else if p.high_word == 2
    then process_button_released p mouse_button5 (unset_modifier_mask mask_button5 s)
    else if p.high_word == 4
    then process_button_released p mouse_button5 (unset_modifier_mask mouse_button4 s)
    else if p.high_word == 5
    then process_button_released p mouse_button5 (unset_modifier_mask mouse_button5 s)
    else process_button_released p mouse_button5 s

unfoldable pub process_mouse_message : MouseMessage → HookState → HookState
process_mouse_message (left_down p) s =
    process_button_pressed p mouse_button1 (set_modifier_mask mask_button1 s)
process_mouse_message (right_down p) s =
    process_button_pressed p mouse_button2 (set_modifier_mask mask_button2 s)
process_mouse_message (middle_down p) s =
    process_button_pressed p mouse_button3 (set_modifier_mask mask_button3 s)
process_mouse_message (extra_down p) s = process_extra_down p s
process_mouse_message (left_up p) s =
    process_button_released p mouse_button1 (unset_modifier_mask mask_button1 s)
process_mouse_message (right_up p) s =
    process_button_released p mouse_button2 (unset_modifier_mask mask_button2 s)
process_mouse_message (middle_up p) s =
    process_button_released p mouse_button3 (unset_modifier_mask mask_button3 s)
process_mouse_message (extra_up p) s = process_extra_up p s
process_mouse_message (mouse_move p) s = process_mouse_moved p s
process_mouse_message (vertical_wheel p) s = process_mouse_wheel p wheel_vertical_direction s
process_mouse_message (horizontal_wheel p) s = process_mouse_wheel p wheel_horizontal_direction s
process_mouse_message other_mouse s = s

unfoldable pub mouse_hook_event_proc : Bool → MouseMessage → HookState → HookState × HookResult
mouse_hook_event_proc negative m s =
    let s1 = process_mouse_message m s in (s1, hook_result negative s1)

-- The two events of `hook_start_proc` and `hook_stop_proc`, `time` from `GetMessageTime`.
unfoldable pub fire_control : EventType → ℕ → HookState → HookState
fire_control type time s = record s {
  session = dispatch_event (record s.session {
    event = record (s.session.event) { time = time; reserved = 0x00; type = type; mask = 0x00 };
  });
}

unfoldable pub hook_start_proc : ℕ → HookState → HookState
hook_start_proc time s = fire_control hook_enabled time (reset_rotation s)

unfoldable pub hook_stop_proc : ℕ → HookState → HookState
hook_stop_proc time s = fire_control hook_disabled time s

-- Either hook's message, and a run of them in the order of delivery.
pub data Message : Type 0 where
  keyboard_message : Bool → KeyMessage → Message
  mouse_message : Bool → MouseMessage → Message

unfoldable pub run_message : Message → HookState → HookState × HookResult
run_message (keyboard_message negative m) s = keyboard_hook_event_proc negative m s
run_message (mouse_message negative m) s = mouse_hook_event_proc negative m s

unfoldable pub run_messages : List Message → HookState → HookState
run_messages [] s = s
run_messages (m ∷ ms) s = run_messages ms (run_message m s).0
