-- ===== src/Darwin/Hook/Proc.antt =====
-- src/darwin/input_hook.c: `hook_event_proc` and `hook_status_proc`.
use libuiohook.Prelude.{ℕ, ◌+◌, Bool, true, false, List, [], ◌∷◌, ltb, ◌==◌, if◌then◌else◌}
use libuiohook.Event.{EventType, hook_enabled, hook_disabled}
use libuiohook.Event.Masks.{
  mask_button1, mask_button2, mouse_button1, mouse_button2, mouse_button4, mouse_button5,
}
use libuiohook.Dispatch.{dispatch_event}
use libuiohook.Darwin.Hook.State.{HookState, set_modifier_mask, unset_modifier_mask, not_consumed}
use libuiohook.Darwin.Hook.Keys.{
  KeyInput, Flags, SystemInput, process_key_pressed, process_key_released, process_modifier_changed,
  process_system_key,
}
use libuiohook.Darwin.Hook.Mouse.{
  MouseInput, WheelInput, process_button_pressed, process_button_released, process_mouse_moved,
  process_mouse_wheel,
}

-- What the event tap delivers, by its type. The three types of a drag are one. With a timeout the tap
-- is disabled; the flag is whether `hook->port` is set.
pub data TapEvent : Type 0 where
  key_down key_up : KeyInput → TapEvent
  flags_changed : KeyInput → Flags → TapEvent
  sys_defined : SystemInput → TapEvent
  left_mouse_down right_mouse_down other_mouse_down : MouseInput → TapEvent
  left_mouse_up right_mouse_up other_mouse_up : MouseInput → TapEvent
  dragged moved : MouseInput → TapEvent
  scroll_wheel : WheelInput → TapEvent
  disabled_by_timeout : Bool → TapEvent
  other_event : TapEvent

-- The mask that is given for an extra button: its number, where a mask is meant.
unfoldable pub set_extra : ℕ → HookState → HookState
set_extra button s =
    if button == 4
    then set_modifier_mask mouse_button4 s
    else if button == 5
    then set_modifier_mask mouse_button5 s
    else s

unfoldable pub unset_extra : ℕ → HookState → HookState
unset_extra button s =
    if button == 4
    then unset_modifier_mask mouse_button4 s
    else if button == 5
    then unset_modifier_mask mouse_button5 s
    else s

unfoldable pub process_other_down : MouseInput → HookState → HookState
process_other_down p s =
    let button = p.number + 1 in
    if ltb p.number 65535 then process_button_pressed p button (set_extra button s) else s

-- The source calls `process_button_pressed` here as well.
unfoldable pub process_other_up : MouseInput → HookState → HookState
process_other_up p s =
    let button = p.number + 1 in
    if ltb p.number 65535 then process_button_pressed p button (unset_extra button s) else s

-- The tap is off until it is enabled again.
unfoldable pub reenable_tap : Bool → HookState → HookState
reenable_tap port s =
    let off = record s { is_tapped = false } in
    if port then record off { is_tapped = true } else off

unfoldable pub process_event : TapEvent → HookState → HookState
process_event (key_down k) s = process_key_pressed k s
process_event (key_up k) s = process_key_released k s
process_event (flags_changed k flags) s = process_modifier_changed k flags s
process_event (sys_defined p) s = process_system_key p s
process_event (left_mouse_down p) s =
    process_button_pressed p mouse_button1 (set_modifier_mask mask_button1 s)
process_event (right_mouse_down p) s =
    process_button_pressed p mouse_button2 (set_modifier_mask mask_button2 s)
process_event (other_mouse_down p) s = process_other_down p s
process_event (left_mouse_up p) s =
    process_button_released p mouse_button1 (unset_modifier_mask mask_button1 s)
process_event (right_mouse_up p) s =
    process_button_released p mouse_button2 (unset_modifier_mask mask_button2 s)
process_event (other_mouse_up p) s = process_other_up p s
process_event (dragged p) s = process_mouse_moved p (record s { is_dragged = true })
process_event (moved p) s = process_mouse_moved p (record s { is_dragged = false })
process_event (scroll_wheel p) s = process_mouse_wheel p s
process_event (disabled_by_timeout port) s = reenable_tap port s
process_event other_event s = s

-- The event goes on to the system, or it is consumed.
pub data Passed : Type 0 where
  event_ref null : Passed

unfoldable pub hook_event_proc : TapEvent → HookState → HookState × Passed
hook_event_proc e s =
    let s1 = process_event e s in (s1, if not_consumed s1 then event_ref else null)

-- The activities that the observer of the run loop is told of.
pub data Activity : Type 0 where
  loop_entry loop_exit other_activity : Activity

unfoldable pub fire_control : EventType → ℕ → HookState → HookState
fire_control type time s = record s {
  session = dispatch_event (record s.session {
    event = record (s.session.event) { time = time; reserved = 0x00; type = type; mask = 0x00 };
  });
}

-- `load_input_helper` does nothing, and `unload_input_helper` releases the keyboard layout.
unfoldable pub hook_status_proc : Activity → ℕ → HookState → HookState
hook_status_proc loop_entry time s = fire_control hook_enabled time s
hook_status_proc loop_exit time s = fire_control hook_disabled time s
hook_status_proc other_activity time s = s

-- The events in the order of delivery.
unfoldable pub run_events : List TapEvent → HookState → HookState
run_events [] s = s
run_events (e ∷ es) s = run_events es (hook_event_proc e s).0
