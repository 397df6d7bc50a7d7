-- ===== src/X11/Hook/Proc.antt =====
-- src/x11/input_hook.c: `hook_event_proc`, which XRecord calls for each recorded datum, and the
-- state that `hook_run` starts from.
use libuiohook.Prelude.{ℕ, false, List, [], ◌∷◌}
use libuiohook.Event.{EventType, hook_enabled, hook_disabled}
use libuiohook.Event.Masks.{mouse_nobutton}
use libuiohook.Dispatch.{Session, dispatch_event}
use libuiohook.X11.Helper.State.{LoadAnswers, Helper, load_input_helper, unload_input_helper}
use libuiohook.X11.Hook.State.{HookState}
use libuiohook.X11.Hook.Keys.{KeyInput, process_key_press, process_key_release}
use libuiohook.X11.Hook.Buttons.{
  PointerInput, process_button_press, process_button_release, process_motion,
}

-- The events of a datum from the server or a client.
pub data Datum : Type 0 where
  key_press : KeyInput → Datum
  key_release : KeyInput → Datum
  button_press : PointerInput → Datum
  button_release : PointerInput → Datum
  motion_notify : PointerInput → Datum
  other_event : Datum

-- The categories of recorded data, `start_of_data` and `end_of_data` with the server's time.
pub data Recorded : Type 0 where
  start_of_data : ℕ → LoadAnswers → Recorded
  end_of_data : ℕ → Recorded
  from_server : Datum → Recorded
  from_client : Datum → Recorded
  other_category : Recorded

-- The start and stop events carry no mask and leave the union as it was.
unfoldable pub fire_control : EventType → ℕ → HookState → HookState
fire_control type time s = record s {
  session = dispatch_event (record s.session {
    event = record (s.session.event) { time = time; reserved = 0x00; type = type; mask = 0x00 };
  });
}

unfoldable pub process_datum : Datum → HookState → HookState
process_datum (key_press k) s = process_key_press k s
process_datum (key_release k) s = process_key_release k s
process_datum (button_press p) s = process_button_press p s
process_datum (button_release p) s = process_button_release p s
process_datum (motion_notify p) s = process_motion p s
process_datum other_event s = s

unfoldable pub hook_event_proc : Recorded → HookState → HookState
hook_event_proc (start_of_data time a) s =
    fire_control hook_enabled time (record s { helper = load_input_helper a s.helper })
hook_event_proc (end_of_data time) s =
    let s1 = fire_control hook_disabled time s in
    record s1 { helper = unload_input_helper s1.helper }
hook_event_proc (from_server d) s = process_datum d s
hook_event_proc (from_client d) s = process_datum d s
hook_event_proc other_category s = s

-- The recorded data in the order of delivery.
unfoldable pub run_events : List Recorded → HookState → HookState
run_events [] s = s
run_events (r ∷ rs) s = run_events rs (hook_event_proc r s)

-- The fields that `hook_run` sets.
unfoldable pub initial_state : Session → Helper → HookState
initial_state session helper = record {
  mask = 0x0000;
  is_dragged = false;
  click_count = 0;
  click_time = 0;
  click_button = mouse_nobutton;
  session = session;
  helper = helper;
}
