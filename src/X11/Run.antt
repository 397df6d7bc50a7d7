-- ===== src/X11/Run.antt =====
-- src/x11/input_hook.c: the life of the hook, from `hook_run` down to `xrecord_block`, and
-- `hook_stop`. What the X server and `malloc` answer is an argument.
pub mod Laws
use libuiohook.Prelude.{ℕ, ◌+◌, ◌-◌, Bool, true, false, ◌&&◌, List, if◌then◌else◌}
use libuiohook.Event.{
  uiohook_success, uiohook_failure, uiohook_error_out_of_memory, uiohook_error_x_open_display,
  uiohook_error_x_record_not_found, uiohook_error_x_record_alloc_range,
  uiohook_error_x_record_create_context, uiohook_error_x_record_enable_context,
  uiohook_error_x_record_get_context,
}
use libuiohook.Dispatch.{Session}
use libuiohook.X11.Helper.State.{Helper}
use libuiohook.X11.Xkb.{XkbAnswers, References, create_context, create_xkb_state, release_xkb}
use libuiohook.X11.Hook.State.{HookState}
use libuiohook.X11.Hook.Startup.{StartAnswers, initialize_modifiers}
use libuiohook.X11.Hook.Proc.{Recorded, run_events, initial_state}

pub record RunAnswers : Type 0 where
  -- `malloc` of the hook structure, and the two calls of `XOpenDisplay`.
  pub allocated : Bool
  pub ctrl_opened : Bool
  pub data_opened : Bool
  pub xkb : XkbAnswers
  pub start : StartAnswers
  -- `XRecordQueryVersion`, `XRecordAllocRange`, `XRecordCreateContext`, `XRecordEnableContext`.
  pub version_found : Bool
  pub range_allocated : Bool
  pub context_created : Bool
  pub context_enabled : Bool
  -- What is recorded until the context is disabled.
  pub recorded : List Recorded

-- What the library holds: how many hook structures, displays, ranges and contexts of XRecord are
-- allocated, and the references to objects of libxkbcommon.
pub record Held : Type 0 where
  pub hooks : ℕ
  pub displays : ℕ
  pub ranges : ℕ
  pub contexts : ℕ
  pub xkb : References

-- The hook's state while it runs.
pub record Running : Type 0 where
  pub held : Held
  pub state : HookState

-- `XRecordEnableContext` blocks and calls `hook_event_proc` until the context is disabled.
unfoldable pub xrecord_block : RunAnswers → Running → Running × ℕ
xrecord_block a r =
    if a.context_enabled
    then (record r { state = run_events a.recorded r.state }, uiohook_success)
    else (r, uiohook_error_x_record_enable_context)

free_context : Running → Running
free_context r = record r { held = record (r.held) { contexts = r.held.contexts - 1 } }

-- The part of `xrecord_alloc` after the range is allocated.
unfoldable pub xrecord_context : RunAnswers → Running → Running × ℕ
unfolding free_context
xrecord_context a r =
    let created = record r { held = record (r.held) { contexts = r.held.contexts + 1 } } in
    let (r1, status) = xrecord_block a created in
    if a.context_created
    then (free_context r1, status)
    else (r, uiohook_error_x_record_create_context)

free_range : Running → Running
free_range r = record r { held = record (r.held) { ranges = r.held.ranges - 1 } }

unfoldable pub xrecord_alloc : RunAnswers → Running → Running × ℕ
unfolding free_range
xrecord_alloc a r =
    let allocated = record r { held = record (r.held) { ranges = r.held.ranges + 1 } } in
    let (r1, status) = xrecord_context a allocated in
    if a.range_allocated then (free_range r1, status) else (r, uiohook_error_x_record_alloc_range)

unfoldable pub xrecord_query : RunAnswers → Running → Running × ℕ
xrecord_query a r =
    if a.version_found then xrecord_alloc a r else (r, uiohook_error_x_record_not_found)

open_display : Bool → Running → Running
open_display opened r =
    if opened then record r { held = record (r.held) { displays = r.held.displays + 1 } } else r

close_display : Bool → Running → Running
close_display opened r =
    if opened then record r { held = record (r.held) { displays = r.held.displays - 1 } } else r

-- The part of `xrecord_start` with both displays open.
unfoldable pub query_opened : RunAnswers → Running → Running × ℕ
query_opened a r =
    let ready = record r {
      held = record (r.held) { xkb = create_xkb_state a.xkb (create_context a.xkb r.held.xkb) };
      state = initialize_modifiers a.start r.state;
    } in
    let (r1, status) = xrecord_query a ready in
    (record r1 { held = record (r1.held) { xkb = release_xkb a.xkb r1.held.xkb } }, status)

unfoldable pub xrecord_start : RunAnswers → Running → Running × ℕ
unfolding open_display close_display
xrecord_start a r =
    let r1 = open_display a.data_opened (open_display a.ctrl_opened r) in
    let (r2, status) =
      if a.ctrl_opened && a.data_opened
      then query_opened a r1
      else (r1, uiohook_error_x_open_display) in
    (close_display a.ctrl_opened (close_display a.data_opened r2), status)

-- The globals outlive the hook structure.
pub record World : Type 0 where
  pub held : Held
  pub session : Session
  pub helper : Helper

unfoldable pub hook_run : RunAnswers → World → World × ℕ
hook_run a w =
    let held = record (w.held) { hooks = w.held.hooks + 1 } in
    let r : Running = record { held = held; state = initial_state w.session w.helper } in
    let (r1, status) = xrecord_start a r in
    let freed = record (r1.held) { hooks = r1.held.hooks - 1 } in
    if a.allocated
    then (record { held = freed; session = r1.state.session; helper = r1.state.helper }, status)
    else (w, uiohook_error_out_of_memory)

-- `running` is that the hook, its control display and its context are set; the others are `malloc`,
-- `XRecordGetContext`, `state->enabled` and `XRecordDisableContext`.
pub record StopAnswers : Type 0 where
  pub running : Bool
  pub allocated : Bool
  pub got_context : Bool
  pub enabled : Bool
  pub disabled : Bool

unfoldable pub hook_stop : StopAnswers → ℕ
hook_stop a =
    if a.running
    then (if a.allocated
        then (if a.got_context
            then (if a.enabled && a.disabled then uiohook_success else uiohook_failure)
            else uiohook_error_x_record_get_context)
        else uiohook_error_out_of_memory)
    else uiohook_failure
