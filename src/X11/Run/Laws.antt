-- ===== src/X11/Run/Laws.antt =====
-- src/x11/input_hook.c: what `hook_run` holds when it returns, and with which status.
use libuiohook.Prelude.{ℕ, ◌+◌, ◌≡◌, Bool, not, ◌&&◌, List, [], ◌∷◌, arith, if◌then◌else◌}
use libuiohook.Event.{
  uiohook_error_out_of_memory, uiohook_error_x_open_display, uiohook_error_x_record_not_found,
  uiohook_error_x_record_alloc_range, uiohook_error_x_record_create_context,
  uiohook_error_x_record_enable_context,
}
use libuiohook.Startup.{first_failure, all_done}
use libuiohook.X11.Xkb.{XkbAnswers, References}
use libuiohook.X11.Hook.Startup.{initialize_modifiers}
use libuiohook.X11.Hook.StartMask.{initialize_modifiers-session, initialize_modifiers-helper}
use libuiohook.X11.Hook.Proc.{run_events, initial_state}
use libuiohook.X11.Run.{
  RunAnswers, Running, World, xrecord_block, xrecord_context, xrecord_alloc, xrecord_query,
  query_opened, xrecord_start, hook_run,
}

-- What a run with both displays open leaves of the references to objects of libxkbcommon: one more to
-- the context and one more to the keyboard state that it made; and one more release of a context that
-- never was set, where none was made and the field of the hook structure was not NULL by chance.
abbrev pub left_over : XkbAnswers → References → References
left_over x r =
    let has = x.connected && x.context_made in
    record {
      contexts = if has then r.contexts + 1 else r.contexts;
      keymaps = r.keymaps;
      states = if x.state_made then r.states + 1 else r.states;
      strays = if not has && x.context_left then r.strays + 1 else r.strays;
    }

-- The state in which both displays are open.
abbrev opened : Running → Running
opened r = record r { held = record (r.held) { displays = r.held.displays + 1 + 1 } }

-- The steps of starting the hook, in order, each with the error that its failure makes.
abbrev pub start_steps : RunAnswers → List (Bool × ℕ)
start_steps a =
    (a.allocated, uiohook_error_out_of_memory)
    ∷ (a.ctrl_opened && a.data_opened, uiohook_error_x_open_display)
    ∷ (a.version_found, uiohook_error_x_record_not_found)
    ∷ (a.range_allocated, uiohook_error_x_record_alloc_range)
    ∷ (a.context_created, uiohook_error_x_record_create_context)
    ∷ (a.context_enabled, uiohook_error_x_record_enable_context)
    ∷ []

-- The status of `hook_run` is the error of the first step that failed, or success. The session of the
-- callback and the state of the input helper are what the recorded data make of them, beginning with
-- the modifiers read, if all steps succeeded, and as they were before otherwise.
pub hook_run_outcome :
    (a : RunAnswers) (w : World)
    → let started = initialize_modifiers a.start (initial_state w.session w.helper) in
      ((hook_run a w).1 ≡ first_failure (start_steps a))
      × ((hook_run a w).0.session ≡ (
          if all_done (start_steps a) then (run_events a.recorded started).session else w.session))
      × ((hook_run a w).0.helper
          ≡ (if all_done (start_steps a) then (run_events a.recorded started).helper else w.helper))
unfolding hook_run initial_state xrecord_start query_opened xrecord_query xrecord_alloc
    xrecord_context xrecord_block
hook_run_outcome a w =
    let s = initial_state w.session w.helper in
    ground (arith, initialize_modifiers-session a.start s, initialize_modifiers-helper a.start s)
