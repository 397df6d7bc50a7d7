-- ===== src/Windows/Run.antt =====
-- src/windows/input_hook.c: the life of the hooks: `hook_run`, `win_hook_event_proc`,
-- `unregister_running_hooks` and `hook_stop`. What Windows answers is an argument.
pub mod Laws
use libuiohook.Prelude.{ℕ, ◌+◌, ◌-◌, Bool, true, false, ◌&&◌, List, [], ◌∷◌, if◌then◌else◌}
use libuiohook.Event.{
  uiohook_success, uiohook_failure, uiohook_error_set_windows_hook_ex,
  uiohook_error_get_module_handle,
}
use libuiohook.Windows.Hook.State.{HookState, KeyStates, initialize_modifiers, reset_rotation}
use libuiohook.Windows.Hook.Proc.{Message, run_message, hook_start_proc, hook_stop_proc}

-- One of the statics `keyboard_event_hhook`, `mouse_event_hhook` and `win_event_hhook`: whether it is
-- set, and how many hooks of its kind Windows has installed for the process.
pub record Handle : Type 0 where
  pub is_set : Bool
  pub installed : ℕ

pub record Handles : Type 0 where
  pub keyboard : Handle
  pub mouse : Handle
  pub win_event : Handle

-- `SetWindowsHookEx` or `SetWinEventHook`, with its result stored.
unfoldable pub install : Bool → Handle → Handle
install answer h = record {
  is_set = answer;
  installed = if answer then h.installed + 1 else h.installed;
}

-- `UnhookWindowsHookEx` or `UnhookWinEvent`, if the handle is set.
unfoldable pub unhook : Handle → Handle
unhook h = record h { installed = if h.is_set then h.installed - 1 else h.installed }

-- The handle is set to NULL if it was not.
unfoldable pub clear : Handle → Handle
clear h = record h { is_set = false }

unfoldable pub unregister_running_hooks : Handles → Handles
unregister_running_hooks hs = record {
  keyboard = clear (unhook hs.keyboard);
  mouse = clear (unhook hs.mouse);
  win_event = clear (unhook hs.win_event);
}

pub record Running : Type 0 where
  pub handles : Handles
  pub state : HookState

-- What the two calls of `SetWindowsHookEx` and `GetKeyState` answer for a restart.
pub record RestartAnswers : Type 0 where
  pub keyboard_set : Bool
  pub mouse_set : Bool
  pub keys : KeyStates

-- `win_hook_event_proc`: a change of a name restarts the hooks.
pub data WindowEvent : Type 0 where
  name_change : RestartAnswers → WindowEvent
  other_window_event : WindowEvent

unfoldable pub win_hook_event_proc : WindowEvent → Running → Running
win_hook_event_proc (name_change a) r = record {
  handles = record (r.handles) {
    keyboard = install a.keyboard_set (unhook r.handles.keyboard);
    mouse = install a.mouse_set (unhook r.handles.mouse);
  };
  state = initialize_modifiers a.keys r.state;
}
win_hook_event_proc other_window_event r = r

-- What the loop over `GetMessage` lets through until the request to quit.
pub data LoopEvent : Type 0 where
  hook_message : Message → LoopEvent
  window_event : WindowEvent → LoopEvent

unfoldable pub run_loop_event : LoopEvent → Running → Running
run_loop_event (hook_message m) r = record r { state = (run_message m r.state).0 }
run_loop_event (window_event e) r = win_hook_event_proc e r

unfoldable pub run_loop : List LoopEvent → Running → Running
run_loop [] r = r
run_loop (e ∷ es) r = run_loop es (run_loop_event e r)

-- The globals, with whether `hInst` is set.
pub record World : Type 0 where
  pub has_instance : Bool
  pub handles : Handles
  pub state : HookState

pub record RunAnswers : Type 0 where
  -- `GetModuleHandle`, the two calls of `SetWindowsHookEx`, and `SetWinEventHook`.
  pub module_found : Bool
  pub keyboard_set : Bool
  pub mouse_set : Bool
  pub win_event_set : Bool
  pub keys : KeyStates
  pub events : List LoopEvent
  -- The times of the start and the stop event.
  pub start_time : ℕ
  pub stop_time : ℕ

unfoldable pub install_hooks : RunAnswers → Handles → Handles
install_hooks a hs = record {
  keyboard = install a.keyboard_set hs.keyboard;
  mouse = install a.mouse_set hs.mouse;
  win_event = install a.win_event_set hs.win_event;
}

-- The status after the check of `hInst`, and `hInst`.
unfoldable pub check_instance : RunAnswers → Bool → Bool × ℕ
check_instance a has_instance =
    if has_instance
    then (true, uiohook_failure)
    else if a.module_found
    then (true, uiohook_failure)
    else (false, uiohook_error_get_module_handle)

unfoldable pub process_events : RunAnswers → Running → Running
process_events a r =
    run_loop a.events
      (record r { state = hook_start_proc a.start_time (initialize_modifiers a.keys r.state) })

-- From the test of the two handles to the end of the loop.
unfoldable pub start_loop : RunAnswers → Running → Running × ℕ
start_loop a r =
    if r.handles.keyboard.is_set && r.handles.mouse.is_set
    then (process_events a r, uiohook_success)
    else (r, uiohook_error_set_windows_hook_ex)

-- `load_input_helper` runs where `hInst` is found late.
unfoldable pub load_late : RunAnswers → Bool → HookState → HookState
load_late a has_instance s =
    if has_instance then s else if a.module_found then reset_rotation s else s

-- The status of `check_instance` is overwritten.
unfoldable pub hook_run : RunAnswers → World → World × ℕ
hook_run a w =
    let (has_instance, _) = check_instance a w.has_instance in
    let (r, status) = start_loop a (record {
      handles = install_hooks a w.handles;
      state = load_late a w.has_instance w.state;
    }) in
    (
      record {
        has_instance = has_instance;
        handles = unregister_running_hooks r.handles;
        state = hook_stop_proc a.stop_time r.state;
      },
      status,
    )

-- `posted` is the answer of `PostThreadMessage`.
unfoldable pub hook_stop : Bool → ℕ
hook_stop posted = if posted then uiohook_success else uiohook_failure
