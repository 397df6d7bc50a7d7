-- ===== src/Windows/Run/Laws.antt =====
-- src/windows/input_hook.c: what `hook_run` leaves installed, its status and what the callback gets.
use libuiohook.Prelude.{
  ℕ, ◌+◌, ◌≡◌, refl, Bool, false, not, ◌&&◌, List, [], ◌∷◌, arith, if◌then◌else◌, if_both, pos,
}
use libuiohook.Event.{
  EventType, hook_enabled, hook_disabled, uiohook_success, uiohook_error_set_windows_hook_ex,
}
use libuiohook.Dispatch.{Session, dispatch_event}
use libuiohook.Windows.Hook.State.{HookState, initialize_modifiers, reset_rotation}
use libuiohook.Windows.Hook.Proc.{fire_control, hook_start_proc, hook_stop_proc}
use libuiohook.Windows.Run.{
  Handle, Handles, install, unhook, clear, unregister_running_hooks, Running, name_change,
  other_window_event, win_hook_event_proc, LoopEvent, hook_message, window_event, run_loop_event,
  run_loop, World, RunAnswers, install_hooks, process_events, start_loop, load_late, hook_run,
}

-- Beside `n` hooks of others, the one that the handle stands for is installed if it is set.
abbrev pub Beside : ℕ → Handle → Type 0
Beside n h = h.installed ≡ (if h.is_set then n + 1 else n)

-- The hooks installed of each kind are those of `hs` and the ones that the handles stand for.
pub record Owns (hs : Handles) (r : Running) : Type 0 where
  pub keyboard : Beside hs.keyboard.installed r.handles.keyboard
  pub mouse : Beside hs.mouse.installed r.handles.mouse
  pub win_event : Beside hs.win_event.installed r.handles.win_event

reinstall-Beside :
    (n : ℕ) (answer : Bool) (h : Handle) → Beside n h → Beside n (install answer (unhook h))
unfolding install unhook
reinstall-Beside n answer h b = ground arith

unhook-installed : (n : ℕ) (h : Handle) → Beside n h → (unhook h).installed ≡ n
unfolding unhook
unhook-installed n h b = ground arith

event-Owns : (hs : Handles) (e : LoopEvent) (r : Running) → Owns hs r → Owns hs (run_loop_event e r)
unfolding run_loop_event win_hook_event_proc
event-Owns hs (hook_message m) r o = record {
  keyboard = o.keyboard;
  mouse = o.mouse;
  win_event = o.win_event;
}
event-Owns hs (window_event (name_change a)) r o = record {
  keyboard = reinstall-Beside _ a.keyboard_set _ o.keyboard;
  mouse = reinstall-Beside _ a.mouse_set _ o.mouse;
  win_event = o.win_event;
}
event-Owns hs (window_event other_window_event) r o = o

-- Over the whole loop, restarts that fail included, each handle stands for the hook that it installed.
pub run_loop-Owns :
    (hs : Handles) (es : List LoopEvent) (r : Running) → Owns hs r → Owns hs (run_loop es r)
unfolding run_loop
run_loop-Owns hs [] r o = o
run_loop-Owns hs (e ∷ es) r o = run_loop-Owns hs es _ (event-Owns hs e r o)

installed-Owns :
    (a : RunAnswers) (hs : Handles) (s : HookState)
    → Owns hs (record { handles = install_hooks a hs; state = s })
unfolding install_hooks install
installed-Owns a hs s = record {
  keyboard = ground arith;
  mouse = ground arith;
  win_event = ground arith;
}

start-Owns : (a : RunAnswers) (hs : Handles) (r : Running) → Owns hs r → Owns hs (start_loop a r).0
unfolding start_loop process_events
start-Owns a hs r o =
    if_both (λ (t : Running × ℕ). Owns hs t.0) (r.handles.keyboard.is_set && r.handles.mouse.is_set)
      (run_loop-Owns hs a.events _
        (record { keyboard = o.keyboard; mouse = o.mouse; win_event = o.win_event }))
      o

-- The three kinds of hooks in `t` are installed as often as in `hs`, and no handle is set.
abbrev pub Released : Handles → Handles → Type 0
Released hs t =
    (t.keyboard.installed ≡ hs.keyboard.installed)
    × (t.mouse.installed ≡ hs.mouse.installed)
    × (t.win_event.installed ≡ hs.win_event.installed)
    × (t.keyboard.is_set ≡ false)
    × (t.mouse.is_set ≡ false)
    × (t.win_event.is_set ≡ false)

unregister-Released :
    (hs : Handles) (r : Running) → Owns hs r → Released hs (unregister_running_hooks r.handles)
unfolding unregister_running_hooks clear
unregister-Released hs r o = (
  unhook-installed _ _ o.keyboard,
  unhook-installed _ _ o.mouse,
  unhook-installed _ _ o.win_event,
  refl,
  refl,
  refl,
)

-- On Windows, whatever the system answers and however often the hooks are restarted while it runs,
-- `hook_run` leaves as many hooks of each kind installed as it found, and no handle set.
pub hook_run-Released : (a : RunAnswers) (w : World) → Released w.handles (hook_run a w).0.handles
unfolding hook_run
hook_run-Released a w =
    unregister-Released w.handles _
      (start-Owns a w.handles _ (installed-Owns a w.handles (load_late a w.has_instance w.state)))

-- What `load_input_helper` makes of the state before the hooks are installed: it runs where `hInst` is
-- not set and `GetModuleHandle` finds it.
abbrev pub found_late : RunAnswers → World → HookState
found_late a w =
    if not w.has_instance && a.module_found
    then record (w.state) { rotation = record { vertical = pos 0; horizontal = pos 0 } }
    else w.state

-- The session after the callback got an event with nothing but a type and a time.
abbrev pub told : EventType → ℕ → Session → Session
told type time z =
    dispatch_event
      (record z { event = record (z.event) { time = time; reserved = 0; type = type; mask = 0 } })

-- The state in which the loop begins: the mask is read from the keys, nothing of a wheel's turn is
-- kept, and the callback has got the start event.
abbrev pub loop_start : RunAnswers → HookState → HookState
loop_start a s =
    let s1 = initialize_modifiers a.keys s in
    record s1 {
      rotation = record { vertical = pos 0; horizontal = pos 0 };
      session = told hook_enabled a.start_time s1.session;
    }

load_late-found : (a : RunAnswers) (w : World) → load_late a w.has_instance w.state ≡ found_late a w
unfolding load_late reset_rotation
load_late-found a w = ground arith

-- On Windows, whether `hook_run` succeeds depends on the keyboard and the mouse hook alone. If both
-- are set it succeeds: the mask is read from the keys, the rest of the wheel's rotation is set to
-- 0, the callback gets the start event, and after it what the loop makes of its events and then the
-- stop event. Else the status is the error of `SetWindowsHookEx`, also where `GetModuleHandle`
-- failed before, and the callback gets the stop event without a start event; the rest of the
-- rotation is then set to 0 only where `hInst` is found late.
pub hook_run_status :
    (a : RunAnswers) (w : World)
    → let s = found_late a w in
      let handles = install_hooks a w.handles in
      let ended =
        (if a.keyboard_set && a.mouse_set
          then (run_loop a.events (record { handles = handles; state = loop_start a s })).state
          else s) in
      ((hook_run a w).1 ≡ (
        if a.keyboard_set && a.mouse_set
        then uiohook_success
        else uiohook_error_set_windows_hook_ex))
      × ((hook_run a w).0.state
          ≡ record ended { session = told hook_disabled a.stop_time ended.session })
unfolding hook_run start_loop install_hooks install process_events hook_start_proc hook_stop_proc
    fire_control reset_rotation
hook_run_status a w = rw (load_late-found a w) (ground arith)
