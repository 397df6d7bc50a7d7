-- ===== src/Darwin/Run.antt =====
-- src/darwin/input_hook.c: the life of the hook: `hook_run` with what it creates and destroys, and
-- `hook_stop`, as they are compiled with USE_APPLICATION_SERVICES and USE_OBJC. What the system answers
-- is an argument.
pub mod Laws
pub mod Release
pub mod Leak
use libuiohook.Prelude.{
  ℕ, ◌+◌, ◌-◌, Bool, true, false, ◌||◌, List, Option, none, some, ◌==◌, if◌then◌else◌,
}
use libuiohook.Event.{
  uiohook_success, uiohook_failure, uiohook_error_out_of_memory, uiohook_error_axapi_disabled,
  uiohook_error_create_event_port, uiohook_error_create_run_loop_source, uiohook_error_get_runloop,
  uiohook_error_create_observer,
}
use libuiohook.Darwin.Hook.State.{HookState, SourceStates, initialize_modifiers}
use libuiohook.Darwin.Hook.Proc.{TapEvent, loop_entry, loop_exit, hook_status_proc, run_events}

-- `event_runloop_info` and `main_runloop_info`: which members are not NULL.
pub record EventInfo : Type 0 where
  pub has_port : Bool
  pub has_source : Bool
  pub has_observer : Bool

pub record MainInfo : Type 0 where
  pub has_source : Bool
  pub has_observer : Bool

-- What the library holds: memory blocks, ports, run-loop sources and observers.
pub record Held : Type 0 where
  pub blocks : ℕ
  pub ports : ℕ
  pub sources : ℕ
  pub observers : ℕ

-- The statics `hook` and `main_runloop_keycode`, and the state of the hook.
pub record World : Type 0 where
  pub hook : Option EventInfo
  pub main : Option MainInfo
  pub held : Held
  pub state : HookState

pub record RunAnswers : Type 0 where
  -- `is_accessibility_enabled` and `CFRunLoopGetCurrent`.
  pub accessible : Bool
  pub has_loop : Bool
  pub starting : SourceStates
  -- `calloc` of the structure, `CGEventTapCreate`, `CFMachPortCreateRunLoopSource` and
  -- `CFRunLoopObserverCreate`.
  pub info_allocated : Bool
  pub port_created : Bool
  pub source_created : Bool
  pub observer_created : Bool
  -- `calloc` of the two messages.
  pub keycode_allocated : Bool
  pub event_allocated : Bool
  -- Whether the loop is the main one, and whether `dlsym` finds both symbols.
  pub on_main_loop : Bool
  pub dispatch_found : Bool
  -- `malloc` of the structure for the main loop, whether the memory reads as a source before one is
  -- stored, and the creation of its observer and source.
  pub main_allocated : Bool
  pub stale_source : Bool
  pub main_observer_created : Bool
  pub main_source_created : Bool
  -- What happens while the loop runs, from its entry to its exit.
  pub start_time : ℕ
  pub events : List TapEvent
  pub stop_time : ℕ

-- `create_event_runloop_info` from its last step to its first.
unfoldable pub create_observer : RunAnswers → World → World × ℕ
create_observer a w =
    if a.observer_created
    then (
      record w {
        hook = some (record { has_port = true; has_source = true; has_observer = true });
        held = record (w.held) { observers = w.held.observers + 1 };
      },
      uiohook_success,
    )
    else (w, uiohook_error_create_observer)

unfoldable pub create_source : RunAnswers → World → World × ℕ
create_source a w =
    let w1 : World = record w {
      hook = some (record { has_port = true; has_source = true; has_observer = false });
      held = record (w.held) { sources = w.held.sources + 1 };
    } in
    if a.source_created then create_observer a w1 else (w, uiohook_error_create_run_loop_source)

unfoldable pub create_port : RunAnswers → World → World × ℕ
create_port a w =
    let w1 : World = record w {
      hook = some (record { has_port = true; has_source = false; has_observer = false });
      held = record (w.held) { ports = w.held.ports + 1 };
    } in
    if a.port_created then create_source a w1 else (w, uiohook_error_create_event_port)

unfoldable pub create_info : RunAnswers → World → World × ℕ
create_info a w =
    let w1 : World = record w {
      hook = some (record { has_port = false; has_source = false; has_observer = false });
      held = record (w.held) { blocks = w.held.blocks + 1 };
    } in
    if a.info_allocated then create_port a w1 else (w, uiohook_error_out_of_memory)

unfoldable pub create_event_runloop_info : RunAnswers → World → World × ℕ
create_event_runloop_info a w = elim w.hook [
  | none ↦ create_info a w
  | some info ↦ (w, uiohook_failure)
]

unfoldable pub release : Bool → ℕ → ℕ
release held count = if held then count - 1 else count

unfoldable pub destroy_event_runloop_info : World → World
destroy_event_runloop_info w = elim w.hook [
  | none ↦ w
  | some info ↦ record w {
    hook = none;
    held = record {
      blocks = w.held.blocks - 1;
      ports = release info.has_port w.held.ports;
      sources = release info.has_source w.held.sources;
      observers = release info.has_observer w.held.observers;
    };
  }
]

-- `create_main_runloop_info` in the same way. `malloc` leaves the source of the structure as it was.
unfoldable pub create_main_source : RunAnswers → World → World × ℕ
create_main_source a w =
    if a.main_source_created
    then (
      record w {
        main = some (record { has_source = true; has_observer = true });
        held = record (w.held) { sources = w.held.sources + 1 };
      },
      uiohook_success,
    )
    else (
      record w { main = some (record { has_source = false; has_observer = true }) },
      uiohook_error_create_run_loop_source,
    )

unfoldable pub create_main_observer : RunAnswers → World → World × ℕ
create_main_observer a w =
    let w1 : World = record w {
      main = some (record { has_source = a.stale_source; has_observer = true });
      held = record (w.held) { observers = w.held.observers + 1 };
    } in
    if a.main_observer_created then create_main_source a w1 else (
      record w { main = some (record { has_source = a.stale_source; has_observer = false }) },
      uiohook_error_create_observer,
    )

unfoldable pub create_main_runloop_info : RunAnswers → World → World × ℕ
create_main_runloop_info a w =
    let w1 : World = record w { held = record (w.held) { blocks = w.held.blocks + 1 } } in
    elim w.main [
      | none ↦
          if a.main_allocated then create_main_observer a w1 else (w, uiohook_error_out_of_memory)
      | some info ↦ (w, uiohook_failure)
    ]

unfoldable pub destroy_main_runloop_info : World → World
destroy_main_runloop_info w = elim w.main [
  | none ↦ w
  | some info ↦ record w {
    main = none;
    held = record (w.held) {
      blocks = w.held.blocks - 1;
      sources = release info.has_source w.held.sources;
      observers = release info.has_observer w.held.observers;
    };
  }
]

-- `CFRunLoopRun`: the observer is told of the entry and the exit.
unfoldable pub run_loop : RunAnswers → HookState → HookState
run_loop a s =
    hook_status_proc loop_exit a.stop_time
      (run_events a.events (hook_status_proc loop_entry a.start_time s))

-- Typed keys are looked up on the main loop itself or through libdispatch.
abbrev pub needs_main : RunAnswers → Bool
needs_main a = if a.on_main_loop || a.dispatch_found then false else true

-- From the start of the loop to the end of `hook_run`.
unfoldable pub run_and_free : RunAnswers → World → World × ℕ
run_and_free a w =
    let w1 : World = record w { state = run_loop a w.state } in
    let w2 = if needs_main a then destroy_main_runloop_info w1 else w1 in
    let w3 : World = record w2 { held = record (w2.held) { blocks = w2.held.blocks - 1 - 1 } } in
    (destroy_event_runloop_info w3, uiohook_success)

unfoldable pub start_main : RunAnswers → World → World × ℕ
start_main a w =
    let made = create_main_runloop_info a w in
    if needs_main a
    then (if made.1 == uiohook_success
        then run_and_free a made.0
        else (destroy_main_runloop_info made.0, made.1))
    else run_and_free a w

unfoldable pub allocate_messages : RunAnswers → World → World × ℕ
allocate_messages a w =
    let w1 : World = record w { held = record (w.held) { blocks = w.held.blocks + 1 } } in
    let w2 : World = record w1 { held = record (w1.held) { blocks = w1.held.blocks + 1 } } in
    if a.keycode_allocated
    then (if a.event_allocated then start_main a w2 else (w1, uiohook_error_out_of_memory))
    else (w, uiohook_error_out_of_memory)

unfoldable pub start_hook : RunAnswers → World → World × ℕ
start_hook a w =
    let made =
      create_event_runloop_info a (record w { state = initialize_modifiers a.starting w.state }) in
    if made.1 == uiohook_success
    then allocate_messages a made.0
    else (destroy_event_runloop_info made.0, made.1)

unfoldable pub hook_run : RunAnswers → World → World × ℕ
hook_run a w =
    if a.accessible
    then (if a.has_loop then start_hook a w else (w, uiohook_error_get_runloop))
    else (w, uiohook_error_axapi_disabled)

-- `has_mode` is that `CFRunLoopCopyCurrentMode` is not NULL.
unfoldable pub hook_stop : Bool → ℕ
hook_stop has_mode = if has_mode then uiohook_success else uiohook_failure
