-- ===== src/Darwin/Run/Laws.antt =====
-- src/darwin/input_hook.c: what `hook_run` holds when it returns, and its status.
use libuiohook.Prelude.{
  ℕ, ◌+◌, ◌≡◌, ◌∙◌, Bool, true, false, ◌&&◌, List, [], ◌∷◌, none, some, ◌==◌, arith, if◌then◌else◌,
}
use libuiohook.Event.{
  uiohook_success, uiohook_error_out_of_memory, uiohook_error_axapi_disabled,
  uiohook_error_create_event_port, uiohook_error_create_run_loop_source, uiohook_error_get_runloop,
  uiohook_error_create_observer,
}
use libuiohook.Darwin.Hook.State.{initialize_modifiers}
use libuiohook.Darwin.Run.{
  EventInfo, Held, World, RunAnswers, create_observer, create_source, create_port, create_info,
  create_event_runloop_info, release, destroy_event_runloop_info, create_main_source,
  create_main_observer, create_main_runloop_info, needs_main, run_and_free, start_main,
  allocate_messages, start_hook, hook_run,
}
use libuiohook.Startup.{first_failure}

-- A step that only a loop beside the main one takes.
abbrev pub if_needed : RunAnswers → Bool → Bool
if_needed a done = if needs_main a then done else true

-- The steps of starting the hook, in order, each with the error that its failure makes.
abbrev pub start_steps : RunAnswers → List (Bool × ℕ)
start_steps a =
    (a.accessible, uiohook_error_axapi_disabled)
    ∷ (a.has_loop, uiohook_error_get_runloop)
    ∷ (a.info_allocated, uiohook_error_out_of_memory)
    ∷ (a.port_created, uiohook_error_create_event_port)
    ∷ (a.source_created, uiohook_error_create_run_loop_source)
    ∷ (a.observer_created, uiohook_error_create_observer)
    ∷ (a.keycode_allocated, uiohook_error_out_of_memory)
    ∷ (a.event_allocated, uiohook_error_out_of_memory)
    ∷ (if_needed a a.main_allocated, uiohook_error_out_of_memory)
    ∷ (if_needed a a.main_observer_created, uiohook_error_create_observer)
    ∷ (if_needed a a.main_source_created, uiohook_error_create_run_loop_source)
    ∷ []

main_status :
    (a : RunAnswers) (w : World)
    → w.main ≡ none
    → (create_main_runloop_info a w).1
      ≡ first_failure (
          (a.main_allocated, uiohook_error_out_of_memory)
          ∷ (a.main_observer_created, uiohook_error_create_observer)
          ∷ (a.main_source_created, uiohook_error_create_run_loop_source)
          ∷ [])
unfolding create_main_runloop_info create_main_observer create_main_source
main_status a w h = rw h (ground arith)

start_main_status :
    (a : RunAnswers) (w : World)
    → w.main ≡ none
    → (start_main a w).1
      ≡ first_failure (
          (if_needed a a.main_allocated, uiohook_error_out_of_memory)
          ∷ (if_needed a a.main_observer_created, uiohook_error_create_observer)
          ∷ (if_needed a a.main_source_created, uiohook_error_create_run_loop_source)
          ∷ [])
unfolding start_main run_and_free
start_main_status a w h = ground (arith, main_status a w h)

-- A structure is stored, and the static of the main loop stays.
create_status :
    (a : RunAnswers) (w : World)
    → w.hook ≡ none
    → ((create_event_runloop_info a w).1
        ≡ first_failure (
            (a.info_allocated, uiohook_error_out_of_memory)
            ∷ (a.port_created, uiohook_error_create_event_port)
            ∷ (a.source_created, uiohook_error_create_run_loop_source)
            ∷ (a.observer_created, uiohook_error_create_observer)
            ∷ []))
      × ((create_event_runloop_info a w).0.main ≡ w.main)
unfolding create_event_runloop_info create_info create_port create_source create_observer
create_status a w h = rw h (ground arith)

messages_status :
    (a : RunAnswers) (w : World)
    → w.main ≡ none
    → (allocate_messages a w).1
      ≡ first_failure (
          (a.keycode_allocated, uiohook_error_out_of_memory)
          ∷ (a.event_allocated, uiohook_error_out_of_memory)
          ∷ (if_needed a a.main_allocated, uiohook_error_out_of_memory)
          ∷ (if_needed a a.main_observer_created, uiohook_error_create_observer)
          ∷ (if_needed a a.main_source_created, uiohook_error_create_run_loop_source)
          ∷ [])
unfolding allocate_messages
messages_status a w h = ground (
  arith,
  start_main_status a (record w { held = record (w.held) { blocks = w.held.blocks + 1 + 1 } }) h,
)

-- On macOS, with no hook of before, the status of `hook_run` is the error of the first step that failed,
-- or success. The steps for the main run loop count where the loop is another one and libdispatch is
-- not found.
pub hook_run-first_failure :
    (a : RunAnswers) (w : World)
    → w.hook ≡ none
    → w.main ≡ none
    → (hook_run a w).1 ≡ first_failure (start_steps a)
unfolding hook_run start_hook
hook_run-first_failure a w h m =
    let started : World = record w { state = initialize_modifiers a.starting w.state } in
    let (status, same) = create_status a started h in
    ground (arith, status, messages_status a (create_event_runloop_info a started).0 (same ∙ m))

-- The world of a hook that is fully created, and what it holds beside `held`.
abbrev pub full : EventInfo
full = record { has_port = true; has_source = true; has_observer = true }

abbrev pub with_hook : Held → Held
with_hook held = record {
  blocks = held.blocks + 1;
  ports = held.ports + 1;
  sources = held.sources + 1;
  observers = held.observers + 1;
}

abbrev pub all_created : RunAnswers → Bool
all_created a = a.info_allocated && a.port_created && a.source_created && a.observer_created

pub created :
    (a : RunAnswers) (w : World)
    → w.hook ≡ none
    → all_created a ≡ true
    → create_event_runloop_info a w
      ≡ (record w { hook = some full; held = with_hook w.held }, uiohook_success)
unfolding create_event_runloop_info create_info create_port create_source create_observer
created a w h c = rw h (ground arith)

pub not_created :
    (a : RunAnswers) (w : World)
    → w.hook ≡ none
    → all_created a ≡ false
    → ((destroy_event_runloop_info (create_event_runloop_info a w).0).held ≡ w.held)
      × ((destroy_event_runloop_info (create_event_runloop_info a w).0).hook ≡ none)
      × ((destroy_event_runloop_info (create_event_runloop_info a w).0).main ≡ w.main)
      × (((create_event_runloop_info a w).1 == uiohook_success) ≡ false)
unfolding create_event_runloop_info create_info create_port create_source create_observer
    destroy_event_runloop_info release
not_created a w h c = rw h (ground arith)

abbrev pub main_created : RunAnswers → Bool
main_created a = a.main_allocated && a.main_observer_created && a.main_source_created
