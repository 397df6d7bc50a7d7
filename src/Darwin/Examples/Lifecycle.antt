-- ===== src/Darwin/Examples/Lifecycle.antt =====
-- Starting, stopping and posting on macOS at concrete inputs.
use libuiohook.Prelude.{ℕ, ◌≡◌, refl, Bool, true, false, [], ◌∷◌, none, some, arith}
use libuiohook.Event.{MouseEventData, uiohook_failure, uiohook_error_create_run_loop_source}
use libuiohook.Darwin.Hook.State.{SourceStates}
use libuiohook.Darwin.Hook.Proc.{moved, process_event}
use libuiohook.Darwin.Keymap.{scancode_to_keycode}
use libuiohook.Darwin.Run.{RunAnswers, World, hook_run}
use libuiohook.Darwin.Run.Laws.{hook_run-first_failure}
use libuiohook.Darwin.Run.Release.{Free, hook_run-Free}
use libuiohook.Darwin.Run.Leak.{hook_run_after_leak}
use libuiohook.Darwin.Post.{PostState, cg_key, cg_moved, post_key, is_numeric_pad}
use libuiohook.Darwin.Post.Laws.{posted_key_hooked, tap_key, key_at, key_event}
use libuiohook.Darwin.Examples.{keep, state_with, mouse_at}

abbrev source_states : SourceStates
source_states = record {
  shift_l = true;
  shift_r = false;
  control_l = false;
  control_r = false;
  option_l = false;
  option_r = false;
  command_l = false;
  command_r = false;
  button_l = false;
  button_r = false;
  button_m = false;
  button_x1 = false;
  button_x2 = false;
  alpha_shift = false;
}

-- A loop beside the main one, without libdispatch.
abbrev answers : Bool → Bool → RunAnswers
answers event_allocated main_source_created = record {
  accessible = true;
  has_loop = true;
  starting = source_states;
  info_allocated = true;
  port_created = true;
  source_created = true;
  observer_created = true;
  keycode_allocated = true;
  event_allocated = event_allocated;
  on_main_loop = false;
  dispatch_found = false;
  main_allocated = true;
  stale_source = false;
  main_observer_created = true;
  main_source_created = main_source_created;
  start_time = 3;
  events = moved (mouse_at 6000000000 0) ∷ [];
  stop_time = 9;
}

abbrev world : World
world = record {
  hook = none;
  main = none;
  held = record { blocks = 2; ports = 0; sources = 1; observers = 0 };
  state = state_with 0;
}

hook_run-first_failure_example :
    (hook_run (answers true false) world).1 ≡ uiohook_error_create_run_loop_source
hook_run-first_failure_example = hook_run-first_failure (answers true false) world refl refl

hook_run-Free_example : Free world.held (hook_run (answers true true) world).0
hook_run-Free_example = hook_run-Free (answers true true) world refl refl refl refl refl

hook_run_after_leak_example :
    ((hook_run (answers true true) (hook_run (answers false true) world).0).1 ≡ uiohook_failure)
    × ((hook_run (answers true true) (hook_run (answers false true) world).0).0.hook ≡ none)
hook_run_after_leak_example =
    hook_run_after_leak (answers false true) (answers true true) world refl refl refl refl refl

abbrev post_state : PostState
post_state = record {
  modifiers = record { shift = false; control = false; command = false; alternate = false };
  motion_event = cg_moved;
  motion_button = 0;
}

abbrev button : ℕ → MouseEventData
button b = record { button = b; clicks = 0; x = 10; y = 20 }

-- The letter a.
posted_key_hooked_example :
    ((post_key true true 0x1E post_state).posted
      ≡ some (cg_key 0x00 true (post_key true true 0x1E post_state).state.modifiers false))
    × ((process_event (tap_key true (key_at 7 0x00)) (state_with 0)).session.sent
        ≡ key_event true 7 0x1E (state_with 0) ∷ [])
unfolding scancode_to_keycode is_numeric_pad
posted_key_hooked_example =
    posted_key_hooked true 0x1E 7 post_state (state_with 0) keep (omega arith)
      (λ e. omega (arith, e)) refl
