-- ===== src/Windows/Examples/Lifecycle.antt =====
-- Starting and stopping on Windows at concrete inputs.
use libuiohook.Prelude.{◌≡◌, Bool, true, false, List, [], ◌∷◌}
use libuiohook.Event.{uiohook_error_set_windows_hook_ex}
use libuiohook.Windows.Hook.State.{KeyStates}
use libuiohook.Windows.Hook.Proc.{fire_control, hook_stop_proc, keyboard_message, key_up}
use libuiohook.Windows.Run.{
  Handle, World, RunAnswers, LoopEvent, hook_message, window_event, name_change, hook_run,
}
use libuiohook.Windows.Run.Laws.{Released, hook_run-Released, hook_run_status}
use libuiohook.Windows.Examples.Hook.{keep, state_with, shift_key}

-- The left shift key is down.
abbrev keys : KeyStates
keys = record {
  shift_l = true;
  shift_r = false;
  control_l = false;
  control_r = false;
  menu_l = false;
  menu_r = false;
  win_l = false;
  win_r = false;
  button_l = false;
  button_r = false;
  button_m = false;
  button_x1 = false;
  button_x2 = false;
  num_lock = false;
  capital = false;
  scroll = false;
}

abbrev handle : Handle
handle = record { is_set = false; installed = 1 }

abbrev world : World
world = record {
  has_instance = false;
  handles = record { keyboard = handle; mouse = handle; win_event = handle };
  state = state_with keep 0;
}

-- A restart that loses the mouse hook, between two messages.
abbrev events : List LoopEvent
events =
    hook_message (keyboard_message false (key_up shift_key))
    ∷ window_event (name_change (record { keyboard_set = true; mouse_set = false; keys = keys }))
    ∷ hook_message (keyboard_message false (key_up shift_key))
    ∷ []

abbrev answers : Bool → RunAnswers
answers mouse_set = record {
  module_found = false;
  keyboard_set = true;
  mouse_set = mouse_set;
  win_event_set = true;
  keys = keys;
  events = events;
  start_time = 3;
  stop_time = 9;
}

hook_run-Released_example : Released world.handles (hook_run (answers true) world).0.handles
hook_run-Released_example = hook_run-Released (answers true) world

hook_run_status_example :
    ((hook_run (answers false) world).1 ≡ uiohook_error_set_windows_hook_ex)
    × ((hook_run (answers false) world).0.state ≡ hook_stop_proc 9 (state_with keep 0))
unfolding hook_stop_proc fire_control
hook_run_status_example = hook_run_status (answers false) world
