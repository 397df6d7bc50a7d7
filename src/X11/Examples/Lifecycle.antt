-- ===== src/X11/Examples/Lifecycle.antt =====
-- Keymaps, characters, starting and stopping, and posting at concrete inputs.
use libuiohook.Prelude.{
  ℕ, zero, suc, ◌≡◌, refl, inr, Bool, true, false, List, [], ◌∷◌, some, arith, negsuc,
}
use libuiohook.Event.{EventType, uiohook_error_x_record_alloc_range}
use libuiohook.Event.Masks.{wheel_horizontal_direction}
use libuiohook.X11.Keymap.Lookup.{keycode_to_scancode, scancode_to_keycode}
use libuiohook.X11.Keymap.RoundTrip.{scancode_to_keycode-keycode_to_scancode}
use libuiohook.X11.Helper.State.{LoadAnswers, evdev_layout}
use libuiohook.X11.Hook.Startup.{StartAnswers}
use libuiohook.X11.Hook.Proc.{end_of_data}
use libuiohook.X11.Xkb.{XkbAnswers, References}
use libuiohook.X11.Run.{RunAnswers, World, hook_run}
use libuiohook.X11.Run.Laws.{hook_run_outcome}
use libuiohook.X11.Post.{PostedEvent}
use libuiohook.X11.Post.Laws.{MapsNothing}
use libuiohook.X11.Hook.Keys.{KeyInput}
use libuiohook.X11.Examples.{start_helper, keep, session_with, num_led}

-- The native code 38 of evdev is the letter a.
scancode_to_keycode-keycode_to_scancode_example :
    scancode_to_keycode true (keycode_to_scancode true 38) ≡ 38
unfolding keycode_to_scancode
scancode_to_keycode-keycode_to_scancode_example =
    scancode_to_keycode-keycode_to_scancode true 38 (omega arith) (λ e. omega (arith, e))
      (inr (λ e. omega (arith, e)))

-- The left shift key, of native code 50, is down at the start.
abbrev start_answers : StartAnswers
start_answers = record {
  keymap = 0 ∷ 0 ∷ 0 ∷ 0 ∷ 0 ∷ 0 ∷ 4 ∷ [];
  pointer = some 0x101;
  keycodes = record {
    shift_l = 50;
    shift_r = 62;
    control_l = 37;
    control_r = 105;
    alt_l = 64;
    alt_r = 108;
    super_l = 133;
    super_r = 134;
  };
  leds = num_led;
}

-- The context is made, and no state of the keyboard.
abbrev xkb_answers : XkbAnswers
xkb_answers = record {
  connected = true;
  context_made = true;
  context_left = true;
  keymap_made = true;
  state_made = false;
}

abbrev no_references : References
no_references = record { contexts = 0; keymaps = 0; states = 0; strays = 0 }

abbrev run_answers : Bool → RunAnswers
run_answers range_allocated = record {
  allocated = true;
  ctrl_opened = true;
  data_opened = true;
  xkb = xkb_answers;
  start = start_answers;
  version_found = true;
  range_allocated = range_allocated;
  context_created = true;
  context_enabled = true;
  recorded = end_of_data 9 ∷ [];
}

abbrev world : World
world = record {
  held = record { hooks = 0; displays = 0; ranges = 0; contexts = 0; xkb = no_references };
  session = session_with keep;
  helper = start_helper;
}

hook_run_outcome_example :
    ((hook_run (run_answers false) world).1 ≡ uiohook_error_x_record_alloc_range)
    × ((hook_run (run_answers false) world).0.session ≡ session_with keep)
    × ((hook_run (run_answers false) world).0.helper ≡ start_helper)
hook_run_outcome_example = hook_run_outcome (run_answers false) world

abbrev load_answers : LoadAnswers
load_answers = record { allocated = true; layout = some evdev_layout; map_found = true }

-- A mapping of three buttons that maps none of them.
abbrev plain_mapping : List ℕ
plain_mapping = 1 ∷ 2 ∷ 3 ∷ []

plain_mapping-MapsNothing : MapsNothing plain_mapping
plain_mapping-MapsNothing zero lo hi = absurd (omega arith)
plain_mapping-MapsNothing (suc zero) lo hi = refl
plain_mapping-MapsNothing (suc (suc zero)) lo hi = refl
plain_mapping-MapsNothing (suc (suc (suc zero))) lo hi = refl
plain_mapping-MapsNothing (suc (suc (suc (suc b)))) lo hi = absurd (omega arith)

abbrev posted : EventType → ℕ → ℕ → PostedEvent
posted type keycode button = record {
  type = type;
  keyboard = record { keycode = keycode; rawcode = 0; keychar = 0 };
  mouse = record { button = button; clicks = 0; x = 10; y = 20 };
  wheel = record {
    clicks = 1;
    x = 10;
    y = 20;
    type = 1;
    amount = 3;
    rotation = negsuc 4;
    direction = wheel_horizontal_direction;
  };
}

-- The letter a, of native code 38, with num lock on.
abbrev letter : KeyInput
letter = record {
  time = 7;
  keycode = 38;
  state = true;
  keysym = 0x61;
  utf32 = 0x61;
  leds = num_led;
}
