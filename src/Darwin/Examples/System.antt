-- ===== src/Darwin/Examples/System.antt =====
-- The system's properties and the characters of keys on macOS at concrete inputs.
use libuiohook.Prelude.{
  ℕ, ◌+◌, ◌≡◌, refl, true, [], ◌∷◌, some, arith, pos, negsuc, ◌==◌, if◌then◌else◌,
}
use libuiohook.Darwin.Screens.{Bounds, ScreenAnswers, hook_create_screen_info}
use libuiohook.Darwin.Screens.Laws.{Answers, hook_create_screen_info-Answers}
use libuiohook.Darwin.Properties.{
  Sources, unreadable, number, slider_ms, seconds_ms, hook_get_auto_repeat_rate,
  hook_get_auto_repeat_delay, hook_get_pointer_sensitivity, hook_get_multi_click_time,
}
use libuiohook.Darwin.Properties.Laws.{properties_first_of}
use libuiohook.Darwin.Text.{
  InputSource, Translation, KeyAnswers, TextState, unload_input_helper, run_keys,
}
use libuiohook.Darwin.Text.Laws.{run_keys_released}

-- Two displays, of which the second has no area.
abbrev bounds : ℕ → Bounds
bounds i = record {
  x = negsuc 65535;
  y = pos 0;
  width = if i == 0 then pos 134217728 else pos 0;
  height = pos 67108864;
}

abbrev screens : ScreenAnswers
screens = record {
  written = some 2;
  success = true;
  bounds = bounds;
  width = 2048;
  height = 1024;
  ids_granted = true;
  granted = true;
}

hook_create_screen_info-Answers_example :
    Answers (0 ∷ 0 ∷ 0 ∷ []) (hook_create_screen_info screens (7 ∷ 8 ∷ 9 ∷ []))
hook_create_screen_info-Answers_example =
    hook_create_screen_info-Answers screens (7 ∷ 8 ∷ 9 ∷ []) (omega arith)

abbrev sources : Sources
sources = record { preference = number (pos 6); parameter = unreadable }

properties_first_of_example :
    ((hook_get_auto_repeat_rate sources).value ≡ slider_ms (pos 6))
    × ((hook_get_auto_repeat_delay sources).value ≡ slider_ms (pos 6))
    × ((hook_get_pointer_sensitivity sources).value ≡ pos 6)
    × ((hook_get_multi_click_time sources).value ≡ seconds_ms (pos 6))
    × ((hook_get_auto_repeat_rate sources).held ≡ 0)
    × ((hook_get_auto_repeat_delay sources).held ≡ 0)
    × ((hook_get_pointer_sensitivity sources).held ≡ 0)
    × ((hook_get_multi_click_time sources).held ≡ 0)
properties_first_of_example = properties_first_of sources

-- A French layout, on which a dead key leaves its state and writes nothing.
abbrev french : InputSource
french = record { id = 2; is_source = true; has_layout = true; has_bytes = true }

abbrev translate : ℕ → ℕ → ℕ → ℕ → Translation
translate layout key modifiers dead =
    if key == 33
    then record { success = true; units = []; deadkey_state = 5 }
    else record { success = true; units = (key + dead) ∷ []; deadkey_state = 0 }

abbrev key : ℕ → KeyAnswers
key keycode = record {
  is_main = true;
  source = some french;
  keycode = keycode;
  flags = 0x20000;
  translate = translate;
  uppercase = λ units. some units;
}

-- The layout before was another one, with a dead key typed on it.
abbrev text : TextState
text = record { deadkey_state = 5; prev = some 1; references = 1 }

run_keys_released_example :
    (unload_input_helper (run_keys (key 33 ∷ key 65 ∷ []) text)).references ≡ 0
run_keys_released_example = run_keys_released 0 (key 33 ∷ key 65 ∷ []) text refl
