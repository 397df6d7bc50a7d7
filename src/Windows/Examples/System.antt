-- ===== src/Windows/Examples/System.antt =====
-- Monitors and typing on Windows at concrete inputs.
use libuiohook.Prelude.{
  ℕ, ◌≡◌, refl, Bool, true, false, List, [], ◌∷◌, Option, none, some, arith, ℤ, pos, negsuc, ◌==◌,
}
use libuiohook.Screens.{Screens, screen}
use libuiohook.Windows.Screens.{Monitor, ScreenAnswers, hook_create_screen_info}
use libuiohook.Windows.Screens.Laws.{hook_create_screen_info-numbered}
use libuiohook.Windows.Hook.Keys
use libuiohook.Windows.Hook.Proc.{hook_start_proc}
use libuiohook.Windows.Layout.{Locale, Locales}
use libuiohook.Windows.Layout.Current.{IsLinked}
use libuiohook.Windows.Layout.Unicode.{KeyAnswers, wch_none, keycode_to_unicode}
use libuiohook.Windows.Typing.{
  Typist, KeyDown, process_key_pressed, KeyStep, pressed, released, started, stopped, run_steps,
}
use libuiohook.Windows.Typing.Linked.{run_steps-IsLinked}
use libuiohook.Windows.Examples.Hook.{keep, consume, state_with, shift_key}

-- A monitor, one with no area, and one to the left of the first.
abbrev monitor : ℤ → ℤ → Monitor
monitor left right = record {
  left = left;
  top = pos 0;
  right = right;
  bottom = pos 1080;
  granted = true;
}

abbrev screens : ScreenAnswers
screens = record {
  monitors =
      monitor (pos 0) (pos 1920) ∷ monitor (pos 5) (pos 5) ∷ monitor (negsuc 1279) (pos 0) ∷ [];
  status = true;
  width = pos 1920;
  height = pos 1080;
  granted = true;
}

abbrev two_screens : Screens
two_screens = record {
  count = 2;
  cells = some (
      some (record { number = 1; x = 0; y = 0; width = 1920; height = 1080 })
      ∷ some (record { number = 2; x = 64256; y = 0; width = 1280; height = 1080 })
      ∷ []);
  blocks = 1;
}

hook_create_screen_info-numbered_example : hook_create_screen_info screens ≡ some two_screens
unfolding screen libuiohook.Screens.word16 libuiohook.Windows.Screens.width_of
    libuiohook.Windows.Screens.height_of libuiohook.Windows.Screens.has_area libuiohook.Prelude.◌+ℤ◌
hook_create_screen_info-numbered_example =
    hook_create_screen_info-numbered screens (refl, (refl, (refl, tt))) refl (omega arith)

abbrev locale : ℕ → Locale
locale id = record { id = id; vk_to_bit = []; vk_to_wchar_table = []; dead_keys = [] }

-- Layouts 7 and 9 are cached and 9 is current; the window in focus has 7.
abbrev locales : Locales
locales = record { cached = locale 7 ∷ locale 9 ∷ []; current = some 9; dead_char = 0xB4 }

abbrev lookup_answers : KeyAnswers
lookup_answers = record {
  locale_id = 7;
  caps_lock = false;
  is_down = λ k. false;
  layouts = record { layouts = []; focus = 7; load = λ h. none };
}

abbrev key_down : KeyDown
key_down = record { key = shift_key; answers = lookup_answers; stale = (0, 0) }

abbrev typist : Typist
typist = record { locales = locales; hook = state_with consume 0 }

abbrev after : Locales
after = record { cached = locale 7 ∷ locale 9 ∷ []; current = some 7; dead_char = wch_none }

abbrev steps : List KeyStep
steps =
    pressed key_down
    ∷ released shift_key
    ∷ started (record { layouts = 7 ∷ 11 ∷ []; focus = 11; load = λ h. some (locale 0) }) 12
    ∷ []

abbrev typing : Typist
typing = record { locales = locales; hook = state_with keep 0 }

abbrev typed : Typist
typed = record {
  locales = record { cached = locale 7 ∷ locale 11 ∷ []; current = some 11; dead_char = wch_none };
  hook = hook_start_proc 12 (
      Keys.process_key_released shift_key (Keys.process_key_pressed shift_key (state_with keep 0)));
}

run_steps-IsLinked_example : IsLinked typed.locales
unfolding run_steps libuiohook.Windows.Typing.run_step process_key_pressed
    libuiohook.Windows.Typing.type_units libuiohook.Windows.Typing.start_with
    Keys.process_key_pressed keycode_to_unicode libuiohook.Windows.Layout.Unicode.is_current
    libuiohook.Windows.Layout.Unicode.switch_locale libuiohook.Windows.Layout.Unicode.find_locale
    libuiohook.Windows.Layout.Unicode.current_locale libuiohook.Windows.Layout.Unicode.type_key
    libuiohook.Windows.Layout.Unicode.units_of libuiohook.Windows.Layout.Unicode.type_tables
    libuiohook.Windows.Hook.State.not_consumed libuiohook.Windows.Hook.State.fire
    libuiohook.Dispatch.dispatch_event Keys.set_key_modifier Keys.key_modifier
    libuiohook.Windows.Hook.State.set_modifier_mask
    libuiohook.Windows.Layout.Cache.load_input_helper
    libuiohook.Windows.Layout.Cache.refresh_locale_list libuiohook.Windows.Layout.Cache.prune
    libuiohook.Windows.Layout.Cache.mark libuiohook.Windows.Layout.Cache.keep_locale
    libuiohook.Windows.Layout.Cache.focus_on libuiohook.Windows.Layout.Cache.forget
    libuiohook.Windows.Layout.Cache.refill libuiohook.Windows.Layout.Cache.insert
    libuiohook.Dispatch.deliver
run_steps-IsLinked_example = run_steps-IsLinked steps typing typed refl refl
