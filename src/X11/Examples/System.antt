-- ===== src/X11/Examples/System.antt =====
-- The system's properties on X11 at concrete inputs.
use libuiohook.Prelude.{◌≡◌, true, List, [], ◌∷◌, Option, none, some, pos, negsuc}
use libuiohook.X11.Screens.{Area, xrandr, ScreenAnswers}
use libuiohook.X11.Properties.{ClickAnswers, unreadable, number, hook_get_multi_click_time}
use libuiohook.X11.Properties.Laws.{hook_get_multi_click_time-first_time}

abbrev area : Area
area = record { number = 0; x = negsuc 99; y = pos 0; width = pos 1920; height = pos 1080 }

-- Two controllers, of which the first has no information.
abbrev crtcs : List (Option Area)
crtcs = none ∷ some area ∷ []

abbrev screens : ScreenAnswers
screens = record { has_display = true; source = xrandr (some crtcs); granted = true }

-- The toolkit answers with an error, and the first default is no number.
abbrev clicks : ClickAnswers
clicks = record {
  toolkit = some (negsuc 0);
  has_display = true;
  any_program = unreadable;
  open_windows = number (pos 300);
}

hook_get_multi_click_time-first_time_example : hook_get_multi_click_time clicks ≡ some (negsuc 0)
hook_get_multi_click_time-first_time_example = hook_get_multi_click_time-first_time clicks
