-- ===== src/Darwin/Properties/Laws.antt =====
-- src/darwin/system_properties.c: which of the two answers a property is.
use libuiohook.Prelude.{◌≡◌, refl, Bool, true, false, ℤ, negsuc, Option, none, some}
use libuiohook.Darwin.Properties.{
  Property, missing, unreadable, number, Query, unanswered, consult, Sources, slider_ms, ticks_ms,
  seconds_ms, nanoseconds_ms, divide, repeat_time, hook_get_auto_repeat_rate,
  hook_get_auto_repeat_delay, hook_get_pointer_sensitivity, hook_get_multi_click_time,
}

-- The number that a source gives, converted.
abbrev pub answer : (ℤ → ℤ) → Property → Option ℤ
answer convert missing = none
answer convert unreadable = none
answer convert (number v) = some (convert v)

-- The first of two answers, and else -1.
abbrev pub first_of : Option ℤ → Option ℤ → ℤ
first_of (some v) other = v
first_of none (some v) = v
first_of none none = negsuc 0

abbrev ask : Bool → (ℤ → ℤ) → (ℤ → ℤ) → Property → Property → Query
ask marks f g p q = consult true g q (consult marks f p unanswered)

-- Both questions set `successful`: the preference comes first.
ask_marked :
    (f g : ℤ → ℤ) (p q : Property)
    → ((ask true f g p q).value ≡ first_of (answer f p) (answer g q))
      × ((ask true f g p q).held ≡ 0)
unfolding consult
ask_marked f g missing missing = (refl, refl)
ask_marked f g missing unreadable = (refl, refl)
ask_marked f g missing (number w) = (refl, refl)
ask_marked f g unreadable missing = (refl, refl)
ask_marked f g unreadable unreadable = (refl, refl)
ask_marked f g unreadable (number w) = (refl, refl)
ask_marked f g (number v) missing = (refl, refl)
ask_marked f g (number v) unreadable = (refl, refl)
ask_marked f g (number v) (number w) = (refl, refl)

ask_unmarked :
    (f g : ℤ → ℤ) (p q : Property)
    → ((ask false f g p q).value ≡ first_of (answer g q) (answer f p))
      × ((ask false f g p q).held ≡ 0)
unfolding consult
ask_unmarked f g missing missing = (refl, refl)
ask_unmarked f g missing unreadable = (refl, refl)
ask_unmarked f g missing (number w) = (refl, refl)
ask_unmarked f g unreadable missing = (refl, refl)
ask_unmarked f g unreadable unreadable = (refl, refl)
ask_unmarked f g unreadable (number w) = (refl, refl)
ask_unmarked f g (number v) missing = (refl, refl)
ask_unmarked f g (number v) unreadable = (refl, refl)
ask_unmarked f g (number v) (number w) = (refl, refl)

-- On macOS the repeat rate and delay are those of the preferences, and only without them those of the
-- system's parameters; the sensitivity and the multi-click time are those of the parameters, and only
-- without them those of the preferences. Without either the value is -1. All that was copied is
-- released.
pub properties_first_of :
    (a : Sources)
    → ((hook_get_auto_repeat_rate a).value
        ≡ first_of (answer slider_ms a.preference) (answer ticks_ms a.parameter))
      × ((hook_get_auto_repeat_delay a).value
          ≡ first_of (answer slider_ms a.preference) (answer ticks_ms a.parameter))
      × ((hook_get_pointer_sensitivity a).value
          ≡ first_of (answer (λ v. divide v 65536) a.parameter) (answer (λ v. v) a.preference))
      × ((hook_get_multi_click_time a).value
          ≡ first_of (answer nanoseconds_ms a.parameter) (answer seconds_ms a.preference))
      × ((hook_get_auto_repeat_rate a).held ≡ 0)
      × ((hook_get_auto_repeat_delay a).held ≡ 0)
      × ((hook_get_pointer_sensitivity a).held ≡ 0)
      × ((hook_get_multi_click_time a).held ≡ 0)
unfolding hook_get_auto_repeat_rate hook_get_auto_repeat_delay repeat_time
    hook_get_pointer_sensitivity hook_get_multi_click_time
properties_first_of a =
    let rate = ask_marked slider_ms ticks_ms a.preference a.parameter in
    let speed = ask_unmarked (λ v. v) (λ v. divide v 65536) a.preference a.parameter in
    let click = ask_unmarked seconds_ms nanoseconds_ms a.preference a.parameter in
    (rate.0, rate.0, speed.0, click.0, rate.1, rate.1, speed.1, click.1)
