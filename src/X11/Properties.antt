-- ===== src/X11/Properties.antt =====
-- src/x11/system_properties.c: the queries for repeat, pointer and click times.
pub mod Laws
use libuiohook.Prelude.{
  ℕ, Bool, true, false, ◌&&◌, not, Option, none, some, ℤ, pos, negsuc, leb_ℤ, if◌then◌else◌,
}

-- What `XkbGetAutoRepeatRate` writes, if it succeeds: the delay and the rate. The extension that can be
-- asked next is not in the build.
abbrev pub RepeatAnswer : Type 0
RepeatAnswer = Option (ℕ × ℕ)

-- `helper_disp` is not NULL.
unfoldable pub repeat_value : Bool → RepeatAnswer → (ℕ × ℕ → ℕ) → ℤ
repeat_value has_display none pick = negsuc 0
repeat_value has_display (some answer) pick = if has_display then pos (pick answer) else negsuc 0

unfoldable pub hook_get_auto_repeat_rate : Bool → RepeatAnswer → ℤ
hook_get_auto_repeat_rate has_display a = repeat_value has_display a (λ answer. answer.1)

unfoldable pub hook_get_auto_repeat_delay : Bool → RepeatAnswer → ℤ
hook_get_auto_repeat_delay has_display a = repeat_value has_display a (λ answer. answer.0)

-- `XGetPointerControl`.
pub record PointerControl : Type 0 where
  pub accel_numerator : ℤ
  pub accel_denominator : ℤ
  pub threshold : ℤ

unfoldable pub pointer_value : Bool → ℤ → ℤ
pointer_value has_display v =
    if has_display then (if leb_ℤ (pos 0) v then v else negsuc 0) else negsuc 0

unfoldable pub hook_get_pointer_acceleration_multiplier : Bool → PointerControl → ℤ
hook_get_pointer_acceleration_multiplier has_display a =
    pointer_value has_display a.accel_denominator

unfoldable pub hook_get_pointer_acceleration_threshold : Bool → PointerControl → ℤ
hook_get_pointer_acceleration_threshold has_display a = pointer_value has_display a.threshold

unfoldable pub hook_get_pointer_sensitivity : Bool → PointerControl → ℤ
hook_get_pointer_sensitivity has_display a = pointer_value has_display a.accel_numerator

-- An X default as `XGetDefault` finds it and `sscanf` reads it: no default, an empty one, for which
-- `sscanf` gives EOF, one that is no number, or one whose first four characters are a number.
pub data Default : Type 0 where
  missing empty unreadable : Default
  number : ℤ → Default

-- What is asked: `XtGetMultiClickTime`, unless `xt_disp` is NULL; and the two defaults, unless
-- `helper_disp` is NULL.
pub record ClickAnswers : Type 0 where
  pub toolkit : Option ℤ
  pub has_display : Bool
  pub any_program : Default
  pub open_windows : Default

-- `click_time`, none while it was never assigned, and `successful`.
pub record Click : Type 0 where
  pub click_time : Option ℤ
  pub is_successful : Bool

unfoldable pub ask_toolkit : Option ℤ → Click → Click
ask_toolkit none c = c
ask_toolkit (some t) c = record { click_time = some t; is_successful = leb_ℤ (pos 0) t }

-- `sscanf` counts as a success where it gives 0, and then leaves `click_time`.
unfoldable pub read_default : Default → Click → Click
read_default missing c = c
read_default empty c = c
read_default unreadable c = record c { is_successful = true }
read_default (number t) c = record { click_time = some t; is_successful = true }

unfoldable pub ask_default : Bool → Default → Click → Click
ask_default has_display d c = if has_display && not c.is_successful then read_default d c else c

-- The value, none where it is read from a variable that was never assigned.
unfoldable pub hook_get_multi_click_time : ClickAnswers → Option ℤ
hook_get_multi_click_time a =
    let c = ask_default a.has_display a.open_windows (
      ask_default a.has_display a.any_program
        (ask_toolkit a.toolkit (record { click_time = none; is_successful = false }))) in
    if c.is_successful then c.click_time else some (pos 200)
