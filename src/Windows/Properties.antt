-- ===== src/Windows/Properties.antt =====
-- src/windows/system_properties.c: the queries for repeat, pointer and click times, and `DllMain`.
use libuiohook.Prelude.{ℕ, suc, ◌/◌, true, Option, none, some, ℤ, pos, negsuc, neg, ◌+ℤ◌}
use libuiohook.Windows.Run.{World, unregister_running_hooks}

-- What `SystemParametersInfo` writes for each question, if it succeeds: the speed and the delay of the
-- keyboard, the two thresholds and the speed of the mouse, and its sensitivity; and
-- `GetDoubleClickTime`.
pub record PropertyAnswers : Type 0 where
  pub keyboard_speed : Option ℤ
  pub keyboard_delay : Option ℤ
  pub mouse : Option (ℤ × ℤ × ℤ)
  pub mouse_speed : Option ℤ
  pub double_click_time : ℕ

unfoldable pub or_minus_one : Option ℤ → ℤ
or_minus_one none = negsuc 0
or_minus_one (some v) = v

unfoldable pub hook_get_auto_repeat_rate : PropertyAnswers → ℤ
hook_get_auto_repeat_rate a = or_minus_one a.keyboard_speed

unfoldable pub hook_get_auto_repeat_delay : PropertyAnswers → ℤ
hook_get_auto_repeat_delay a = or_minus_one a.keyboard_delay

unfoldable pub hook_get_pointer_acceleration_multiplier : PropertyAnswers → ℤ
hook_get_pointer_acceleration_multiplier a = elim a.mouse [
  | none ↦ negsuc 0
  | some (x, y, speed) ↦ speed
]

-- Division by 2 as C has it, towards 0.
unfoldable pub half : ℤ → ℤ
half (pos n) = pos (n / 2)
half (negsuc n) = neg (pos (suc n / 2))

-- The average of the two thresholds.
unfoldable pub hook_get_pointer_acceleration_threshold : PropertyAnswers → ℤ
hook_get_pointer_acceleration_threshold a = elim a.mouse [
  | none ↦ negsuc 0
  | some (x, y, speed) ↦ half (x +ℤ y)
]

unfoldable pub hook_get_pointer_sensitivity : PropertyAnswers → ℤ
hook_get_pointer_sensitivity a = or_minus_one a.mouse_speed

unfoldable pub hook_get_multi_click_time : PropertyAnswers → ℤ
hook_get_multi_click_time a = pos a.double_click_time

-- The reason for which the library is called; the threads' are one here.
pub data Reason : Type 0 where
  process_attach process_detach thread_change : Reason

-- `DllMain`: `hInst` is set, or the hooks still installed are removed.
unfoldable pub dll_main : Reason → World → World
dll_main process_attach w = record w { has_instance = true }
dll_main process_detach w = record w { handles = unregister_running_hooks w.handles }
dll_main thread_change w = w
