-- ===== src/Darwin/Properties.antt =====
-- src/darwin/system_properties.c: the queries for repeat, pointer and click times, with the preferences
-- of ApplicationServices and the parameters of IOKit. A fraction is in 65536ths, and what the source
-- computes in floating point is computed exactly.
pub mod Laws
use libuiohook.Prelude.{
  ℕ, suc, ◌+◌, ◌-◌, ◌*◌, ◌/◌, Bool, true, false, ◌||◌, Option, none, some, ltb_ℤ, ℤ, pos, negsuc,
  neg, ◌+ℤ◌, ◌*ℤ◌, if◌then◌else◌,
}

-- `CFPreferencesCopyValue` or `IOHIDCopyCFTypeParameter`: NULL or an error, an object that is no number
-- or cannot be read as one, or an object with a number.
pub data Property : Type 0 where
  missing unreadable : Property
  number : ℤ → Property

-- `value`, `successful`, and how many objects of the system are still held.
pub record Query : Type 0 where
  pub value : ℤ
  pub is_successful : Bool
  pub held : ℕ

abbrev pub unanswered : Query
unanswered = record { value = negsuc 0; is_successful = false; held = 0 }

-- A question, unless `successful` is set: the object is copied, read and released. `marks` is whether
-- the code for this question sets `successful`.
unfoldable pub consult : Bool → (ℤ → ℤ) → Property → Query → Query
consult marks convert missing q = q
consult marks convert unreadable q =
    if q.is_successful then q else record q { held = q.held + 1 - 1 }
consult marks convert (number v) q =
    if q.is_successful
    then q
    else record { value = convert v; is_successful = marks; held = q.held + 1 - 1 }

-- Division by a number above 0 as C has it, towards 0.
unfoldable pub divide : ℤ → ℕ → ℤ
divide (pos n) d = pos (n / d)
divide (negsuc n) d = neg (pos (suc n / d))

-- From the position of the slider to milliseconds.
unfoldable pub slider_ms : ℤ → ℤ
slider_ms v = v *ℤ pos 15

-- `(long) (900 * v / 1000.0 / 1000.0 / 1000.0 + 0.5)`.
unfoldable pub ticks_ms : ℤ → ℤ
ticks_ms v = divide (v *ℤ pos 900 +ℤ pos 500000000) 1000000000

-- The preference and the parameter for the same property.
pub record Sources : Type 0 where
  pub preference : Property
  pub parameter : Property

unfoldable pub repeat_time : Sources → Query
repeat_time a = consult true ticks_ms a.parameter (consult true slider_ms a.preference unanswered)

unfoldable pub hook_get_auto_repeat_rate : Sources → Query
hook_get_auto_repeat_rate a = repeat_time a

unfoldable pub hook_get_auto_repeat_delay : Sources → Query
hook_get_auto_repeat_delay a = repeat_time a

-- `sensitivity * MOUSE_ACCELERATION_MULTIPLIER` is the number of 65536ths; IOKit's number is cut.
unfoldable pub hook_get_pointer_sensitivity : Sources → Query
hook_get_pointer_sensitivity a =
    consult true (λ v. divide v 65536) a.parameter (consult false (λ v. v) a.preference unanswered)

unfoldable pub hook_get_pointer_acceleration_multiplier : Sources → ℤ
hook_get_pointer_acceleration_multiplier a =
    if ltb_ℤ (hook_get_pointer_sensitivity a).value (pos 0) then pos 0 else pos 65536

unfoldable pub hook_get_pointer_acceleration_threshold : Sources → ℤ
hook_get_pointer_acceleration_threshold a =
    if ltb_ℤ (hook_get_pointer_sensitivity a).value (pos 0) then pos 0 else pos 1

-- Seconds or nanoseconds to milliseconds.
unfoldable pub seconds_ms : ℤ → ℤ
seconds_ms v = divide (v *ℤ pos 1000) 65536

unfoldable pub nanoseconds_ms : ℤ → ℤ
nanoseconds_ms v = divide v 65536000000

unfoldable pub hook_get_multi_click_time : Sources → Query
hook_get_multi_click_time a =
    consult true nanoseconds_ms a.parameter (consult false seconds_ms a.preference unanswered)

-- `on_library_load` and `on_library_unload`: the connection to IOKit, if the service is found and
-- opened, and how many are open.
pub record Connection : Type 0 where
  pub is_set : Bool
  pub opened : ℕ

unfoldable pub on_library_load : Bool → Bool → Connection → Connection
on_library_load found opens c =
    if found then (if opens then record { is_set = true; opened = c.opened + 1 } else c) else c

unfoldable pub on_library_unload : Connection → Connection
on_library_unload c = if c.is_set then record c { opened = c.opened - 1 } else c
