-- ===== src/Windows/Examples.antt =====
-- The theorems on the Windows code at concrete inputs.
mod Hook
mod Posting
mod Lifecycle
mod System
mod Layouts
use libuiohook.Prelude.{
  ℕ, ◌≡◌, ◌≢◌, ◌+◌, ◌*◌, refl, false, List, [], ◌∷◌, arith, ℤ, pos, negsuc, pos_part, neg_part,
}
use libuiohook.Event.Masks.{wheel_vertical_direction}
use libuiohook.Windows.Keymap.{keycode_to_scancode, scancode_to_keycode}
use libuiohook.Windows.Keymap.RoundTrip.{table_index, vk_code_returns, table_index_returns}
use libuiohook.Windows.Wheel.{Rotation, get_scroll_wheel_rotation}
use libuiohook.Windows.Wheel.Laws.{
  IsValid, turn_all, get_scroll_wheel_rotation-IsValid, turn_all_vertical,
}

-- The virtual-key code 0x41 is the letter A.
vk_code_returns_example : scancode_to_keycode (keycode_to_scancode 0x41 false) ≡ 0x41
unfolding keycode_to_scancode
vk_code_returns_example =
    vk_code_returns 0x41 (omega arith) (omega arith) (λ e. omega (arith, e)) (λ e. omega (arith, e))
      (λ e. omega (arith, e))

abbrev half_turned : Rotation
half_turned = record { vertical = negsuc 59; horizontal = pos 0 }

half_turned-IsValid : IsValid half_turned
half_turned-IsValid = record {
  vertical_partial = (omega arith, omega arith);
  horizontal_partial = (omega arith, omega arith);
}

-- Three deltas, newest first: 400, 100 and -300 in the order of arrival.
abbrev deltas : List ℤ
deltas = negsuc 299 ∷ pos 100 ∷ pos 400 ∷ []

turn_all_vertical_example :
    let (r', reported) = turn_all wheel_vertical_direction deltas half_turned in
    pos_part r'.vertical + 120 * neg_part reported + 60 + 0
    ≡ neg_part r'.vertical + 120 * pos_part reported + 0 + 200
unfolding libuiohook.Prelude.◌+ℤ◌
turn_all_vertical_example =
    turn_all_vertical deltas half_turned half_turned-IsValid
      ((omega arith, omega arith), ((omega arith, omega arith), ((omega arith, omega arith), tt)))
