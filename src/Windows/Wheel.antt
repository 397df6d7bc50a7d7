-- ===== src/Windows/Wheel.antt =====
-- src/windows/input_helper.c: `get_scroll_wheel_rotation`, which turns wheel deltas into notches and
-- keeps the rest. A rotation is kept as the integer that the `int16_t` stands for.
pub mod Laws
use libuiohook.Prelude.{
  ℕ, ◌-◌, ◌/◌, ◌%◌, ◌==◌, if◌then◌else◌, ℤ, pos, negsuc, pos_part, neg_part, sub_ℕ, neg, ◌+ℤ◌,
  signed16,
}
use libuiohook.Event.Masks.{wheel_vertical_direction}

-- The conversion to `int16_t`.
unfoldable pub to_int16 : ℤ → ℤ
to_int16 (pos n) = signed16 (n % 65536)
to_int16 (negsuc n) = signed16 (65535 - n % 65536)

-- `/ WHEEL_DELTA` and `% WHEEL_DELTA` of C, which round to zero.
unfoldable pub quot_delta : ℤ → ℤ
quot_delta z = sub_ℕ (pos_part z / 120) (neg_part z / 120)

unfoldable pub rem_delta : ℤ → ℤ
rem_delta z = sub_ℕ (pos_part z % 120) (neg_part z % 120)

-- The statics `v_rotation` and `h_rotation`.
pub record Rotation : Type 0 where
  pub vertical : ℤ
  pub horizontal : ℤ

-- `delta` is `GET_WHEEL_DELTA_WPARAM(data)`.
unfoldable pub get_scroll_wheel_rotation : ℤ → ℕ → Rotation → Rotation × ℤ
get_scroll_wheel_rotation delta direction r =
    if direction == wheel_vertical_direction
    then (let turned = to_int16 (r.vertical +ℤ delta) in
        (record r { vertical = rem_delta turned }, neg (quot_delta turned)))
    else (let turned = to_int16 (r.horizontal +ℤ delta) in
        (record r { horizontal = rem_delta turned }, quot_delta turned))
