-- ===== src/Darwin/Hook/Mouse.antt =====
-- src/darwin/input_hook.c: `process_button_pressed`, `process_button_released`,
-- `process_mouse_moved` and `process_mouse_wheel`.
use libuiohook.Prelude.{
  ℕ, Bool, ◌+◌, ◌-◌, ◌/◌, ◌%◌, ◌&&◌, not, ltb, ◌==◌, ◌||◌, if◌then◌else◌, ℤ, pos, negsuc, neg,
  pos_part, neg_part, sub_ℕ, leb_ℤ, sub64, signed16, signed64,
}
use libuiohook.Event.{
  MouseEventData, MouseWheelEventData, mouse, wheel, mouse_clicked, mouse_pressed, mouse_released,
  mouse_moved, mouse_dragged, mouse_wheel,
}
use libuiohook.Event.Masks.{
  mouse_nobutton, wheel_unit_scroll, wheel_block_scroll, wheel_vertical_direction,
  wheel_horizontal_direction,
}
use libuiohook.Darwin.Hook.State.{HookState, fire, not_consumed}

-- A mouse event: its time in nanoseconds, its location as it is converted to `int16_t`, its
-- `kCGMouseEventButtonNumber`, and what `hook_get_multi_click_time` answers.
pub record MouseInput : Type 0 where
  pub time : ℕ
  pub x : ℕ
  pub y : ℕ
  pub number : ℕ
  pub multi_click_time : ℤ

-- `/` of C, which rounds to zero.
unfoldable pub quot_ℤ : ℤ → ℤ → ℤ
quot_ℤ a b =
    let size = (pos_part a + neg_part a) / (pos_part b + neg_part b) in
    if ltb 0 (neg_part a)
    then (if ltb 0 (neg_part b) then pos size else sub_ℕ 0 size)
    else if ltb 0 (neg_part b)
    then sub_ℕ 0 size
    else pos size

unfoldable pub to_uint16 : ℤ → ℕ
to_uint16 (pos n) = n % 65536
to_uint16 (negsuc n) = 65535 - n % 65536

-- `(long int) (timestamp - click_time) / 1000000`.
unfoldable pub elapsed : ℕ → ℕ → ℤ
elapsed time click_time = quot_ℤ (signed64 (sub64 time click_time)) (pos 1000000)

-- Whether the time since the last press is at most `hook_get_multi_click_time()`.
unfoldable pub is_multi_click : MouseInput → HookState → Bool
is_multi_click p s = leb_ℤ (elapsed p.time s.click_time) p.multi_click_time

unfoldable pub track_click : MouseInput → ℕ → HookState → HookState
track_click p button s =
    let counted =
      if button == s.click_button && is_multi_click p s
      then (if ltb s.click_count 65535 then record s { click_count = s.click_count + 1 } else s)
      else record s { click_count = 1; click_button = button } in
    record counted { click_time = p.time }

unfoldable pub mouse_data : MouseInput → ℕ → HookState → MouseEventData
mouse_data p button s = record { button = button; clicks = s.click_count; x = p.x; y = p.y }

unfoldable pub process_button_pressed : MouseInput → ℕ → HookState → HookState
process_button_pressed p button s =
    let s1 = track_click p button s in fire mouse_pressed p.time (mouse (mouse_data p button s1)) s1

unfoldable pub fire_clicked : MouseInput → ℕ → HookState → HookState
fire_clicked p button s =
    if not_consumed s && not s.is_dragged
    then fire mouse_clicked p.time (mouse (mouse_data p button s)) s
    else s

unfoldable pub reset_after_release : MouseInput → HookState → HookState
reset_after_release p s = if not (is_multi_click p s) then record s { click_count = 0 } else s

unfoldable pub process_button_released : MouseInput → ℕ → HookState → HookState
process_button_released p button s =
    let s1 = fire mouse_released p.time (mouse (mouse_data p button s)) s in
    reset_after_release p (fire_clicked p button s1)

unfoldable pub expire_clicks : MouseInput → HookState → HookState
expire_clicks p s =
    if not (s.click_count == 0) && not (is_multi_click p s) then record s { click_count = 0 } else s

unfoldable pub process_mouse_moved : MouseInput → HookState → HookState
process_mouse_moved p s =
    let s1 = expire_clicks p s in
    fire (if s1.is_dragged then mouse_dragged else mouse_moved) p.time
      (mouse (mouse_data p mouse_nobutton s1)) s1

-- A scroll event: the deltas of the two axes, the deltas in points, and whether
-- `kCGScrollWheelEventIsContinuous` is not 0.
pub record WheelInput : Type 0 where
  pub time : ℕ
  pub x : ℕ
  pub y : ℕ
  pub delta1 : ℤ
  pub delta2 : ℤ
  pub point_delta1 : ℤ
  pub point_delta2 : ℤ
  pub continuous : Bool

unfoldable pub is_nonzero : ℤ → Bool
is_nonzero z = not (pos_part z + neg_part z == 0)

-- The amount and the rotation of the first axis that turned.
unfoldable pub wheel_turn : WheelInput → ℕ × ℤ
wheel_turn p =
    if is_nonzero p.delta1
    then (to_uint16 (quot_ℤ p.point_delta1 p.delta1), signed16 (to_uint16 (neg p.delta1)))
    else if is_nonzero p.delta2
    then (to_uint16 (quot_ℤ p.point_delta2 p.delta2), signed16 (to_uint16 (neg p.delta2)))
    else (0, pos 0)

unfoldable pub wheel_data : WheelInput → HookState → MouseWheelEventData
wheel_data p s = record {
  clicks = s.click_count;
  x = p.x;
  y = p.y;
  type = if p.continuous then wheel_unit_scroll else wheel_block_scroll;
  amount = (wheel_turn p).0;
  rotation = (wheel_turn p).1;
  direction = if is_nonzero p.delta1 then wheel_vertical_direction else wheel_horizontal_direction;
}

unfoldable pub process_mouse_wheel : WheelInput → HookState → HookState
process_mouse_wheel p s =
    let s1 = record s { click_count = 1; click_button = mouse_nobutton } in
    let s2 = fire mouse_wheel p.time (wheel (wheel_data p s1)) s1 in
    if is_nonzero p.delta1 || is_nonzero p.delta2 then s2 else s1
