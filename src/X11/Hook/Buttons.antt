-- ===== src/X11/Hook/Buttons.antt =====
-- src/x11/input_hook.c: the `ButtonPress`, `ButtonRelease` and `MotionNotify` branches of
-- `hook_event_proc`.
use libuiohook.Prelude.{
  ℕ, ◌+◌, Bool, ◌&&◌, ◌||◌, not, List, [], ◌∷◌, Option, none, some, ltb, ◌==◌, if◌then◌else◌,
  bit_and, length, ℤ, pos, negsuc, leb_ℤ, sub16, sub64, signed64,
}
use libuiohook.Event.{
  ScreenData, MouseEventData, MouseWheelEventData, mouse, wheel, mouse_clicked, mouse_pressed,
  mouse_released, mouse_moved, mouse_dragged, mouse_wheel,
}
use libuiohook.Event.Masks.{
  mask_button1, mask_button2, mask_button3, mask_button5, mouse_nobutton, mouse_button1,
  mouse_button2, mouse_button3, mouse_button4, mouse_button5, wheel_unit_scroll,
  wheel_vertical_direction, wheel_horizontal_direction,
}
use libuiohook.X11.Helper.State.{button_map_lookup}
use libuiohook.X11.Hook.State.{HookState, set_modifier_mask, unset_modifier_mask, get_modifiers}
use libuiohook.X11.Hook.Fire.{fire, not_consumed}

-- A button or motion event, with what the X server answers during it: the pointer mapping, the
-- screens of `hook_create_screen_info`, and `hook_get_multi_click_time`. For a motion `detail` and
-- `mapping` are not read.
pub record PointerInput : Type 0 where
  pub time : ℕ
  pub detail : ℕ
  pub root_x : ℕ
  pub root_y : ℕ
  pub mapping : List ℕ
  pub screens : List ScreenData
  pub multi_click_time : ℤ

-- The button codes of src/x11/input_helper.h.
abbrev pub wheel_up : ℕ
wheel_up = 4

abbrev pub wheel_down : ℕ
wheel_down = 5

abbrev pub wheel_left : ℕ
wheel_left = 6

abbrev pub wheel_right : ℕ
wheel_right = 7

abbrev pub x_button1 : ℕ
x_button1 = 8

abbrev pub x_button2 : ℕ
x_button2 = 9

unfoldable pub is_wheel : ℕ → Bool
is_wheel b = b == wheel_up || b == wheel_down || b == wheel_left || b == wheel_right

abbrev first_screen_x : List ScreenData → ℕ
first_screen_x [] = 0
first_screen_x (sc ∷ _) = sc.x

abbrev first_screen_y : List ScreenData → ℕ
first_screen_y [] = 0
first_screen_y (sc ∷ _) = sc.y

-- With several screens the position is relative to the first.
unfoldable pub screen_x : PointerInput → ℕ
screen_x p =
    if ltb 1 (length p.screens) then sub16 p.root_x (first_screen_x p.screens) else p.root_x

unfoldable pub screen_y : PointerInput → ℕ
screen_y p =
    if ltb 1 (length p.screens) then sub16 p.root_y (first_screen_y p.screens) else p.root_y

unfoldable pub wheel_data : PointerInput → HookState → MouseWheelEventData
unfolding screen_x screen_y
wheel_data p s = record {
  clicks = s.click_count;
  x = screen_x p;
  y = screen_y p;
  type = wheel_unit_scroll;
  amount = 3;
  rotation = if p.detail == wheel_up || p.detail == wheel_left then negsuc 0 else pos 1;
  direction =
      if p.detail == wheel_up || p.detail == wheel_down
      then wheel_vertical_direction
      else wheel_horizontal_direction;
}

unfoldable pub process_wheel : PointerInput → HookState → HookState
process_wheel p s =
    let s1 = record s { click_count = 1; click_button = mouse_nobutton } in
    fire mouse_wheel p.time (wheel (wheel_data p s1)) s1

-- The `switch` over the mapped button: the virtual button.
unfoldable pub virtual_button : ℕ → ℕ
virtual_button map_button =
    if map_button == 1
    then mouse_button1
    else if map_button == 2
    then mouse_button2
    else if map_button == 3
    then mouse_button3
    else if map_button == x_button1
    then mouse_button4
    else if map_button == x_button2
    then mouse_button5
    else mouse_nobutton

-- The same `switch`: the mask that it sets or unsets.
unfoldable pub button_mask : ℕ → Option ℕ
button_mask map_button =
    if map_button == 1
    then some mask_button1
    else if map_button == 2
    then some mask_button2
    else if map_button == 3
    then some mask_button3
    else if map_button == x_button1
    then some mask_button5
    else if map_button == x_button2
    then some mask_button5
    else none

unfoldable pub set_button_mask : ℕ → HookState → HookState
set_button_mask map_button s = elim (button_mask map_button) [
  | none ↦ s
  | some m ↦ set_modifier_mask m s
]

unfoldable pub unset_button_mask : ℕ → HookState → HookState
unset_button_mask map_button s = elim (button_mask map_button) [
  | none ↦ s
  | some m ↦ unset_modifier_mask m s
]

-- `(long int) (time - hook->input.mouse.click.time) <= hook_get_multi_click_time()`.
unfoldable pub is_multi_click : ℕ → ℕ → ℤ → Bool
is_multi_click time click_time limit = leb_ℤ (signed64 (sub64 time click_time)) limit

unfoldable pub track_click : PointerInput → ℕ → HookState → HookState
track_click p button s =
    let counted =
      if button == s.click_button && is_multi_click p.time s.click_time p.multi_click_time
      then (if ltb s.click_count 65535 then record s { click_count = s.click_count + 1 } else s)
      else record s { click_count = 1; click_button = button } in
    record counted { click_time = p.time }

unfoldable pub mouse_data : PointerInput → ℕ → HookState → MouseEventData
unfolding screen_x screen_y
mouse_data p button s = record {
  button = button;
  clicks = s.click_count;
  x = screen_x p;
  y = screen_y p;
}

unfoldable pub process_plain_press : PointerInput → ℕ → HookState → HookState
process_plain_press p map_button s =
    let button = virtual_button map_button in
    let s1 = track_click p button (set_button_mask map_button s) in
    fire mouse_pressed p.time (mouse (mouse_data p button s1)) s1

unfoldable pub process_button_press : PointerInput → HookState → HookState
process_button_press p s =
    let map_button = button_map_lookup s.helper p.mapping p.detail in
    if is_wheel map_button then process_wheel p s else process_plain_press p map_button s

-- The click event, unless the release was consumed or the pointer was dragged.
unfoldable pub fire_clicked : PointerInput → ℕ → HookState → HookState
fire_clicked p button s =
    if not_consumed s && not s.is_dragged
    then fire mouse_clicked p.time (mouse (mouse_data p button s)) s
    else s

-- It reads the time from the static `event`, after the callback had it.
unfoldable pub reset_after_release : PointerInput → ℕ → HookState → HookState
reset_after_release p button s =
    if button == s.click_button
      && not (is_multi_click s.session.event.time s.click_time p.multi_click_time)
    then record s { click_count = 0 }
    else s

unfoldable pub process_plain_release : PointerInput → ℕ → HookState → HookState
process_plain_release p map_button s =
    let button = virtual_button map_button in
    let s1 = unset_button_mask map_button s in
    let s2 = fire mouse_released p.time (mouse (mouse_data p button s1)) s1 in
    reset_after_release p button (fire_clicked p button s2)

unfoldable pub process_button_release : PointerInput → HookState → HookState
process_button_release p s =
    let map_button = button_map_lookup s.helper p.mapping p.detail in
    if is_wheel map_button then s else process_plain_release p map_button s

unfoldable pub expire_clicks : PointerInput → HookState → HookState
expire_clicks p s =
    if not (s.click_count == 0) && not (is_multi_click p.time s.click_time p.multi_click_time)
    then record s { click_count = 0 }
    else s

unfoldable pub process_motion : PointerInput → HookState → HookState
process_motion p s =
    let s1 = expire_clicks p s in
    let dragged = ltb 0 (bit_and (get_modifiers s1) 0x1F00) in
    let s2 = record s1 { is_dragged = dragged } in
    fire (if dragged then mouse_dragged else mouse_moved) p.time
      (mouse (mouse_data p mouse_nobutton s2)) s2
