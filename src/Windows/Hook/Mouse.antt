-- ===== src/Windows/Hook/Mouse.antt =====
-- src/windows/input_hook.c: `process_button_pressed`, `process_button_released`,
-- `process_mouse_moved` and `process_mouse_wheel`.
use libuiohook.Prelude.{
  ℕ, Bool, ◌+◌, ◌%◌, ◌&&◌, not, Option, none, some, ltb, ◌==◌, if◌then◌else◌, bit_and, ℤ, leb_ℤ,
  sub32, sub64, signed32, u16,
}
use libuiohook.Event.{
  MouseEventData, MouseWheelEventData, mouse, wheel, mouse_clicked, mouse_pressed, mouse_released,
  mouse_moved, mouse_dragged, mouse_wheel,
}
use libuiohook.Event.Masks.{mouse_nobutton, wheel_unit_scroll, wheel_block_scroll}
use libuiohook.Windows.Wheel.{get_scroll_wheel_rotation}
use libuiohook.Windows.Hook.State.{HookState, Point, get_modifiers, fire, not_consumed}

-- `MSLLHOOKSTRUCT`: the high word of its `mouseData`, that word as a wheel delta, and what
-- `hook_get_multi_click_time` and `SystemParametersInfo`, unless it fails, answer. `stale` is what the
-- wheel member of the union reads like from what was written to the union before.
pub record MouseInput : Type 0 where
  pub time : ℕ
  pub pt : Point
  pub high_word : ℕ
  pub delta : ℤ
  pub multi_click_time : ℤ
  pub wheel_amount : Option ℕ
  pub stale : MouseWheelEventData

-- `(long int) (timestamp - click_time) <= hook_get_multi_click_time()`, on 32-bit times.
unfoldable pub is_multi_click : ℕ → ℕ → ℤ → Bool
is_multi_click time click_time limit = leb_ℤ (signed32 (sub32 time click_time)) limit

unfoldable pub track_click : MouseInput → ℕ → HookState → HookState
track_click p button s =
    let counted =
      if button == s.click_button && is_multi_click p.time s.click_time p.multi_click_time
      then (if ltb s.click_count 65535 then record s { click_count = s.click_count + 1 } else s)
      else record s { click_count = 1; click_button = button } in
    record counted { click_time = p.time; last_click = p.pt }

unfoldable pub mouse_data : MouseInput → ℕ → HookState → MouseEventData
mouse_data p button s = record {
  button = button;
  clicks = s.click_count;
  x = u16 p.pt.x;
  y = u16 p.pt.y;
}

unfoldable pub process_button_pressed : MouseInput → ℕ → HookState → HookState
process_button_pressed p button s =
    let s1 = track_click p button s in fire mouse_pressed p.time (mouse (mouse_data p button s1)) s1

unfoldable pub same_point : Point → Point → Bool
same_point a b = a.x == b.x && a.y == b.y

unfoldable pub fire_clicked : MouseInput → ℕ → HookState → HookState
fire_clicked p button s =
    if not_consumed s && same_point s.last_click p.pt
    then fire mouse_clicked p.time (mouse (mouse_data p button s)) s
    else s

-- The same test where the time is an `uint64_t`: `long int` keeps 32 bits of the difference.
unfoldable pub is_multi_click_wide : ℕ → ℕ → ℤ → Bool
is_multi_click_wide time click_time limit =
    leb_ℤ (signed32 (sub64 time click_time % 4294967296)) limit

-- It reads the time from the static `event`, after the callback had it.
unfoldable pub reset_after_release : MouseInput → ℕ → HookState → HookState
reset_after_release p button s =
    if button == s.click_button
      && not (is_multi_click_wide s.session.event.time s.click_time p.multi_click_time)
    then record s { click_count = 0 }
    else s

unfoldable pub process_button_released : MouseInput → ℕ → HookState → HookState
process_button_released p button s =
    let s1 = fire mouse_released p.time (mouse (mouse_data p button s)) s in
    reset_after_release p button (fire_clicked p button s1)

unfoldable pub expire_clicks : MouseInput → HookState → HookState
expire_clicks p s =
    if not (s.click_count == 0) && not (is_multi_click_wide p.time s.click_time p.multi_click_time)
    then record s { click_count = 0 }
    else s

unfoldable pub process_mouse_moved : MouseInput → HookState → HookState
process_mouse_moved p s =
    let s1 = expire_clicks p s in
    let dragged = not (bit_and (get_modifiers s1) 0x1F00 == 0) in
    let s2 =
      fire (if dragged then mouse_dragged else mouse_moved) p.time
        (mouse (mouse_data p mouse_nobutton s1)) s1 in
    if same_point s.last_click p.pt then s else s2

-- `WHEEL_PAGESCROLL`.
abbrev page_scroll : ℕ
page_scroll = 4294967295

unfoldable pub wheel_data : MouseInput → ℕ → ℤ → ℕ → HookState → MouseWheelEventData
wheel_data p direction value amount s = record {
  clicks = s.click_count;
  x = u16 p.pt.x;
  y = u16 p.pt.y;
  type = if amount == page_scroll then wheel_block_scroll else wheel_unit_scroll;
  amount = if amount == page_scroll then 1 else u16 amount;
  rotation = value;
  direction = direction;
}

-- Where `SystemParametersInfo` fails the event is filled in by half, marked as consumed and kept.
unfoldable pub ignore_wheel : MouseInput → ℤ → HookState → HookState
ignore_wheel p value s = record s {
  session = record (s.session) {
    event = record {
      type = mouse_wheel;
      time = p.time;
      mask = get_modifiers s;
      reserved = 0x01;
      payload = wheel (record (p.stale) {
        clicks = s.click_count;
        x = u16 p.pt.x;
        y = u16 p.pt.y;
        rotation = value;
      });
    };
  };
}

unfoldable pub process_mouse_wheel : MouseInput → ℕ → HookState → HookState
process_mouse_wheel p direction s =
    let (turned, value) = get_scroll_wheel_rotation p.delta direction s.rotation in
    let s1 = record s { click_count = 1; click_button = mouse_nobutton; rotation = turned } in
    elim p.wheel_amount [
      | none ↦ ignore_wheel p value s1
      | some amount ↦ fire mouse_wheel p.time (wheel (wheel_data p direction value amount s1)) s1
    ]
