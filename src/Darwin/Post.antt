-- ===== src/Darwin/Post.antt =====
-- src/darwin/post_event.c: the native event that posting an event gives to `CGEventPost`, if any, and
-- the statics.
pub mod Laws
use libuiohook.Prelude.{
  ℕ, ◌+◌, ◌-◌, ◌*◌, Bool, true, false, ◌||◌, Option, none, some, ◌==◌, if◌then◌else◌, ℤ, pos, ◌*ℤ◌,
}
use libuiohook.Event.{
  EventType, hook_enabled, hook_disabled, key_typed, key_pressed, key_released, mouse_clicked,
  mouse_pressed, mouse_released, mouse_moved, mouse_dragged, mouse_wheel, KeyboardEventData,
  MouseEventData, MouseWheelEventData, uiohook_success, uiohook_failure,
  uiohook_error_out_of_memory,
}
use libuiohook.Event.KeyCodes.{
  vc_shift_l, vc_shift_r, vc_control_l, vc_control_r, vc_meta_l, vc_meta_r, vc_alt_l, vc_alt_r,
  vc_kp_0, vc_kp_1, vc_kp_2, vc_kp_3, vc_kp_4, vc_kp_5, vc_kp_6, vc_kp_7, vc_kp_8, vc_kp_9,
  vc_num_lock, vc_kp_enter, vc_kp_multiply, vc_kp_add, vc_kp_separator, vc_kp_subtract,
  vc_kp_divide, vc_kp_comma,
}
use libuiohook.Event.Masks.{mouse_nobutton, mouse_button1, mouse_button2}
use libuiohook.Darwin.VirtualKeys.{kvk_undefined}
use libuiohook.Darwin.Keymap.{scancode_to_keycode}
use libuiohook.Darwin.Hook.Keys.{Flags}

-- The types of native mouse events that are posted.
pub data CgMotion : Type 0 where
  cg_moved left_dragged right_dragged other_dragged : CgMotion

pub data CgType : Type 0 where
  left_down right_down other_down left_up right_up other_up : CgType
  motion : CgMotion → CgType

-- What is posted: a key with the flags and whether the one of the numeric pad is added; a mouse event with
-- its button and position; a scroll by lines over one axis.
pub data CgEvent : Type 0 where
  cg_key : (keycode : ℕ) → (is_pressed : Bool) → Flags → (numeric_pad : Bool) → CgEvent
  cg_mouse : CgType → (x y button : ℕ) → CgEvent
  cg_scroll : ℤ → CgEvent

-- The statics `current_modifier_mask`, `current_motion_event` and `current_motion_button`.
pub record PostState : Type 0 where
  pub modifiers : Flags
  pub motion_event : CgMotion
  pub motion_button : ℕ

pub record PostedEvent : Type 0 where
  pub type : EventType
  pub keyboard : KeyboardEventData
  pub mouse : MouseEventData
  pub wheel : MouseWheelEventData

pub record PostResult : Type 0 where
  pub state : PostState
  pub posted : Option CgEvent
  pub status : ℕ

unfoldable pub failed : PostState → PostResult
failed s = record { state = s; posted = none; status = uiohook_failure }

-- `created` is that the system made the native event.
unfoldable pub post : Bool → CgEvent → PostState → PostResult
post created e s =
    if created
    then record { state = s; posted = some e; status = uiohook_success }
    else record { state = s; posted = none; status = uiohook_error_out_of_memory }

-- The flag of a modifier key is set for a press and cleared for a release.
unfoldable pub change_flags : ℕ → Bool → Flags → Flags
change_flags scancode down flags =
    if scancode == vc_shift_l || scancode == vc_shift_r
    then record flags { shift = down }
    else if scancode == vc_control_l || scancode == vc_control_r
    then record flags { control = down }
    else if scancode == vc_meta_l || scancode == vc_meta_r
    then record flags { command = down }
    else if scancode == vc_alt_l || scancode == vc_alt_r
    then record flags { alternate = down }
    else flags

unfoldable pub is_numeric_pad : ℕ → Bool
is_numeric_pad scancode =
    scancode == vc_kp_0
    || scancode == vc_kp_1
    || scancode == vc_kp_2
    || scancode == vc_kp_3
    || scancode == vc_kp_4
    || scancode == vc_kp_5
    || scancode == vc_kp_6
    || scancode == vc_kp_7
    || scancode == vc_kp_8
    || scancode == vc_kp_9
    || scancode == vc_num_lock
    || scancode == vc_kp_enter
    || scancode == vc_kp_multiply
    || scancode == vc_kp_add
    || scancode == vc_kp_separator
    || scancode == vc_kp_subtract
    || scancode == vc_kp_divide
    || scancode == vc_kp_comma

-- Either kind of key event, `down` for a press.
unfoldable pub post_key : Bool → Bool → ℕ → PostState → PostResult
post_key created down scancode s =
    let s1 : PostState = record s { modifiers = change_flags scancode down s.modifiers } in
    let keycode = scancode_to_keycode scancode in
    if keycode == kvk_undefined
    then failed s1
    else post created (cg_key keycode down s1.modifiers (is_numeric_pad scancode)) s1

unfoldable pub post_key_event : Bool → PostedEvent → PostState → PostResult
post_key_event created e s = elim e.type [
  | key_pressed ↦ post_key created true e.keyboard.keycode s
  | key_released ↦ post_key created false e.keyboard.keycode s
  | _ ↦ failed s
]

-- The button of `CGEventCreateMouseEvent`: 0 and 1 are the left and the right one.
unfoldable pub cg_button : ℕ → ℕ
cg_button button =
    if button == mouse_button1 then 0 else if button == mouse_button2 then 1 else button - 1

unfoldable pub drag_of : ℕ → CgMotion
drag_of button =
    if button == mouse_button1
    then left_dragged
    else if button == mouse_button2
    then right_dragged
    else other_dragged

unfoldable pub down_of : ℕ → CgType
down_of button =
    if button == mouse_button1
    then left_down
    else if button == mouse_button2
    then right_down
    else other_down

unfoldable pub up_of : ℕ → CgType
up_of button =
    if button == mouse_button1
    then left_up
    else if button == mouse_button2
    then right_up
    else other_up

abbrev pub is_same : CgMotion → CgMotion → Bool
is_same cg_moved cg_moved = true
is_same left_dragged left_dragged = true
is_same right_dragged right_dragged = true
is_same other_dragged other_dragged = true
is_same _ _ = false

unfoldable pub press_button : Bool → MouseEventData → PostState → PostResult
press_button created m s =
    if m.button == mouse_nobutton
    then failed s
    else post created (cg_mouse (down_of m.button) m.x m.y (cg_button m.button))
        (record s { motion_event = drag_of m.button; motion_button = cg_button m.button })

-- A drag of the same kind ends.
unfoldable pub release_button : Bool → MouseEventData → PostState → PostResult
release_button created m s =
    let motion_event =
      if is_same s.motion_event (drag_of m.button) then cg_moved else s.motion_event in
    if m.button == mouse_nobutton
    then failed s
    else post created (cg_mouse (up_of m.button) m.x m.y (cg_button m.button))
        (record s { motion_event = motion_event; motion_button = cg_button m.button })

unfoldable pub post_motion : Bool → MouseEventData → PostState → PostResult
post_motion created m s = post created (cg_mouse (motion s.motion_event) m.x m.y s.motion_button) s

unfoldable pub post_mouse_event : Bool → PostedEvent → PostState → PostResult
post_mouse_event created e s = elim e.type [
  | mouse_pressed ↦ press_button created e.mouse s
  | mouse_released ↦ release_button created e.mouse s
  | mouse_moved ↦ post_motion created e.mouse s
  | mouse_dragged ↦ post_motion created e.mouse s
  | _ ↦ failed s
]

-- The unit that is chosen by the type of the wheel is not used.
unfoldable pub post_mouse_wheel_event : Bool → PostedEvent → PostState → PostResult
post_mouse_wheel_event created e s =
    post created (cg_scroll (pos e.wheel.amount *ℤ e.wheel.rotation)) s

unfoldable pub post_by_type : Bool → PostedEvent → PostState → PostResult
post_by_type created e s = elim e.type [
  | key_pressed ↦ post_key_event created e s
  | key_released ↦ post_key_event created e s
  | mouse_pressed ↦ post_mouse_event created e s
  | mouse_released ↦ post_mouse_event created e s
  | mouse_moved ↦ post_mouse_event created e s
  | mouse_dragged ↦ post_mouse_event created e s
  | mouse_wheel ↦ post_mouse_wheel_event created e s
  | _ ↦ failed s
]

-- `has_source` is that `CGEventSourceCreate` succeeds; the status is dropped.
unfoldable pub hook_post_event : Bool → Bool → PostedEvent → PostState → PostState × Option CgEvent
hook_post_event has_source created e s =
    let r = post_by_type created e s in if has_source then (r.state, r.posted) else (s, none)
