-- ===== src/X11/Post.antt =====
-- src/x11/post_event.c, in the default build with XTest: the calls that posting an event makes, in
-- order. What XTest answers for a key is an argument.
pub mod Laws
use libuiohook.Prelude.{
  ℕ, Bool, true, false, ◌||◌, List, [], ◌∷◌, ◌++◌, ltb, ◌==◌, if◌then◌else◌, ltb_ℤ, pos,
}
use libuiohook.Event.{
  EventType, hook_enabled, hook_disabled, key_typed, key_pressed, key_released, mouse_clicked,
  mouse_pressed, mouse_released, mouse_moved, mouse_dragged, mouse_wheel, KeyboardEventData,
  MouseEventData, MouseWheelEventData, uiohook_success, uiohook_failure,
}
use libuiohook.Event.Masks.{mouse_button1, mouse_button5}
use libuiohook.X11.Keymap.Lookup.{scancode_to_keycode}
use libuiohook.X11.Helper.State.{Helper, button_map_lookup}
use libuiohook.X11.Hook.Buttons.{wheel_up, wheel_down}

pub data XCall : Type 0 where
  lock_display : XCall
  fake_key_event : (keycode : ℕ) → (is_pressed : Bool) → XCall
  fake_motion_event : (x y : ℕ) → XCall
  fake_button_event : (button : ℕ) → (is_pressed : Bool) → XCall
  sync : XCall
  unlock_display : XCall

-- An event to post: its type with all three readings of the union, of which the type picks one.
pub record PostedEvent : Type 0 where
  pub type : EventType
  pub keyboard : KeyboardEventData
  pub mouse : MouseEventData
  pub wheel : MouseWheelEventData

fake_key : ℕ → Bool → Bool → List XCall × ℕ
fake_key keycode is_pressed succeeds =
    (fake_key_event keycode is_pressed ∷ [], if succeeds then uiohook_success else uiohook_failure)

key_call : EventType → ℕ → Bool → List XCall × ℕ
unfolding fake_key
key_call key_pressed keycode succeeds = fake_key keycode true succeeds
key_call key_released keycode succeeds = fake_key keycode false succeeds
key_call _ keycode succeeds = ([], uiohook_failure)

-- `succeeds` is that `XTestFakeKeyEvent` returns `Success`.
unfoldable pub post_key_event : Helper → Bool → PostedEvent → List XCall × ℕ
unfolding key_call
post_key_event h succeeds e =
    let keycode = scancode_to_keycode h.is_evdev e.keyboard.keycode in
    if keycode == 0x0000 then ([], uiohook_failure) else key_call e.type keycode succeeds

button_call : ℕ → Bool → List XCall × ℕ
button_call button is_pressed =
    if ltb button mouse_button1 || ltb mouse_button5 button
    then ([], uiohook_failure)
    else (fake_button_event button is_pressed ∷ [], uiohook_success)

button_calls : EventType → ℕ → List XCall × ℕ
unfolding button_call
button_calls mouse_pressed button = button_call button true
button_calls mouse_released button = button_call button false
button_calls _ button = ([], uiohook_failure)

-- The pointer is moved first, whatever the button is.
unfoldable pub post_mouse_button_event : PostedEvent → List XCall × ℕ
unfolding button_calls
post_mouse_button_event e =
    let (calls, status) = button_calls e.type e.mouse.button in
    (fake_motion_event e.mouse.x e.mouse.y ∷ calls, status)

unfoldable pub post_mouse_wheel_event : Helper → List ℕ → PostedEvent → List XCall × ℕ
post_mouse_wheel_event h mapping e =
    let button =
      button_map_lookup h mapping
        (if ltb_ℤ e.wheel.rotation (pos 0) then wheel_up else wheel_down) in
    (fake_button_event button true ∷ fake_button_event button false ∷ [], uiohook_success)

unfoldable pub post_mouse_motion_event : PostedEvent → List XCall
post_mouse_motion_event e = fake_motion_event e.mouse.x e.mouse.y ∷ []

-- The `switch` over the type.
unfoldable pub post_calls : EventType → Helper → List ℕ → Bool → PostedEvent → List XCall
post_calls key_pressed h mapping succeeds e = (post_key_event h succeeds e).0
post_calls key_released h mapping succeeds e = (post_key_event h succeeds e).0
post_calls mouse_pressed h mapping succeeds e = (post_mouse_button_event e).0
post_calls mouse_released h mapping succeeds e = (post_mouse_button_event e).0
post_calls mouse_wheel h mapping succeeds e = (post_mouse_wheel_event h mapping e).0
post_calls mouse_moved h mapping succeeds e = post_mouse_motion_event e
post_calls mouse_dragged h mapping succeeds e = post_mouse_motion_event e
post_calls key_typed h mapping succeeds e = []
post_calls mouse_clicked h mapping succeeds e = []
post_calls hook_enabled h mapping succeeds e = []
post_calls hook_disabled h mapping succeeds e = []

unfoldable pub hook_post_event : Helper → List ℕ → Bool → PostedEvent → List XCall
hook_post_event h mapping succeeds e =
    if h.helper_disp
    then lock_display ∷ post_calls e.type h mapping succeeds e ++ (sync ∷ unlock_display ∷ [])
    else []
