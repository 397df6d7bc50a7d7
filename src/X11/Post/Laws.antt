-- ===== src/X11/Post/Laws.antt =====
-- src/x11/post_event.c against src/x11/input_hook.c: what the hook makes of an event that was posted,
-- with a pointer mapping that maps no button.
use libuiohook.Prelude.{
  ℕ, ◌-◌, ◌≤◌, ◌<◌, ◌≡◌, ◌≢◌, ◌↔◌, Bool, true, false, List, [], ◌∷◌, arith, ◌==◌, if◌then◌else◌,
  ltb_ℤ, pos, negsuc, length, get_or,
}
use libuiohook.Event.{EventType, key_pressed, key_released, mouse_pressed, UiohookEvent, keyboard}
use libuiohook.Dispatch.{Dispatcher}
use libuiohook.Event.Masks.{wheel_vertical_direction}
use libuiohook.X11.Keymap.Lookup.{scancode_to_keycode}
use libuiohook.X11.Helper.State.{Helper, button_map_lookup}
use libuiohook.X11.Hook.State.{HookState}
use libuiohook.X11.Hook.Fire.{fresh_event}
use libuiohook.X11.Hook.Keys.{KeyInput, key_data, key_press_state, key_release_state}
use libuiohook.X11.Hook.KeyEvents.{press_events}
use libuiohook.X11.Hook.Buttons.{
  PointerInput, is_wheel, virtual_button, wheel_data, wheel_up, wheel_down,
}
use libuiohook.X11.Post.{
  fake_key_event, fake_motion_event, fake_button_event, PostedEvent, post_key_event,
  post_mouse_button_event, post_mouse_wheel_event,
}

-- Every button keeps its number, or is not in the mapping.
abbrev pub MapsNothing : List ℕ → Type 0
MapsNothing mapping = (b : ℕ) → 0 < b → b ≤ length mapping → get_or mapping (b - 1) 0 ≡ b

lookup_plain :
    (h : Helper) (mapping : List ℕ) (b : ℕ)
    → MapsNothing mapping
    → button_map_lookup h mapping b ≡ (if b == 2 then 3 else if b == 3 then 2 else b)
unfolding button_map_lookup
lookup_plain h mapping b plain = ground (arith, plain b)

-- A posted press of button `b` from 1 to 5 is a fake press of X button `b`. When the hook sees that X
-- button with a mapping that maps nothing, it reports button `b` only for 1: it reports 2 as 3 and 3
-- as 2, and takes 4 and 5 for the wheel.
pub post_button_hooked :
    (h : Helper) (mapping : List ℕ) (e : PostedEvent)
    → MapsNothing mapping
    → e.type ≡ mouse_pressed
    → 1 ≤ e.mouse.button
    → e.mouse.button ≤ 5
    → let seen = button_map_lookup h mapping e.mouse.button in
      ((post_mouse_button_event e).0
        ≡ fake_motion_event e.mouse.x e.mouse.y ∷ fake_button_event e.mouse.button true ∷ [])
      × ((is_wheel seen ≡ true) ↔ (4 ≤ e.mouse.button))
      × ((virtual_button seen ≡ e.mouse.button) ↔ (e.mouse.button ≡ 1))
unfolding post_mouse_button_event is_wheel virtual_button
post_button_hooked h mapping e plain t lo hi =
    ground (arith, lookup_plain h mapping e.mouse.button plain)

-- A posted wheel event is a press and a release of one X button. When the hook sees that button, with
-- a mapping that maps nothing, it reports a vertical rotation by one notch with the sign of the
-- posted rotation (a rotation of 0 counts as positive), whatever amount and direction were posted.
pub post_wheel_hooked :
    (h : Helper) (mapping : List ℕ) (e : PostedEvent) (p : PointerInput) (s : HookState)
    → MapsNothing mapping
    → p.detail
      ≡ button_map_lookup h mapping
          (if ltb_ℤ e.wheel.rotation (pos 0) then wheel_up else wheel_down)
    → ((post_mouse_wheel_event h mapping e).0
        ≡ fake_button_event p.detail true ∷ fake_button_event p.detail false ∷ [])
      × (is_wheel (button_map_lookup h mapping p.detail) ≡ true)
      × ((wheel_data p s).rotation ≡ (if ltb_ℤ e.wheel.rotation (pos 0) then negsuc 0 else pos 1))
      × ((wheel_data p s).direction ≡ wheel_vertical_direction)
unfolding post_mouse_wheel_event is_wheel wheel_data
post_wheel_hooked h mapping e p s plain seen =
    ground (arith, lookup_plain h mapping 4 plain, lookup_plain h mapping 5 plain)

-- The two types of a key event, the state in which the hook fills its event in, and what it sends,
-- newest first, with the code `code`.
abbrev pub key_type : Bool → EventType
key_type is_press = if is_press then key_pressed else key_released

abbrev pub key_state : Bool → KeyInput → HookState → HookState
key_state is_press k s = if is_press then key_press_state k s else key_release_state k s

abbrev pub key_events : Bool → KeyInput → HookState → ℕ → Dispatcher → List UiohookEvent
key_events is_press k s code d =
    let s1 = key_state is_press k s in
    if is_press
    then press_events k s1 code d s.session.sent
    else fresh_event key_released k.time (keyboard (key_data k code)) s1 ∷ s.session.sent

post_key :
    (h : Helper) (succeeds is_press : Bool) (e : PostedEvent)
    → e.type ≡ key_type is_press
    → scancode_to_keycode h.is_evdev e.keyboard.keycode ≢ 0
    → (post_key_event h succeeds e).0
      ≡ fake_key_event (scancode_to_keycode h.is_evdev e.keyboard.keycode) is_press ∷ []
unfolding post_key_event
post_key h succeeds true e t n = ground arith
post_key h succeeds false e t n = ground arith
