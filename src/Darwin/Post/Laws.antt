-- ===== src/Darwin/Post/Laws.antt =====
-- src/darwin/post_event.c: posted keys as the hook reads them, and the motion that is posted while
-- buttons are held.
use libuiohook.Prelude.{
  List, [], ◌∷◌, ◌∙◌, ap, u16, ℕ, ◌<◌, ◌≡◌, ◌≢◌, refl, Bool, true, false, ◌||◌, some, arith, ◌==◌,
  if◌then◌else◌, holds_below, holds_below-at, ==_of_ne,
}
use libuiohook.Event.{UiohookEvent, keyboard, key_pressed, key_released, MouseEventData}
use libuiohook.Event.Masks.{mouse_nobutton}
use libuiohook.Dispatch.{Dispatcher, Session}
use libuiohook.Event.KeyCodes.{char_undefined}
use libuiohook.Darwin.Hook.State.{HookState, fresh_event}
use libuiohook.Darwin.Hook.Keys.{KeyInput, key_data, process_key_released}
use libuiohook.Darwin.Hook.Proc.{TapEvent, key_down, key_up, process_event}
use libuiohook.Darwin.Hook.Sent.{fire_sent, pressed_sent}
use libuiohook.Darwin.VirtualKeys.{kvk_undefined}
use libuiohook.Darwin.Keymap.{keycode_to_scancode, scancode_to_keycode}
use libuiohook.Darwin.Post.{
  cg_moved, cg_key, cg_mouse, motion, PostState, is_numeric_pad, post, post_key, cg_button, drag_of,
  is_same, press_button, release_button, post_motion,
}

abbrev returns_low : ℕ → Bool
returns_low s =
    scancode_to_keycode s == kvk_undefined || keycode_to_scancode (scancode_to_keycode s) == s

low_returns : holds_below returns_low 128 ≡ true
unfolding holds_below keycode_to_scancode scancode_to_keycode
low_returns = refl

-- What the hook gets for a posted key that is not read as a change of modifiers or as typed text.
abbrev pub key_at : ℕ → ℕ → KeyInput
key_at time keycode = record { time = time; keycode = keycode; units = [] }

-- The event that the hook fills in for it, with the virtual code.
abbrev pub key_event : Bool → ℕ → ℕ → HookState → UiohookEvent
key_event down time scancode h =
    fresh_event (if down then key_pressed else key_released) time
      (keyboard (record {
        keycode = scancode;
        rawcode = u16 (scancode_to_keycode scancode);
        keychar = char_undefined;
      }))
      h

abbrev pub tap_key : Bool → KeyInput → TapEvent
tap_key down k = if down then key_down k else key_up k

same_either : (b : Bool) (x : List UiohookEvent) → (if b then x else x) ≡ x
same_either true x = refl
same_either false x = refl

hooked :
    (down : Bool) (k : KeyInput) (h : HookState) (d : Dispatcher)
    → h.session.dispatcher ≡ some d
    → k.units ≡ []
    → (process_event (tap_key down k) h).session.sent
      ≡ fresh_event (if down then key_pressed else key_released) k.time (keyboard (key_data k)) h
        ∷ h.session.sent
unfolding process_event process_key_released
hooked true k h d c e = pressed_sent k h c ∙ rw e (same_either _ _)
hooked false k h d c e =
    ap (λ (z : Session). z.sent) (fire_sent key_released k.time (keyboard (key_data k)) h c)

code_read :
    (scancode : ℕ)
    → scancode < 128
    → scancode_to_keycode scancode ≢ kvk_undefined
    → keycode_to_scancode (scancode_to_keycode scancode) ≡ scancode
code_read scancode h k = ground (arith, holds_below-at returns_low 128 scancode low_returns h)

-- On macOS, posting a key whose virtual code is below 128 and has a native code, when the system makes the
-- event, posts a press or a release of that native code with the new modifier flags; and for a press or
-- a release of that native code, with no text, the hook sends its callback the one event with the
-- virtual code that was posted.
pub posted_key_hooked :
    (down : Bool) (scancode time : ℕ) (s : PostState) (h : HookState) (d : Dispatcher)
    → scancode < 128
    → scancode_to_keycode scancode ≢ kvk_undefined
    → h.session.dispatcher ≡ some d
    → let r = post_key true down scancode s in
      let keycode = scancode_to_keycode scancode in
      (r.posted ≡ some (cg_key keycode down r.state.modifiers (is_numeric_pad scancode)))
      × ((process_event (tap_key down (key_at time keycode)) h).session.sent
          ≡ key_event down time scancode h ∷ h.session.sent)
unfolding post_key post key_data
posted_key_hooked down scancode time s h d low native c = (
  ground arith,
  hooked down (key_at time (scancode_to_keycode scancode)) h d c refl
      ∙ ap
          (λ (code : ℕ).
            fresh_event (if down then key_pressed else key_released) time
              (keyboard (record {
                keycode = code;
                rawcode = u16 (scancode_to_keycode scancode);
                keychar = char_undefined;
              }))
              h
            ∷ h.session.sent)
          (code_read scancode low native),
)

-- On macOS, after a press of one button and a release of another or the same one, a motion is posted
-- without a drag if the two have the same kind of drag, and else still as the drag of the button that is
-- held. Either way it carries the number of the button that was released.
pub motion_after_release :
    (p q m : MouseEventData) (s : PostState)
    → p.button ≢ mouse_nobutton
    → q.button ≢ mouse_nobutton
    → let held = (press_button true p s).state in
      let released = (release_button true q held).state in
      let kind = drag_of p.button in
      (post_motion true m released).posted
      ≡ some (
          cg_mouse
            (motion (if is_same kind (drag_of q.button) then cg_moved else kind))
            m.x
            m.y
            (cg_button q.button))
unfolding press_button release_button post_motion post
motion_after_release p q m s h k = ground (arith, ==_of_ne p.button mouse_nobutton h)
