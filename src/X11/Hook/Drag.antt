-- ===== src/X11/Hook/Drag.antt =====
-- src/x11/input_hook.c: motion, dragging, and what dragging does to clicks.
use mathlib.Core.Path.{ap₂}
use libuiohook.Prelude.{ℕ, ◌≡◌, ◌∙◌, ap, Bool, true, ◌∷◌, some, arith, ltb, if◌then◌else◌, bit_and}
use libuiohook.Event.{mouse, mouse_pressed, mouse_moved, mouse_dragged}
use libuiohook.Event.Masks.{mouse_nobutton}
use libuiohook.Dispatch.{Dispatcher, Session}
use libuiohook.X11.Hook.State.{HookState, get_modifiers}
use libuiohook.X11.Hook.Fire.{fire, fresh_event}
use libuiohook.X11.Hook.KeyEvents.{fire-sent}
use libuiohook.X11.Hook.ButtonMasks.{button_bit, process_plain_press-mask, bit-set_button_mask}
use libuiohook.X11.Hook.ButtonEvents.{
  some_button, buttons_test, button_event, release_events, release_events_sent,
  set_button_mask-rest, track_click-rest,
}
use libuiohook.X11.Hook.Buttons.{
  PointerInput, virtual_button, mouse_data, set_button_mask, unset_button_mask, track_click,
  process_plain_press, process_plain_release, expire_clicks, process_motion,
}

expire_clicks-rest :
    (p : PointerInput) (s : HookState)
    → ((expire_clicks p s).session ≡ s.session) × ((expire_clicks p s).mask ≡ s.mask)
unfolding expire_clicks
expire_clicks-rest p s = ground arith

-- After a motion the hook counts the pointer as dragged exactly when some mouse button's bit is set
-- in the mask.
pub process_motion-is_dragged :
    (p : PointerInput) (s : HookState) → (process_motion p s).is_dragged ≡ some_button s.mask
unfolding process_motion fire get_modifiers
process_motion-is_dragged p s =
    ap (λ m. ltb 0 (bit_and m 0x1F00)) (expire_clicks-rest p s).1 ∙ buttons_test s.mask

-- With a callback, a motion sends one event, a dragged event exactly when some mouse button's bit is
-- set in the mask and else a moved event.
pub process_motion_sent :
    (p : PointerInput) (s : HookState) (d : Dispatcher)
    → s.session.dispatcher ≡ some d
    → let t = record (expire_clicks p s) { is_dragged = some_button s.mask } in
      (process_motion p s).session.sent
      ≡ fresh_event
          (if some_button s.mask then mouse_dragged else mouse_moved)
          p.time
          (mouse (mouse_data p mouse_nobutton t))
          t
        ∷ s.session.sent
unfolding process_motion get_modifiers
process_motion_sent p s d h =
    let (e, f) = expire_clicks-rest p s in
    let test = ap (λ m. ltb 0 (bit_and m 0x1F00)) f ∙ buttons_test s.mask in
    let event = λ (g : Bool) (t : HookState).
      fresh_event (if g then mouse_dragged else mouse_moved) p.time
        (mouse (mouse_data p mouse_nobutton t)) t in
    let s1 = expire_clicks p s in
    let s2 = record s1 { is_dragged = ltb 0 (bit_and s1.mask 0x1F00) } in
    (fire-sent _ p.time (mouse (mouse_data p mouse_nobutton s2)) s2
      (ap (λ z. z.dispatcher) e ∙ h)).0
    ∙ ap₂ (λ g (z : Session). event g (record s1 { is_dragged = g }) ∷ z.sent) test e

press-is_dragged :
    (p : PointerInput) (b : ℕ) (s : HookState)
    → ((process_plain_press p b s).is_dragged ≡ s.is_dragged)
unfolding process_plain_press fire
press-is_dragged p b s =
    (track_click-rest p (virtual_button b) (set_button_mask b s)).1 ∙ (set_button_mask-rest b s).1

-- While the pointer counts as dragged a release sends no click.
dragged_release :
    (p : PointerInput) (b : ℕ) (s : HookState) (d : Dispatcher)
    → s.session.dispatcher ≡ some d
    → s.is_dragged ≡ true
    → (process_plain_release p b s).session.sent
      ≡ button_event p b (unset_button_mask b s) ∷ s.session.sent
dragged_release p b s d h g =
    release_events_sent p b s d h
    ∙ ap (λ x. release_events p b (unset_button_mask b s) x d s.session.sent) g
    ∙ ground arith

press-dispatcher :
    (p : PointerInput) (b : ℕ) (s : HookState) (d : Dispatcher)
    → s.session.dispatcher ≡ some d
    → (process_plain_press p b s).session.dispatcher ≡ some d
unfolding process_plain_press
press-dispatcher p b s d h =
    let s0 = set_button_mask b s in
    let s1 = track_click p (virtual_button b) s0 in
    let e = (track_click-rest p (virtual_button b) s0).0 ∙ (set_button_mask-rest b s).0 in
    (fire-sent mouse_pressed p.time _ s1 (ap (λ z. z.dispatcher) e ∙ h)).2

motion-dispatcher :
    (p : PointerInput) (s : HookState) (d : Dispatcher)
    → s.session.dispatcher ≡ some d
    → (process_motion p s).session.dispatcher ≡ some d
unfolding process_motion
motion-dispatcher p s d h =
    (fire-sent _ p.time _ _ (ap (λ z. z.dispatcher) (expire_clicks-rest p s).0 ∙ h)).2

press_some_button :
    (b : ℕ) (s : HookState) {k : ℕ}
    → button_bit b ≡ some k
    → some_button (set_button_mask b s).mask ≡ true
press_some_button b s h = ground (
  arith,
  bit-set_button_mask b s 8,
  bit-set_button_mask b s 9,
  bit-set_button_mask b s 10,
  bit-set_button_mask b s 12,
)

-- A button that is pressed, dragged and released makes no click: whichever tracked button `b` is
-- pressed, after a motion its release sends the released event alone.
pub drag_no_click :
    (press move release : PointerInput) (b : ℕ) (s : HookState) (d : Dispatcher) {k : ℕ}
    → button_bit b ≡ some k
    → s.session.dispatcher ≡ some d
    → let t = process_motion move (process_plain_press press b s) in
      (process_plain_release release b t).session.sent
      ≡ button_event release b (unset_button_mask b t) ∷ t.session.sent
drag_no_click press move release b s d e h =
    let t = process_plain_press press b s in
    dragged_release release b (process_motion move t) d
      (motion-dispatcher move t d (press-dispatcher press b s d h))
      (process_motion-is_dragged move t
        ∙ ap some_button (process_plain_press-mask press b s)
        ∙ press_some_button b s e)

-- While the hook counts the pointer as dragged, a press and a release of any button `b` with no motion
-- in between send no clicked event, whatever the callback does: the release sends the released event
-- alone.
pub stale_drag_no_click :
    (press release : PointerInput) (b : ℕ) (s : HookState) (d : Dispatcher)
    → s.is_dragged ≡ true
    → s.session.dispatcher ≡ some d
    → let t = process_plain_press press b s in
      (process_plain_release release b t).session.sent
      ≡ button_event release b (unset_button_mask b t) ∷ t.session.sent
stale_drag_no_click press release b s d g h =
    dragged_release release b (process_plain_press press b s) d (press-dispatcher press b s d h)
      (press-is_dragged press b s ∙ g)
