-- ===== src/X11/Hook/ButtonEvents.antt =====
-- src/x11/input_hook.c: which events the callback receives for a button.
use mathlib.Core.Path.{ap₂}
use libuiohook.Prelude.{
  is_bit, ℕ, ◌<◌, ◌≡◌, refl, ◌∙◌, ap, Bool, ◌&&◌, ◌||◌, not, List, ◌∷◌, some, arith, ltb, ◌==◌,
  if◌then◌else◌, bit, bit_and, bit_and_buttons,
}
use libuiohook.Event.{UiohookEvent, mouse, mouse_clicked, mouse_pressed, mouse_released}
use libuiohook.Dispatch.{Dispatcher, Session}
use libuiohook.X11.Hook.State.{HookState, set_modifier_mask, unset_modifier_mask}
use libuiohook.X11.Hook.Fire.{fire, fresh_event}
use libuiohook.X11.Hook.KeyEvents.{fire-sent, sent_if, not_consumed-fire}
use libuiohook.X11.Hook.ButtonMasks.{button_bit, bit-unset_button_mask}
use libuiohook.X11.Hook.Buttons.{
  PointerInput, virtual_button, mouse_data, set_button_mask, unset_button_mask, track_click,
  process_plain_press, fire_clicked, reset_after_release, process_plain_release,
}

pub set_button_mask-rest :
    (b : ℕ) (s : HookState)
    → ((set_button_mask b s).session ≡ s.session)
      × ((set_button_mask b s).is_dragged ≡ s.is_dragged)
unfolding set_button_mask set_modifier_mask
set_button_mask-rest b s = ground arith

pub unset_button_mask-rest :
    (b : ℕ) (s : HookState)
    → ((unset_button_mask b s).session ≡ s.session)
      × ((unset_button_mask b s).is_dragged ≡ s.is_dragged)
unfolding unset_button_mask unset_modifier_mask
unset_button_mask-rest b s = ground arith

reset_after_release-session :
    (p : PointerInput) (b : ℕ) (s : HookState) → (reset_after_release p b s).session ≡ s.session
unfolding reset_after_release
reset_after_release-session p b s = ground arith

pub track_click-rest :
    (p : PointerInput) (b : ℕ) (s : HookState)
    → ((track_click p b s).session ≡ s.session) × ((track_click p b s).is_dragged ≡ s.is_dragged)
unfolding track_click
track_click-rest p b s = ground arith

-- The event of a button, filled in in a state.
abbrev pub button_event : PointerInput → ℕ → HookState → UiohookEvent
button_event p b s = fresh_event mouse_released p.time (mouse (mouse_data p (virtual_button b) s)) s

abbrev pub click_event : PointerInput → ℕ → HookState → UiohookEvent
click_event p b s = fresh_event mouse_clicked p.time (mouse (mouse_data p (virtual_button b) s)) s

clicked_test : (b c : Bool) → (not b && not c) ≡ not (b || c)
clicked_test b c = ground arith

fire-is_dragged :
    (p : PointerInput) (b : ℕ) (s : HookState)
    → (fire mouse_released p.time (mouse (mouse_data p (virtual_button b) s)) s).is_dragged
      ≡ s.is_dragged
unfolding fire
fire-is_dragged p b s = refl

click_event-fire :
    (p : PointerInput) (b : ℕ) (s : HookState)
    → click_event p b (fire mouse_released p.time (mouse (mouse_data p (virtual_button b) s)) s)
      ≡ click_event p b s
unfolding fire fresh_event mouse_data
click_event-fire p b s = refl

release_sent :
    (p : PointerInput) (b : ℕ) (s : HookState) (d : Dispatcher)
    → s.session.dispatcher ≡ some d
    → let s2 = fire mouse_released p.time (mouse (mouse_data p (virtual_button b) s)) s in
      (fire_clicked p (virtual_button b) s2).session.sent ≡ (
        if (d s.session.sent (button_event p b s)).reserved == 1 || s.is_dragged
        then button_event p b s ∷ s.session.sent
        else click_event p b s ∷ button_event p b s ∷ s.session.sent)
unfolding fire_clicked
release_sent p b s d h =
    let payload = mouse (mouse_data p (virtual_button b) s) in
    let fired = fire-sent mouse_released p.time payload s h in
    let s2 = fire mouse_released p.time payload s in
    let test =
      ap₂ (λ x y. x && not y) (not_consumed-fire mouse_released p.time payload s h)
        (fire-is_dragged p b s)
      ∙ clicked_test _ s.is_dragged in
    sent_if _ _ _ _ test
      ((fire-sent mouse_clicked p.time (mouse (mouse_data p (virtual_button b) s2)) s2 fired.2).0
        ∙ ap₂ ◌∷◌ (click_event-fire p b s) fired.0)
      fired.0

-- What the callback `d` receives for the release of a button, newest first, after `sent`.
abbrev pub release_events :
    PointerInput → ℕ → HookState → Bool → Dispatcher → List UiohookEvent → List UiohookEvent
release_events p b s dragged d sent =
    if (d sent (button_event p b s)).reserved == 1 || dragged
    then button_event p b s ∷ sent
    else click_event p b s ∷ button_event p b s ∷ sent

pub release_events_sent :
    (p : PointerInput) (b : ℕ) (s : HookState) (d : Dispatcher)
    → s.session.dispatcher ≡ some d
    → (process_plain_release p b s).session.sent
      ≡ release_events p b (unset_button_mask b s) s.is_dragged d s.session.sent
unfolding process_plain_release
release_events_sent p b s d h =
    let (e, f) = unset_button_mask-rest b s in
    let s1 = unset_button_mask b s in
    ap (λ z. z.sent) (reset_after_release-session p (virtual_button b) _)
    ∙ release_sent p b s1 d (ap (λ z. z.dispatcher) e ∙ h)
    ∙ ap₂ (λ (z : Session) g. release_events p b s1 g d z.sent) e f

-- With a callback, the release of a button that is no wheel sends a released event, and then a
-- clicked event unless the callback set `reserved` of the first to 1 or the pointer was being
-- dragged. Both carry the tracked click count, the same position and the same mask: bit 8, 9 or 10 is
-- clear in it after the release of button 1, 2 or 3, bit 12 after that of either extra button (X
-- buttons 8 and 9, so that of the first leaves bit 11, `MASK_BUTTON4`, as it is), and every other bit is
-- as before.
pub process_plain_release_sent :
    (p : PointerInput) (b : ℕ) (s : HookState) (d : Dispatcher) (j : ℕ)
    → s.session.dispatcher ≡ some d
    → j < 16
    → let released = unset_button_mask b s in
      let kept = (if is_bit (button_bit b) j then 0 else bit s.mask j) in
      ((process_plain_release p b s).session.sent
        ≡ release_events p b released s.is_dragged d s.session.sent)
      × (bit (button_event p b released).mask j ≡ kept)
      × (bit (click_event p b released).mask j ≡ kept)
unfolding fresh_event
process_plain_release_sent p b s d j h l =
    (release_events_sent p b s d h, bit-unset_button_mask b s j l, bit-unset_button_mask b s j l)

-- With a callback, the press of a button that is no wheel sends one event: the pressed event, with
-- the button's bit set in its mask and the new click count.
pub process_plain_press_sent :
    (p : PointerInput) (b : ℕ) (s : HookState) (d : Dispatcher)
    → s.session.dispatcher ≡ some d
    → let s1 = track_click p (virtual_button b) (set_button_mask b s) in
      (process_plain_press p b s).session.sent
      ≡ fresh_event mouse_pressed p.time (mouse (mouse_data p (virtual_button b) s1)) s1
        ∷ s.session.sent
unfolding process_plain_press
process_plain_press_sent p b s d h =
    let s0 = set_button_mask b s in
    let s1 = track_click p (virtual_button b) s0 in
    let e = (track_click-rest p (virtual_button b) s0).0 ∙ (set_button_mask-rest b s).0 in
    let event = fresh_event mouse_pressed p.time (mouse (mouse_data p (virtual_button b) s1)) s1 in
    (fire-sent mouse_pressed p.time (mouse (mouse_data p (virtual_button b) s1)) s1
      (ap (λ z. z.dispatcher) e ∙ h)).0
    ∙ ap (λ z. event ∷ z.sent) e

-- Whether some mouse button's bit is set.
abbrev pub some_button : ℕ → Bool
some_button mask =
    bit mask 8 == 1 || bit mask 9 == 1 || bit mask 10 == 1 || bit mask 11 == 1 || bit mask 12 == 1

pub buttons_test : (x : ℕ) → ltb 0 (bit_and x 0x1F00) ≡ some_button x
buttons_test x = ground (arith, bit_and_buttons x)
