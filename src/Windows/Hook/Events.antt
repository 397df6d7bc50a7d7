-- ===== src/Windows/Hook/Events.antt =====
-- src/windows/input_hook.c: what the callback receives, and what the hook procedures answer for it.
use mathlib.Core.Path.{ap₂}
use libuiohook.Prelude.{
  ℕ, ◌%◌, ◌<◌, ◌≡◌, refl, ◌∙◌, ap, Bool, true, false, ◌&&◌, ◌||◌, not, List, ◌∷◌, some, arith, ◌==◌,
  if◌then◌else◌, ℤ, leb_ℤ, signed32, sub32, sub64,
}
use libuiohook.Event.{
  EventType, EventData, UiohookEvent, keyboard, mouse, key_released, mouse_clicked, mouse_released,
}
use libuiohook.Dispatch.{Dispatcher, Session, dispatch_event-some}
use libuiohook.Windows.Hook.State.{HookState, unset_modifier_mask, fire, fresh_event, not_consumed}
use libuiohook.Windows.Hook.Keys.{KeyInput, unset_key_modifier, key_data, process_key_released}
use libuiohook.Windows.Hook.Mouse.{
  MouseInput, mouse_data, same_point, is_multi_click, is_multi_click_wide, fire_clicked,
  reset_after_release, process_button_released, process_mouse_moved,
}
use libuiohook.Windows.Hook.Proc.{
  call_next, consumed, hook_result, key_up, process_key_message, keyboard_hook_event_proc,
  mouse_move, process_mouse_message, mouse_hook_event_proc,
}

-- Firing hands the callback the filled-in event, once.
pub fire-sent_windows :
    (type : EventType) (time : ℕ) (p : EventData) (s : HookState) {d : Dispatcher}
    → s.session.dispatcher ≡ some d
    → ((fire type time p s).session.sent ≡ fresh_event type time p s ∷ s.session.sent)
      × ((fire type time p s).session.event ≡ d s.session.sent (fresh_event type time p s))
      × ((fire type time p s).session.dispatcher ≡ some d)
unfolding fire
fire-sent_windows type time p s h =
    let e = dispatch_event-some (record s.session { event = fresh_event type time p s }) h in
    (ap (λ t. t.sent) e, ap (λ t. t.event) e, ap (λ t. t.dispatcher) e ∙ h)

unset_key_modifier-session :
    (vk : ℕ) (s : HookState) → (unset_key_modifier vk s).session ≡ s.session
unfolding unset_key_modifier unset_modifier_mask
unset_key_modifier-session vk s = ground arith

-- The event of a key's release.
abbrev pub key_up_event : KeyInput → HookState → UiohookEvent
key_up_event k s =
    fresh_event key_released k.time (keyboard (key_data k)) (unset_key_modifier k.vk_code s)

-- With a callback, a key release hands it one event, with the key's bit clear in the mask; and the
-- hook procedure swallows the native event exactly if `nCode` is not negative and the callback set
-- `reserved` of that event to 1.
pub key_up_result :
    (negative : Bool) (k : KeyInput) (s : HookState) (d : Dispatcher)
    → s.session.dispatcher ≡ some d
    → let (t, result) = keyboard_hook_event_proc negative (key_up k) s in
      (t.session.sent ≡ key_up_event k s ∷ s.session.sent)
      × (result ≡ (
          if negative || not ((d s.session.sent (key_up_event k s)).reserved == 1)
          then call_next
          else consumed))
unfolding keyboard_hook_event_proc process_key_message process_key_released hook_result not_consumed
key_up_result negative k s d h =
    let e = unset_key_modifier-session k.vk_code s in
    let fired =
      fire-sent_windows key_released k.time (keyboard (key_data k)) (unset_key_modifier k.vk_code s)
        (ap (λ z. z.dispatcher) e ∙ h) in
    (
      fired.0 ∙ ap (λ (z : Session). key_up_event k s ∷ z.sent) e,
      ap (λ (x : UiohookEvent). if negative || not (x.reserved == 1) then call_next else consumed)
          (fired.1 ∙ ap (λ (z : Session). d z.sent (key_up_event k s)) e),
    )

-- A motion to the point of the last press is not reported; but if the callback had set `reserved` of
-- the last event to 1, whatever event that was, the hook procedure swallows the motion.
pub stale_motion_consumed :
    (p : MouseInput) (s : HookState)
    → same_point s.last_click p.pt ≡ true
    → s.session.event.reserved ≡ 1
    → mouse_hook_event_proc false (mouse_move p) s ≡ (s, consumed)
unfolding mouse_hook_event_proc process_mouse_message process_mouse_moved hook_result not_consumed
stale_motion_consumed p s here stale = ground arith

-- The elapsed time of two 32-bit times is the same whether the difference is taken in 32 bits, as for
-- a press, or in 64 bits and then cut to 32, as for a release and a motion; also when the time wrapped.
pub is_multi_click_wide-is_multi_click :
    (time click_time : ℕ) (limit : ℤ)
    → time < 4294967296
    → click_time < 4294967296
    → is_multi_click_wide time click_time limit ≡ is_multi_click time click_time limit
unfolding is_multi_click_wide is_multi_click
is_multi_click_wide-is_multi_click time click_time limit h k =
    ap (λ t. leb_ℤ (signed32 t) limit) same
  where
    same : sub64 time click_time % 4294967296 ≡ sub32 time click_time
    same = omega arith

clicked_test : (b c : Bool) → (not b && c) ≡ not (b || not c)
clicked_test b c = ground arith

-- Both branches, and the test negated.
sent_if :
    (b c : Bool) (x y : HookState) {xs ys : List UiohookEvent}
    → b ≡ not c
    → x.session.sent ≡ xs
    → y.session.sent ≡ ys
    → (if b then x else y).session.sent ≡ (if c then ys else xs)
sent_if true true x y h p q = cc
sent_if true false x y h p q = p
sent_if false true x y h p q = q
sent_if false false x y h p q = cc

abbrev pub release_event : MouseInput → ℕ → HookState → UiohookEvent
release_event p b s = fresh_event mouse_released p.time (mouse (mouse_data p b s)) s

abbrev pub click_event : MouseInput → ℕ → HookState → UiohookEvent
click_event p b s = fresh_event mouse_clicked p.time (mouse (mouse_data p b s)) s

-- What the callback `d` receives for the release of a button, newest first, after `sent`.
abbrev pub release_events :
    MouseInput → ℕ → HookState → Dispatcher → List UiohookEvent → List UiohookEvent
release_events p b s d sent =
    if (d sent (release_event p b s)).reserved == 1 || not (same_point s.last_click p.pt)
    then release_event p b s ∷ sent
    else click_event p b s ∷ release_event p b s ∷ sent

reset-session :
    (p : MouseInput) (b : ℕ) (s : HookState) → (reset_after_release p b s).session ≡ s.session
unfolding reset_after_release
reset-session p b s = ground arith

release_frame :
    (p : MouseInput) (b : ℕ) (s : HookState)
    → let t = fire mouse_released p.time (mouse (mouse_data p b s)) s in
      (t.last_click ≡ s.last_click) × (click_event p b t ≡ click_event p b s)
unfolding fire fresh_event mouse_data
release_frame p b s = (refl, refl)

-- With a callback, the release of a button sends a released event, and then a clicked event unless the
-- callback set `reserved` of the first to 1 or the pointer is not where the last press was.
pub process_button_released_sent :
    (p : MouseInput) (b : ℕ) (s : HookState) (d : Dispatcher)
    → s.session.dispatcher ≡ some d
    → (process_button_released p b s).session.sent ≡ release_events p b s d s.session.sent
unfolding process_button_released fire_clicked not_consumed
process_button_released_sent p b s d h =
    let payload = mouse (mouse_data p b s) in
    let fired = fire-sent_windows mouse_released p.time payload s h in
    let t = fire mouse_released p.time payload s in
    let clicked = fire-sent_windows mouse_clicked p.time (mouse (mouse_data p b t)) t fired.2 in
    let (point, event) = release_frame p b s in
    let test =
      ap₂ (λ (x : UiohookEvent) y. not (x.reserved == 1) && same_point y p.pt) fired.1 point
      ∙ clicked_test _ _ in
    ap (λ z. z.sent) (reset-session p b _)
    ∙ sent_if _ _ _ t test (clicked.0 ∙ ap₂ ◌∷◌ event fired.0) fired.0
