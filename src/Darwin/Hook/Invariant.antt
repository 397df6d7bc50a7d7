-- ===== src/Darwin/Hook/Invariant.antt =====
-- src/darwin/input_hook.c: bounds and kept bits over a run of events.
use libuiohook.Prelude.{
  ℕ, ◌<◌, ◌≡◌, refl, inl, inr, Bool, true, false, List, [], ◌∷◌, none, some, arith, ◌==◌, if_both,
  bit, Option-cases,
}
use libuiohook.Event.Masks.{mouse_button4, mouse_button5}
use libuiohook.Darwin.Hook.State.{HookState, fire, not_consumed}
use libuiohook.Darwin.Hook.Keys.{
  KeyInput, Flags, SystemInput, key_modifier, fire_typed, process_key_pressed, process_key_released,
  toggle_caps_lock, change_modifier, process_modifier_changed, system_keycode, system_key_code,
  is_key_down, process_made_up, process_message, process_system_key,
}
use libuiohook.Darwin.Hook.Mouse.{
  MouseInput, WheelInput, track_click, fire_clicked, reset_after_release, expire_clicks,
  process_button_pressed, process_button_released, process_mouse_moved, process_mouse_wheel,
}
use libuiohook.Darwin.Hook.Proc.{
  TapEvent, key_down, key_up, flags_changed, sys_defined, left_mouse_down, right_mouse_down,
  other_mouse_down, left_mouse_up, right_mouse_up, other_mouse_up, dragged, moved, scroll_wheel,
  disabled_by_timeout, other_event, set_extra, unset_extra, process_other_down, process_other_up,
  reenable_tap, process_event, hook_event_proc, run_events,
}
use libuiohook.Darwin.Hook.Steps.{
  Kept, index, Steps, Steps-refl, Steps-trans, set-Steps, unset-Steps, fire-Steps, same_mask-Steps,
  key_modifier-is_allowed,
}

typed-Steps : (k : KeyInput) (units : List ℕ) (s : HookState) → Steps s (fire_typed k units s)
unfolding fire_typed
typed-Steps k [] s = Steps-refl s
typed-Steps k (u ∷ units) s = Steps-trans (fire-Steps _ _ _ s) (typed-Steps k units _)

pressed-Steps : (k : KeyInput) (s : HookState) → Steps s (process_key_pressed k s)
unfolding process_key_pressed
pressed-Steps k s =
    if_both (Steps s) (not_consumed _) (Steps-trans (fire-Steps _ _ _ s) (typed-Steps k k.units _))
      (fire-Steps _ _ _ s)

released-Steps : (k : KeyInput) (s : HookState) → Steps s (process_key_released k s)
unfolding process_key_released
released-Steps k s = fire-Steps _ _ _ s

caps-Steps : (s : HookState) → Steps s (toggle_caps_lock s)
unfolding toggle_caps_lock
caps-Steps s = if_both (Steps s) _ (unset-Steps _ s refl) (set-Steps _ s refl)

change-Steps :
    (k : KeyInput) (m : ℕ) (down : Bool) (flags : Flags) (s : HookState)
    → key_modifier k.keycode flags ≡ some (m, down)
    → Steps s (change_modifier k (m, down) s)
unfolding change_modifier
change-Steps k m down flags s e =
    let allowed = key_modifier-is_allowed k.keycode flags m down e in
    if_both (Steps s) down (Steps-trans (set-Steps m s allowed) (pressed-Steps k _))
      (Steps-trans (unset-Steps m s allowed) (released-Steps k _))

modifier-Steps :
    (k : KeyInput) (flags : Flags) (s : HookState) → Steps s (process_modifier_changed k flags s)
unfolding process_modifier_changed
modifier-Steps k flags s = elim (Option-cases (key_modifier k.keycode flags)) [
  | inl e ↦ rw (e, process_modifier_changed) (if_both (Steps s) _ (caps-Steps s) (Steps-refl s))
  | inr ((m, down), e) ↦ rw (e, process_modifier_changed) (change-Steps k m down flags s e)
]

made_up-Steps : (down : Bool) (k : KeyInput) (s : HookState) → Steps s (process_made_up down k s)
unfolding process_made_up
made_up-Steps down k s = if_both (Steps s) down (pressed-Steps k s) (released-Steps k s)

message-Steps : (p : SystemInput) (m : ℕ × ℕ) (s : HookState) → Steps s (process_message p m s)
unfolding process_message
message-Steps p (subtype, data1) s = elim (Option-cases (system_keycode (system_key_code data1))) [
  | inl e ↦ rw (e, process_message) (Steps-refl s)
  | inr (code, e) ↦
      rw (e, process_message)
        (if_both (Steps s) _ (made_up-Steps (is_key_down data1) _ s) (Steps-refl s))
]

system-Steps : (p : SystemInput) (s : HookState) → Steps s (process_system_key p s)
unfolding process_system_key
system-Steps p s =
    elim p.message
      as (λ o. Steps s (elim o as (λ x. HookState) [ none ↦ s | some m ↦ process_message p m s ])) [
        | none ↦ Steps-refl s
        | some m ↦ message-Steps p m s
      ]

button_down-Steps :
    (p : MouseInput) (b : ℕ) (s : HookState) → Steps s (process_button_pressed p b s)
unfolding process_button_pressed track_click
button_down-Steps p b s =
    Steps-trans (same_mask-Steps s _ (ground arith) (ground arith)) (fire-Steps _ _ _ _)

button_up-Steps : (p : MouseInput) (b : ℕ) (s : HookState) → Steps s (process_button_released p b s)
unfolding process_button_released reset_after_release fire_clicked fire
button_up-Steps p b s = same_mask-Steps s _ (ground arith) (ground arith)

motion-Steps : (p : MouseInput) (s : HookState) → Steps s (process_mouse_moved p s)
unfolding process_mouse_moved expire_clicks
motion-Steps p s =
    Steps-trans (same_mask-Steps s _ (ground arith) (ground arith)) (fire-Steps _ _ _ _)

wheel-Steps : (p : WheelInput) (s : HookState) → Steps s (process_mouse_wheel p s)
unfolding process_mouse_wheel
wheel-Steps p s =
    let reset = same_mask-Steps s _ refl (λ h. omega arith) in
    if_both (Steps s) _ (Steps-trans reset (fire-Steps _ _ _ _)) reset

set_extra-Steps : (b : ℕ) (s : HookState) → Steps s (set_extra b s)
unfolding set_extra
set_extra-Steps b s =
    if_both (Steps s) (b == 4) (set-Steps mouse_button4 s refl)
      (if_both (Steps s) (b == 5) (set-Steps mouse_button5 s refl) (Steps-refl s))

unset_extra-Steps : (b : ℕ) (s : HookState) → Steps s (unset_extra b s)
unfolding unset_extra
unset_extra-Steps b s =
    if_both (Steps s) (b == 4) (unset-Steps mouse_button4 s refl)
      (if_both (Steps s) (b == 5) (unset-Steps mouse_button5 s refl) (Steps-refl s))

other_down-Steps : (p : MouseInput) (s : HookState) → Steps s (process_other_down p s)
unfolding process_other_down
other_down-Steps p s =
    if_both (Steps s) _ (Steps-trans (set_extra-Steps _ s) (button_down-Steps p _ _)) (Steps-refl s)

other_up-Steps : (p : MouseInput) (s : HookState) → Steps s (process_other_up p s)
unfolding process_other_up
other_up-Steps p s =
    if_both (Steps s) _ (Steps-trans (unset_extra-Steps _ s) (button_down-Steps p _ _))
      (Steps-refl s)

tap-Steps : (port : Bool) (s : HookState) → Steps s (reenable_tap port s)
unfolding reenable_tap
tap-Steps true s = same_mask-Steps s _ refl (λ h. h)
tap-Steps false s = same_mask-Steps s _ refl (λ h. h)

event-Steps : (e : TapEvent) (s : HookState) → Steps s (process_event e s)
unfolding process_event
event-Steps (key_down k) s = pressed-Steps k s
event-Steps (key_up k) s = released-Steps k s
event-Steps (flags_changed k flags) s = modifier-Steps k flags s
event-Steps (sys_defined p) s = system-Steps p s
event-Steps (left_mouse_down p) s = Steps-trans (set-Steps _ s refl) (button_down-Steps p _ _)
event-Steps (right_mouse_down p) s = Steps-trans (set-Steps _ s refl) (button_down-Steps p _ _)
event-Steps (other_mouse_down p) s = other_down-Steps p s
event-Steps (left_mouse_up p) s = Steps-trans (unset-Steps _ s refl) (button_up-Steps p _ _)
event-Steps (right_mouse_up p) s = Steps-trans (unset-Steps _ s refl) (button_up-Steps p _ _)
event-Steps (other_mouse_up p) s = other_up-Steps p s
event-Steps (dragged p) s = Steps-trans (same_mask-Steps s _ refl (λ h. h)) (motion-Steps p _)
event-Steps (moved p) s = Steps-trans (same_mask-Steps s _ refl (λ h. h)) (motion-Steps p _)
event-Steps (scroll_wheel p) s = wheel-Steps p s
event-Steps (disabled_by_timeout port) s = tap-Steps port s
event-Steps other_event s = Steps-refl s

run-Steps : (es : List TapEvent) (s : HookState) → Steps s (run_events es s)
unfolding run_events hook_event_proc
run-Steps [] s = Steps-refl s
run-Steps (e ∷ es) s = Steps-trans (event-Steps e s) (run-Steps es _)

-- The mask and the click count fit their 16 bits.
pub record IsValid (s : HookState) : Type 0 where
  pub mask_fits : s.current_modifiers < 65536
  pub count_fits : s.click_count < 65536

-- On macOS every sequence of events from the tap, with any callback, keeps the mask and the click count
-- in their 16 bits.
pub tap_events-IsValid :
    (es : List TapEvent) (s : HookState) → IsValid s → IsValid (run_events es s)
tap_events-IsValid es s v =
    let r = run-Steps es s in
    record { mask_fits = r.mask_fits v.mask_fits; count_fits = r.count_fits v.count_fits }

-- On macOS no sequence of events from the tap, presses and releases of extra mouse buttons among
-- them, changes the bits of the mouse buttons 3, 4 and 5, of num lock or of scroll lock in the mask.
pub tap_events_keep :
    (es : List TapEvent) (s : HookState) (i : Kept)
    → bit (run_events es s).current_modifiers (index i) ≡ bit s.current_modifiers (index i)
tap_events_keep es s i = (run-Steps es s).kept i
