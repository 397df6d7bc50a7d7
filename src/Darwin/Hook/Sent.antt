-- ===== src/Darwin/Hook/Sent.antt =====
-- src/darwin/input_hook.c: which events the callback receives for a change of the modifier keys and
-- for an extra mouse button.
use libuiohook.Prelude.{
  ℕ, ◌^◌, ◌≡◌, refl, ◌∙◌, ap, inl, inr, Bool, true, false, List, [], ◌∷◌, Option, none, some, ◌==◌,
  arith, if◌then◌else◌, not, Option-cases,
}
use libuiohook.Event.{
  EventType, EventData, UiohookEvent, keyboard, key_typed, key_pressed, key_released,
}
use libuiohook.Dispatch.{Dispatcher, dispatch_event-some}
use libuiohook.Darwin.Hook.State.{
  HookState, set_modifier_mask, unset_modifier_mask, fire, fresh_event, not_consumed,
}
use libuiohook.Darwin.Hook.Keys.{
  KeyInput, Flags, key_data, typed_data, fire_typed, process_key_pressed, process_key_released,
  toggle_caps_lock, change_modifier, process_modifier_changed,
}
use libuiohook.Darwin.Hook.ModifierBits.{modifier_bit, pair_flag, key_modifier-listed}

-- Firing hands the callback the filled-in event, once.
pub fire_sent :
    (type : EventType) (time : ℕ) (p : EventData) (s : HookState) {d : Dispatcher}
    → s.session.dispatcher ≡ some d
    → (fire type time p s).session ≡ record (s.session) {
      event = d s.session.sent (fresh_event type time p s);
      sent = fresh_event type time p s ∷ s.session.sent;
    }
unfolding fire
fire_sent type time p s h =
    dispatch_event-some (record s.session { event = fresh_event type time p s }) h

-- The typed event of a unit, and those of the units that are left, newest first, after `sent`.
abbrev pub typed_event : KeyInput → HookState → ℕ → UiohookEvent
typed_event k s unit = fresh_event key_typed k.time (keyboard (typed_data k unit)) s

abbrev pub typed_events : KeyInput → HookState → List ℕ → List UiohookEvent → List UiohookEvent
typed_events k s [] sent = sent
typed_events k s (unit ∷ units) sent = typed_events k s units (typed_event k s unit ∷ sent)

fire-typed_event :
    (k : KeyInput) (s : HookState) (type : EventType) (time : ℕ) (p : EventData)
    → typed_event k (fire type time p s) ≡ typed_event k s
unfolding fire fresh_event
fire-typed_event k s type time p = refl

typed_sent :
    (k : KeyInput) (s : HookState) {d : Dispatcher} (units : List ℕ) (t : HookState)
    → t.session.dispatcher ≡ some d
    → typed_event k t ≡ typed_event k s
    → (fire_typed k units t).session.sent ≡ typed_events k s units t.session.sent
unfolding fire_typed
typed_sent k s [] t h e = refl
typed_sent k s (unit ∷ units) t h e =
    let fired = fire_sent key_typed k.time (keyboard (typed_data k unit)) t h in
    typed_sent k s units (fire key_typed k.time (keyboard (typed_data k unit)) t)
      (ap (λ z. z.dispatcher) fired ∙ h) (fire-typed_event k t _ _ _ ∙ e)
    ∙ ap (typed_events k s units) (ap (λ z. z.sent) fired ∙ ap (λ f. f unit ∷ t.session.sent) e)

-- What the callback `d` receives for a key pressed in a state, newest first.
abbrev pub pressed_events : KeyInput → HookState → Dispatcher → List UiohookEvent
pressed_events k s d =
    let pressed = fresh_event key_pressed k.time (keyboard (key_data k)) s in
    let given = pressed ∷ s.session.sent in
    if (d s.session.sent pressed).reserved == 1 then given else typed_events k s k.units given

pub choose :
    (b c : Bool) (x y : HookState) (xs ys : List UiohookEvent)
    → b ≡ not c
    → x.session.sent ≡ xs
    → y.session.sent ≡ ys
    → (if b then x else y).session.sent ≡ (if c then ys else xs)
choose true false x y xs ys h p q = p
choose false true x y xs ys h p q = q
choose true true x y xs ys h p q = cc
choose false false x y xs ys h p q = cc

pub pressed_sent :
    (k : KeyInput) (s : HookState) {d : Dispatcher}
    → s.session.dispatcher ≡ some d
    → (process_key_pressed k s).session.sent ≡ pressed_events k s d
unfolding process_key_pressed not_consumed
pressed_sent k s {d} h =
    let p = keyboard (key_data k) in
    let fired = fire_sent key_pressed k.time p s h in
    choose _ _ _ _ _ _ (ap (λ z. not (z.event.reserved == 1)) fired)
      (typed_sent k s k.units (fire key_pressed k.time p s) (ap (λ z. z.dispatcher) fired ∙ h)
          (fire-typed_event k s _ _ _)
        ∙ ap (λ z. typed_events k s k.units z.sent) fired)
      (ap (λ z. z.sent) fired)

-- What the callback receives for the key whose bit is `b`, if any: a press if the flag that the pair
-- shares is set, and else a release.
abbrev pub change_events : KeyInput → Flags → HookState → Dispatcher → Option ℕ → List UiohookEvent
change_events k flags s d none = s.session.sent
change_events k flags s d (some b) =
    if pair_flag b flags
    then pressed_events k (set_modifier_mask (2 ^ b) s) d
    else fresh_event key_released k.time (keyboard (key_data k)) (unset_modifier_mask (2 ^ b) s)
      ∷ s.session.sent

change_sent :
    (k : KeyInput) (m : ℕ) (down : Bool) (s : HookState) {d : Dispatcher}
    → s.session.dispatcher ≡ some d
    → (change_modifier k (m, down) s).session.sent ≡ (
        if down
        then pressed_events k (set_modifier_mask m s) d
        else fresh_event key_released k.time (keyboard (key_data k)) (unset_modifier_mask m s)
          ∷ s.session.sent)
unfolding change_modifier process_key_released set_modifier_mask unset_modifier_mask
change_sent k m true s h = pressed_sent k (set_modifier_mask m s) h
change_sent k m false s h =
    ap (λ z. z.sent)
      (fire_sent key_released k.time (keyboard (key_data k)) (unset_modifier_mask m s) h)

caps-session : (s : HookState) → (toggle_caps_lock s).session ≡ s.session
unfolding toggle_caps_lock set_modifier_mask unset_modifier_mask
caps-session s = ground arith

-- With a callback, a change of a modifier key on macOS sends what a press of the key sends if the flag
-- that both keys of its pair share is set, and its released event else, both with the new mask. So
-- the release of a key is sent as a press while the other one of its pair is held. For caps lock and
-- keys without a modifier nothing is sent.
pub process_modifier_changed_sent :
    (k : KeyInput) (flags : Flags) (s : HookState) (d : Dispatcher)
    → s.session.dispatcher ≡ some d
    → (process_modifier_changed k flags s).session.sent
      ≡ change_events k flags s d (modifier_bit k.keycode)
unfolding process_modifier_changed
process_modifier_changed_sent k flags s d h = elim (Option-cases (modifier_bit k.keycode)) [
  | inl e ↦ ground (arith, key_modifier-listed k.keycode flags, caps-session s)
  | inr (b, e) ↦
      ground
        (arith, key_modifier-listed k.keycode flags, change_sent k (2 ^ b) (pair_flag b flags) s h)
]
