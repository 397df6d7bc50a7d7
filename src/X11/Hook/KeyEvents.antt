-- ===== src/X11/Hook/KeyEvents.antt =====
-- src/x11/input_hook.c: which events the callback receives for a key.
use mathlib.Core.List.{reverse, reverse-cons, append_assoc}
use mathlib.Core.Path.{ap₂}
use libuiohook.Prelude.{
  ℕ, ◌≡◌, refl, ◌∙◌, sym, ap, Bool, true, false, List, [], ◌∷◌, ◌++◌, map, none, some, ◌==◌,
  if◌then◌else◌, not,
}
use libuiohook.Event.{
  EventType, EventData, UiohookEvent, keyboard, key_typed, key_pressed, key_released,
}
use libuiohook.Dispatch.{Dispatcher, dispatch_event-some}
use libuiohook.X11.Hook.State.{
  HookState, Leds, set_modifier_mask, unset_modifier_mask, put_modifier_mask, initialize_locks,
}
use libuiohook.X11.Hook.Fire.{fire, fresh_event, not_consumed}
use libuiohook.X11.Hook.Keys.{
  KeyInput, key_modifier, set_key_modifier, unset_key_modifier, key_data, typed_data, key_units,
  fire_typed, scancode_of, adjust_keypad, key_press_state, key_release_state, process_key_press,
  process_key_release,
}

-- Firing hands the callback the filled-in event, once.
pub fire-sent :
    (type : EventType) (time : ℕ) (p : EventData) (s : HookState) {d : Dispatcher}
    → s.session.dispatcher ≡ some d
    → ((fire type time p s).session.sent ≡ fresh_event type time p s ∷ s.session.sent)
      × ((fire type time p s).session.event ≡ d s.session.sent (fresh_event type time p s))
      × ((fire type time p s).session.dispatcher ≡ some d)
unfolding fire
fire-sent type time p s h =
    let e = dispatch_event-some (record s.session { event = fresh_event type time p s }) h in
    (ap (λ t. t.sent) e, ap (λ t. t.event) e, ap (λ t. t.dispatcher) e ∙ h)

abbrev pub typed_event : KeyInput → HookState → ℕ → UiohookEvent
typed_event k s unit = fresh_event key_typed k.time (keyboard (typed_data k unit)) s

typed_event-fire :
    (k : KeyInput) (s : HookState) (type : EventType) (time : ℕ) (p : EventData)
    → typed_event k (fire type time p s) ≡ typed_event k s
unfolding fire fresh_event
typed_event-fire k s type time p = refl

reverse-shift {ℓ} :
    {A : Type ℓ} (xs : List A) (x : A) (ys : List A)
    → reverse xs ++ (x ∷ ys) ≡ reverse (x ∷ xs) ++ ys
reverse-shift xs x ys = rw (reverse-cons x xs) (sym (append_assoc (reverse xs) (x ∷ []) ys))

fire_typed-sent :
    (k : KeyInput) (units : List ℕ) (s : HookState) {d : Dispatcher}
    → s.session.dispatcher ≡ some d
    → (fire_typed k units s).session.sent ≡ reverse (map (typed_event k s) units) ++ s.session.sent
unfolding fire_typed
fire_typed-sent k [] s h = refl
fire_typed-sent k (u ∷ units) s h =
    let fired = fire-sent key_typed k.time (keyboard (typed_data k u)) s h in
    fire_typed-sent k units _ fired.2
    ∙ ap₂ (λ f z. reverse (map f units) ++ z) (typed_event-fire k s _ _ _) fired.0
    ∙ reverse-shift (map (typed_event k s) units) (typed_event k s u) s.session.sent

-- What the callback `d` receives for a key press, newest first, after `sent`: the pressed event,
-- and then one typed event for each UTF-16 unit, unless it set `reserved` of the first to 1.
abbrev pub press_events :
    KeyInput → HookState → ℕ → Dispatcher → List UiohookEvent → List UiohookEvent
press_events k s code d sent =
    let pressed = fresh_event key_pressed k.time (keyboard (key_data k code)) s in
    if (d sent pressed).reserved == 1
    then pressed ∷ sent
    else reverse (map (typed_event k s) (key_units k)) ++ (pressed ∷ sent)

-- Both branches, and the test negated.
pub sent_if :
    (b c : Bool) (x y : HookState) {xs ys : List UiohookEvent}
    → b ≡ not c
    → x.session.sent ≡ xs
    → y.session.sent ≡ ys
    → (if b then x else y).session.sent ≡ (if c then ys else xs)
sent_if true true x y h p q = cc
sent_if true false x y h p q = p
sent_if false true x y h p q = q
sent_if false false x y h p q = cc

pub not_consumed-fire :
    (type : EventType) (time : ℕ) (p : EventData) (s : HookState) {d : Dispatcher}
    → s.session.dispatcher ≡ some d
    → not_consumed (fire type time p s)
      ≡ not ((d s.session.sent (fresh_event type time p s)).reserved == 1)
unfolding not_consumed
not_consumed-fire type time p s h = ap (λ e. not (e.reserved == 1)) (fire-sent type time p s h).1

press_sent :
    (k : KeyInput) (s : HookState) (code : ℕ) (d : Dispatcher)
    → s.session.dispatcher ≡ some d
    → let s2 = fire key_pressed k.time (keyboard (key_data k code)) s in
      (if not_consumed s2 then fire_typed k (key_units k) s2 else s2).session.sent
      ≡ press_events k s code d s.session.sent
press_sent k s code d h =
    let p = keyboard (key_data k code) in
    let fired = fire-sent key_pressed k.time p s h in
    sent_if _ _ _ _ (not_consumed-fire key_pressed k.time p s h)
      (fire_typed-sent k (key_units k) _ fired.2
        ∙ ap₂ (λ f z. reverse (map f (key_units k)) ++ z) (typed_event-fire k s _ _ _) fired.0)
      fired.0

put-session : (on : Bool) (m : ℕ) (s : HookState) → (put_modifier_mask on m s).session ≡ s.session
unfolding put_modifier_mask
put-session true m s = refl
put-session false m s = refl

pub initialize_locks-session :
    (leds : Leds) (s : HookState) → (initialize_locks leds s).session ≡ s.session
unfolding initialize_locks
initialize_locks-session leds s = put-session _ _ _ ∙ put-session _ _ _ ∙ put-session _ _ s

key_press_state-session : (k : KeyInput) (s : HookState) → (key_press_state k s).session ≡ s.session
unfolding key_press_state set_key_modifier set_modifier_mask
key_press_state-session k s =
    initialize_locks-session k.leds _
    ∙ (elim (key_modifier (scancode_of k s))
        as (λ o.
          (elim o as (λ x. HookState) [ none ↦ s | some m ↦ set_modifier_mask m s ]).session
          ≡ s.session) [ none ↦ refl | some m ↦ refl ])

key_release_state-session :
    (k : KeyInput) (s : HookState) → (key_release_state k s).session ≡ s.session
unfolding key_release_state unset_key_modifier unset_modifier_mask
key_release_state-session k s =
    initialize_locks-session k.leds _
    ∙ (elim (key_modifier (scancode_of k s))
        as (λ o.
          (elim o as (λ x. HookState) [ none ↦ s | some m ↦ unset_modifier_mask m s ]).session
          ≡ s.session) [ none ↦ refl | some m ↦ refl ])

-- With a callback `d`, a key press sends the pressed event, and then one typed event for each
-- UTF-16 unit of the key, in order, unless the callback set `reserved` of the pressed event to 1.
-- All of them carry the mask after the key was applied.
pub process_key_press_sent :
    (k : KeyInput) (s : HookState) (d : Dispatcher)
    → s.session.dispatcher ≡ some d
    → (process_key_press k s).session.sent
      ≡ press_events k
          (key_press_state k s)
          (adjust_keypad (key_press_state k s) (scancode_of k s))
          d
          s.session.sent
unfolding process_key_press
process_key_press_sent k s d h =
    let e = key_press_state-session k s in
    let code = adjust_keypad (key_press_state k s) (scancode_of k s) in
    press_sent k (key_press_state k s) code d (ap (λ z. z.dispatcher) e ∙ h)
    ∙ ap (λ z. press_events k (key_press_state k s) code d z.sent) e

-- With a callback, a key release sends its released event, with the mask after the release, and
-- nothing else.
pub process_key_release_sent :
    (k : KeyInput) (s : HookState) (d : Dispatcher)
    → s.session.dispatcher ≡ some d
    → let s1 = key_release_state k s in
      (process_key_release k s).session.sent
      ≡ fresh_event key_released k.time
          (keyboard (key_data k (adjust_keypad s1 (scancode_of k s))))
          s1
        ∷ s.session.sent
unfolding process_key_release
process_key_release_sent k s d h =
    let e = key_release_state-session k s in
    let s1 = key_release_state k s in
    let p = keyboard (key_data k (adjust_keypad s1 (scancode_of k s))) in
    (fire-sent key_released k.time p s1 (ap (λ z. z.dispatcher) e ∙ h)).0
    ∙ ap (λ z. fresh_event key_released k.time p s1 ∷ z.sent) e
