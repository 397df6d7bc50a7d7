-- ===== src/Windows/Hook/Invariant.antt =====
-- src/windows/input_hook.c: bounds on the state over a run of messages.
use libuiohook.Prelude.{
  ℕ, ◌<◌, ◌≡◌, inl, inr, List, [], ◌∷◌, some, arith, if_both, bit_or-lt, bit_and-le, not16,
  Option-cases,
}
use libuiohook.Event.Masks.{
  mask_button1, mask_button2, mask_button3, mask_button4, mask_button5, mouse_button4,
  mouse_button5,
}
use libuiohook.Event.{EventType, EventData}
use libuiohook.Windows.Wheel.Laws
use libuiohook.Windows.Hook.State.{
  HookState, set_modifier_mask, unset_modifier_mask, fire, not_consumed,
}
use libuiohook.Windows.Hook.Keys.{
  KeyInput, key_modifier, set_key_modifier, unset_key_modifier, fire_typed, process_key_pressed,
  process_key_released,
}
use libuiohook.Windows.Hook.Mouse.{
  MouseInput, track_click, process_button_pressed, fire_clicked, reset_after_release,
  process_button_released, expire_clicks, process_mouse_moved, ignore_wheel, process_mouse_wheel,
}
use libuiohook.Windows.Hook.Proc.{
  KeyMessage, key_down, key_up, other_key, process_key_message, keyboard_hook_event_proc,
  MouseMessage, left_down, right_down, middle_down, extra_down, left_up, right_up, middle_up,
  extra_up, mouse_move, vertical_wheel, horizontal_wheel, other_mouse, process_extra_down,
  process_extra_up, process_mouse_message, mouse_hook_event_proc, Message, keyboard_message,
  mouse_message, run_message, run_messages,
}

-- The mask and the click count fit their 16 bits, and less than a notch of rotation is kept.
pub record IsValid (s : HookState) : Type 0 where
  pub mask_fits : s.current_modifiers < 65536
  pub count_fits : s.click_count < 65536
  pub rotation_partial : Laws.IsValid s.rotation

set-IsValid : (m : ℕ) (s : HookState) → m < 65536 → IsValid s → IsValid (set_modifier_mask m s)
unfolding set_modifier_mask
set-IsValid m s h v = record {
  mask_fits = bit_or-lt 16 s.current_modifiers m v.mask_fits h;
  count_fits = v.count_fits;
  rotation_partial = v.rotation_partial;
}

unset-IsValid : (m : ℕ) (s : HookState) → IsValid s → IsValid (unset_modifier_mask m s)
unfolding unset_modifier_mask
unset-IsValid m s v = record {
  mask_fits = omega (arith, bit_and-le 16 s.current_modifiers (not16 m) v.mask_fits, v.mask_fits);
  count_fits = v.count_fits;
  rotation_partial = v.rotation_partial;
}

key_modifier-lt : (vk : ℕ) {m : ℕ} → key_modifier vk ≡ some m → m < 65536
unfolding key_modifier
key_modifier-lt vk h = ground arith

set_key_modifier-IsValid : (vk : ℕ) (s : HookState) → IsValid s → IsValid (set_key_modifier vk s)
unfolding set_key_modifier
set_key_modifier-IsValid vk s v = elim (Option-cases (key_modifier vk)) [
  | inl e ↦ rw (e, set_key_modifier) v
  | inr (m, e) ↦ rw (e, set_key_modifier) (set-IsValid m s (key_modifier-lt vk e) v)
]

unset_key_modifier-IsValid :
    (vk : ℕ) (s : HookState) → IsValid s → IsValid (unset_key_modifier vk s)
unfolding unset_key_modifier
unset_key_modifier-IsValid vk s v = elim (Option-cases (key_modifier vk)) [
  | inl e ↦ rw (e, unset_key_modifier) v
  | inr (m, e) ↦ rw (e, unset_key_modifier) (unset-IsValid m s v)
]

fire-IsValid :
    (type : EventType) (time : ℕ) (payload : EventData) (s : HookState)
    → IsValid s
    → IsValid (fire type time payload s)
unfolding fire
fire-IsValid type time payload s v = record {
  mask_fits = v.mask_fits;
  count_fits = v.count_fits;
  rotation_partial = v.rotation_partial;
}

fire_typed-IsValid :
    (k : KeyInput) (units : List ℕ) (s : HookState) → IsValid s → IsValid (fire_typed k units s)
unfolding fire_typed
fire_typed-IsValid k [] s v = v
fire_typed-IsValid k (u ∷ units) s v = fire_typed-IsValid k units _ (fire-IsValid _ _ _ s v)

process_key_message-IsValid :
    (m : KeyMessage) (s : HookState) → IsValid s → IsValid (process_key_message m s)
unfolding process_key_message process_key_pressed process_key_released
process_key_message-IsValid (key_down k) s v =
    let fired = fire-IsValid _ _ _ _ (set_key_modifier-IsValid k.vk_code s v) in
    if_both IsValid (not_consumed _) (fire_typed-IsValid k k.units _ fired) fired
process_key_message-IsValid (key_up k) s v =
    fire-IsValid _ _ _ _ (unset_key_modifier-IsValid k.vk_code s v)
process_key_message-IsValid other_key s v = v

process_button_pressed-IsValid :
    (p : MouseInput) (b : ℕ) (s : HookState) → IsValid s → IsValid (process_button_pressed p b s)
unfolding process_button_pressed track_click fire
process_button_pressed-IsValid p b s v = ground arith

process_button_released-IsValid :
    (p : MouseInput) (b : ℕ) (s : HookState) → IsValid s → IsValid (process_button_released p b s)
unfolding process_button_released fire_clicked reset_after_release fire
process_button_released-IsValid p b s v = ground arith

process_mouse_moved-IsValid :
    (p : MouseInput) (s : HookState) → IsValid s → IsValid (process_mouse_moved p s)
unfolding process_mouse_moved expire_clicks fire
process_mouse_moved-IsValid p s v = ground arith

process_mouse_wheel-IsValid :
    (p : MouseInput) (direction : ℕ) (s : HookState)
    → IsValid s
    → IsValid (process_mouse_wheel p direction s)
unfolding process_mouse_wheel ignore_wheel
process_mouse_wheel-IsValid p direction s v =
    let turned =
      Laws.get_scroll_wheel_rotation-IsValid p.delta direction s.rotation v.rotation_partial in
    elim (Option-cases p.wheel_amount) [
      | inl e ↦
          rw e (record {
            mask_fits = v.mask_fits;
            count_fits = omega arith;
            rotation_partial = turned;
          })
      | inr (amount, e) ↦ rw e (
          fire-IsValid _ _ _ _ (record {
            mask_fits = v.mask_fits;
            count_fits = omega arith;
            rotation_partial = turned;
          }))
    ]

process_extra_down-IsValid :
    (p : MouseInput) (s : HookState) → IsValid s → IsValid (process_extra_down p s)
unfolding process_extra_down
process_extra_down-IsValid p s v =
    let pressed = λ (b m : ℕ) (h : m < 65536).
      process_button_pressed-IsValid p b (set_modifier_mask m s) (set-IsValid m s h v) in
    if_both IsValid _ (pressed mouse_button4 mask_button4 (omega arith)) (
      if_both IsValid _ (pressed mouse_button5 mask_button5 (omega arith)) (
        if_both IsValid _ (pressed p.high_word mouse_button4 (omega arith)) (
          if_both IsValid _ (pressed p.high_word mouse_button5 (omega arith))
            (process_button_pressed-IsValid p p.high_word s v))))

process_extra_up-IsValid :
    (p : MouseInput) (s : HookState) → IsValid s → IsValid (process_extra_up p s)
unfolding process_extra_up
process_extra_up-IsValid p s v =
    let released = λ (b m : ℕ).
      process_button_released-IsValid p b (unset_modifier_mask m s) (unset-IsValid m s v) in
    if_both IsValid _ (released mouse_button4 mask_button4) (
      if_both IsValid _ (released mouse_button5 mask_button5) (
        if_both IsValid _ (released mouse_button5 mouse_button4) (
          if_both IsValid _ (released mouse_button5 mouse_button5)
            (process_button_released-IsValid p mouse_button5 s v))))

process_mouse_message-IsValid :
    (m : MouseMessage) (s : HookState) → IsValid s → IsValid (process_mouse_message m s)
unfolding process_mouse_message
process_mouse_message-IsValid (left_down p) s v =
    process_button_pressed-IsValid p _ _ (set-IsValid mask_button1 s (omega arith) v)
process_mouse_message-IsValid (right_down p) s v =
    process_button_pressed-IsValid p _ _ (set-IsValid mask_button2 s (omega arith) v)
process_mouse_message-IsValid (middle_down p) s v =
    process_button_pressed-IsValid p _ _ (set-IsValid mask_button3 s (omega arith) v)
process_mouse_message-IsValid (extra_down p) s v = process_extra_down-IsValid p s v
process_mouse_message-IsValid (left_up p) s v =
    process_button_released-IsValid p _ _ (unset-IsValid mask_button1 s v)
process_mouse_message-IsValid (right_up p) s v =
    process_button_released-IsValid p _ _ (unset-IsValid mask_button2 s v)
process_mouse_message-IsValid (middle_up p) s v =
    process_button_released-IsValid p _ _ (unset-IsValid mask_button3 s v)
process_mouse_message-IsValid (extra_up p) s v = process_extra_up-IsValid p s v
process_mouse_message-IsValid (mouse_move p) s v = process_mouse_moved-IsValid p s v
process_mouse_message-IsValid (vertical_wheel p) s v = process_mouse_wheel-IsValid p _ s v
process_mouse_message-IsValid (horizontal_wheel p) s v = process_mouse_wheel-IsValid p _ s v
process_mouse_message-IsValid other_mouse s v = v

run_message-IsValid : (m : Message) (s : HookState) → IsValid s → IsValid (run_message m s).0
unfolding run_message keyboard_hook_event_proc mouse_hook_event_proc
run_message-IsValid (keyboard_message negative m) s v = process_key_message-IsValid m s v
run_message-IsValid (mouse_message negative m) s v = process_mouse_message-IsValid m s v

-- Every sequence of keyboard and mouse messages, with any callback, keeps the mask and the click count
-- in their 16 bits and less than one notch of rotation in each direction.
pub run_messages-IsValid :
    (ms : List Message) (s : HookState) → IsValid s → IsValid (run_messages ms s)
unfolding run_messages
run_messages-IsValid [] s v = v
run_messages-IsValid (m ∷ ms) s v = run_messages-IsValid ms _ (run_message-IsValid m s v)
