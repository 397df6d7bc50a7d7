-- ===== src/X11/Hook/Invariant.antt =====
-- src/x11/input_hook.c: bounds on the state over recorded data.
use libuiohook.Prelude.{
  ℕ, ◌≤◌, ◌<◌, ◌≡◌, inl, inr, refl, Bool, true, false, List, [], ◌∷◌, Option, none, some, arith,
  ltb, ltb→lt, if_both, bit_or-lt, bit_and-le, not16, Option-cases,
}
use libuiohook.Dispatch.{Session}
use libuiohook.X11.Helper.State.{Helper}
use libuiohook.X11.Hook.State.{
  HookState, Leds, set_modifier_mask, unset_modifier_mask, put_modifier_mask, initialize_locks,
}
use libuiohook.X11.Hook.Fire.{fire}
use libuiohook.X11.Hook.Keys.{
  KeyInput, key_modifier, set_key_modifier, unset_key_modifier, scancode_of, key_press_state,
  key_release_state,
}
use libuiohook.X11.Hook.Buttons.{
  PointerInput, button_mask, virtual_button, set_button_mask, unset_button_mask, track_click,
  process_wheel, process_plain_press, process_button_press, fire_clicked, reset_after_release,
  process_plain_release, process_button_release, expire_clicks, process_motion,
}
use libuiohook.X11.Hook.Proc.{
  Datum, key_press, key_release, button_press, button_release, motion_notify, other_event, Recorded,
  start_of_data, end_of_data, from_server, from_client, other_category, fire_control, process_datum,
  hook_event_proc, run_events, initial_state,
}
use libuiohook.X11.Hook.Startup.{
  StartAnswers, set_if, query_keys, query_buttons, keymap_only, read_modifiers,
  initialize_modifiers,
}
use libuiohook.X11.Hook.Frame.{
  SameInput, process_key_press-SameInput, process_key_release-SameInput,
}

-- The mask and the click count fit their 16 bits, and the tracked button is a virtual button.
pub record IsValid (s : HookState) : Type 0 where
  pub mask_fits : s.mask < 65536
  pub count_fits : s.click_count < 65536
  pub button_known : s.click_button ≤ 5

SameInput-IsValid : {s t : HookState} → SameInput s t → IsValid t → IsValid s
SameInput-IsValid e v = ground arith

set-IsValid : (m : ℕ) (s : HookState) → m < 65536 → IsValid s → IsValid (set_modifier_mask m s)
unfolding set_modifier_mask
set-IsValid m s h v = ground (arith, bit_or-lt 16 s.mask m v.mask_fits h)

unset-IsValid : (m : ℕ) (s : HookState) → IsValid s → IsValid (unset_modifier_mask m s)
unfolding unset_modifier_mask
unset-IsValid m s v = ground (arith, bit_and-le 16 s.mask (not16 m) v.mask_fits)

put-IsValid :
    (on : Bool) (m : ℕ) (s : HookState) → m < 65536 → IsValid s → IsValid (put_modifier_mask on m s)
unfolding put_modifier_mask
put-IsValid true m s h v = set-IsValid m s h v
put-IsValid false m s h v = unset-IsValid m s v

initialize_locks-IsValid :
    (leds : Leds) (s : HookState) → IsValid s → IsValid (initialize_locks leds s)
unfolding initialize_locks
initialize_locks-IsValid leds s v =
    put-IsValid _ _ _ (omega arith)
      (put-IsValid _ _ _ (omega arith) (put-IsValid _ _ _ (omega arith) v))

key_modifier-lt : (code : ℕ) {m : ℕ} → key_modifier code ≡ some m → m < 65536
unfolding key_modifier
key_modifier-lt code h = ground arith

button_mask-lt : (b : ℕ) {m : ℕ} → button_mask b ≡ some m → m < 65536
unfolding button_mask
button_mask-lt b h = ground arith

key_press_state-IsValid : (k : KeyInput) (s : HookState) → IsValid s → IsValid (key_press_state k s)
unfolding key_press_state set_key_modifier
key_press_state-IsValid k s v = elim (Option-cases (key_modifier (scancode_of k s))) [
  | inl e ↦ rw (e, set_key_modifier) (initialize_locks-IsValid k.leds s v)
  | inr (m, e) ↦
      rw (e, set_key_modifier)
        (initialize_locks-IsValid k.leds _ (set-IsValid m s (key_modifier-lt _ e) v))
]

key_release_state-IsValid :
    (k : KeyInput) (s : HookState) → IsValid s → IsValid (key_release_state k s)
unfolding key_release_state unset_key_modifier
key_release_state-IsValid k s v = elim (Option-cases (key_modifier (scancode_of k s))) [
  | inl e ↦ rw (e, unset_key_modifier) (initialize_locks-IsValid k.leds s v)
  | inr (m, e) ↦
      rw (e, unset_key_modifier) (initialize_locks-IsValid k.leds _ (unset-IsValid m s v))
]

set_button_mask-IsValid : (b : ℕ) (s : HookState) → IsValid s → IsValid (set_button_mask b s)
unfolding set_button_mask
set_button_mask-IsValid b s v = elim (Option-cases (button_mask b)) [
  | inl e ↦ rw (e, set_button_mask) v
  | inr (m, e) ↦ rw (e, set_button_mask) (set-IsValid m s (button_mask-lt b e) v)
]

unset_button_mask-IsValid : (b : ℕ) (s : HookState) → IsValid s → IsValid (unset_button_mask b s)
unfolding unset_button_mask
unset_button_mask-IsValid b s v = elim (Option-cases (button_mask b)) [
  | inl e ↦ rw (e, unset_button_mask) v
  | inr (m, e) ↦ rw (e, unset_button_mask) (unset-IsValid m s v)
]

virtual_button-le : (b : ℕ) → virtual_button b ≤ 5
unfolding virtual_button
virtual_button-le b = ground arith

track_click-IsValid :
    (p : PointerInput) (b : ℕ) (s : HookState) → b ≤ 5 → IsValid s → IsValid (track_click p b s)
unfolding track_click
track_click-IsValid p b s h v = ground arith

process_wheel-IsValid : (p : PointerInput) (s : HookState) → IsValid s → IsValid (process_wheel p s)
unfolding process_wheel fire
process_wheel-IsValid p s v = ground arith

process_plain_press-IsValid :
    (p : PointerInput) (b : ℕ) (s : HookState) → IsValid s → IsValid (process_plain_press p b s)
unfolding process_plain_press fire
process_plain_press-IsValid p b s v = ground (
  arith,
  track_click-IsValid p (virtual_button b) (set_button_mask b s) (virtual_button-le b)
      (set_button_mask-IsValid b s v),
)

process_plain_release-IsValid :
    (p : PointerInput) (b : ℕ) (s : HookState) → IsValid s → IsValid (process_plain_release p b s)
unfolding process_plain_release reset_after_release fire_clicked fire
process_plain_release-IsValid p b s v = ground (arith, unset_button_mask-IsValid b s v)

process_motion-IsValid :
    (p : PointerInput) (s : HookState) → IsValid s → IsValid (process_motion p s)
unfolding process_motion expire_clicks fire
process_motion-IsValid p s v = ground arith

process_datum-IsValid : (d : Datum) (s : HookState) → IsValid s → IsValid (process_datum d s)
unfolding process_datum
process_datum-IsValid (key_press k) s v =
    SameInput-IsValid (process_key_press-SameInput k s) (key_press_state-IsValid k s v)
process_datum-IsValid (key_release k) s v =
    SameInput-IsValid (process_key_release-SameInput k s) (key_release_state-IsValid k s v)
process_datum-IsValid (button_press p) s v =
    unfold process_button_press in
    if_both IsValid _ (process_wheel-IsValid p s v) (process_plain_press-IsValid p _ s v)
process_datum-IsValid (button_release p) s v =
    unfold process_button_release in if_both IsValid _ v (process_plain_release-IsValid p _ s v)
process_datum-IsValid (motion_notify p) s v = process_motion-IsValid p s v
process_datum-IsValid other_event s v = v

hook_event_proc-IsValid : (r : Recorded) (s : HookState) → IsValid s → IsValid (hook_event_proc r s)
unfolding hook_event_proc fire_control
hook_event_proc-IsValid (start_of_data time a) s v = ground arith
hook_event_proc-IsValid (end_of_data time) s v = ground arith
hook_event_proc-IsValid (from_server d) s v = process_datum-IsValid d s v
hook_event_proc-IsValid (from_client d) s v = process_datum-IsValid d s v
hook_event_proc-IsValid other_category s v = v

run_events-IsValid_from :
    (rs : List Recorded) (s : HookState) → IsValid s → IsValid (run_events rs s)
unfolding run_events
run_events-IsValid_from [] s v = v
run_events-IsValid_from (r ∷ rs) s v =
    run_events-IsValid_from rs (hook_event_proc r s) (hook_event_proc-IsValid r s v)

set_if-IsValid :
    (on : Bool) (m : ℕ) (s : HookState) → ltb m 65536 ≡ true → IsValid s → IsValid (set_if on m s)
unfolding set_if
set_if-IsValid true m s h v = set-IsValid m s (ltb→lt m 65536 h) v
set_if-IsValid false m s h v = v

-- The eight modifier keys, each with its condition.
set_keys-IsValid :
    (b0 b1 b2 b3 b4 b5 b6 b7 : Bool) (s : HookState)
    → IsValid s
    → IsValid (
        set_if b7 64 (
          set_if b6 4 (
            set_if b5 128
              (set_if b4 8 (set_if b3 32 (set_if b2 2 (set_if b1 16 (set_if b0 1 s))))))))
set_keys-IsValid b0 b1 b2 b3 b4 b5 b6 b7 s v =
    let four =
      set_if-IsValid b3 32 _ refl
        (set_if-IsValid b2 2 _ refl (set_if-IsValid b1 16 _ refl (set_if-IsValid b0 1 s refl v))) in
    set_if-IsValid b7 64 _ refl
      (set_if-IsValid b6 4 _ refl (set_if-IsValid b5 128 _ refl (set_if-IsValid b4 8 _ refl four)))

query_buttons-IsValid : (mask : ℕ) (s : HookState) → IsValid s → IsValid (query_buttons mask s)
unfolding query_buttons
query_buttons-IsValid mask s v = set_if-IsValid _ 4096 _ refl (
    set_if-IsValid _ 2048 _ refl
      (set_if-IsValid _ 1024 _ refl (set_if-IsValid _ 512 _ refl (set_if-IsValid _ 256 s refl v))))

read_modifiers-IsValid :
    (o : Option ℕ) (a : StartAnswers) (s : HookState) → IsValid s → IsValid (read_modifiers o a s)
unfolding read_modifiers query_keys keymap_only
read_modifiers-IsValid none a s v = set_keys-IsValid _ _ _ _ _ _ _ _ s v
read_modifiers-IsValid (some mask) a s v =
    query_buttons-IsValid mask _ (set_keys-IsValid _ _ _ _ _ _ _ _ s v)

initial_state-IsValid :
    (session : Session) (helper : Helper)
    → IsValid (record (initial_state session helper) { mask = 0x0000 })
unfolding initial_state
initial_state-IsValid session helper = omega arith

-- From the state that recording begins with, which `hook_run` and then `initialize_modifiers` set up,
-- whatever the X server answers about the keys, the pointer and the LEDs, after any sequence of
-- recorded data and with any callback, the mask and the click count fit their 16 bits and the tracked
-- button is at most 5.
pub run_events-IsValid :
    (a : StartAnswers) (rs : List Recorded) (session : Session) (helper : Helper)
    → IsValid (run_events rs (initialize_modifiers a (initial_state session helper)))
unfolding initialize_modifiers
run_events-IsValid a rs session helper = run_events-IsValid_from rs _ (
    initialize_locks-IsValid a.leds _
      (read_modifiers-IsValid a.pointer a _ (initial_state-IsValid session helper)))
