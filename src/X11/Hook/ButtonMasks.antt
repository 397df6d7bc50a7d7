-- ===== src/X11/Hook/ButtonMasks.antt =====
-- src/x11/input_hook.c: how button events and runs of recorded data move the modifier mask.
use libuiohook.Prelude.{
  bit-set, bit-unset, find_bit, is_bit, power, ℕ, ◌^◌, ◌<◌, ◌≡◌, refl, ◌∙◌, ap, inl, inr, true,
  false, List, [], ◌∷◌, Option, none, some, arith, if◌then◌else◌, bit, Option-cases, Bool-cases,
}
use libuiohook.X11.Helper.State.{button_map_lookup}
use libuiohook.X11.Hook.State.{HookState, set_modifier_mask, unset_modifier_mask}
use libuiohook.X11.Hook.Fire.{fire}
use libuiohook.X11.Hook.Keys.{scancode_of}
use libuiohook.X11.Hook.KeyMasks.{modifier_bit, process_key_press_bits, process_key_release_bits}
use libuiohook.X11.Hook.Buttons.{
  PointerInput, is_wheel, button_mask, set_button_mask, unset_button_mask, track_click,
  process_wheel, process_plain_press, process_button_press, fire_clicked, reset_after_release,
  process_plain_release, process_button_release, expire_clicks, process_motion,
}
use libuiohook.X11.Hook.Proc.{
  Datum, key_press, key_release, button_press, button_release, motion_notify, other_event, Recorded,
  start_of_data, end_of_data, from_server, from_client, other_category, fire_control, process_datum,
  hook_event_proc, run_events,
}

-- The bit that the hook keeps for each mapped button.
abbrev pub button_bits : List (ℕ × ℕ)
button_bits = (1, 8) ∷ (2, 9) ∷ (3, 10) ∷ (8, 12) ∷ (9, 12) ∷ []

abbrev pub button_bit : ℕ → Option ℕ
button_bit = find_bit button_bits

button_mask-button_bit : (b : ℕ) → button_mask b ≡ power (button_bit b)
unfolding button_mask
button_mask-button_bit b = ground arith

button_bit-power : (b : ℕ) {k : ℕ} → button_bit b ≡ some k → 2 ^ k < 65536
button_bit-power b h = ground arith

pub bit-set_button_mask :
    (b : ℕ) (s : HookState) (j : ℕ)
    → bit (set_button_mask b s).mask j ≡ (if is_bit (button_bit b) j then 1 else bit s.mask j)
unfolding set_button_mask set_modifier_mask
bit-set_button_mask b s j = elim (Option-cases (button_bit b)) [
  | inl e ↦ ground (arith, button_mask-button_bit b)
  | inr (k, e) ↦ ground (arith, button_mask-button_bit b, bit-set s.mask k j)
]

pub bit-unset_button_mask :
    (b : ℕ) (s : HookState) (j : ℕ)
    → j < 16
    → bit (unset_button_mask b s).mask j ≡ (if is_bit (button_bit b) j then 0 else bit s.mask j)
unfolding unset_button_mask unset_modifier_mask
bit-unset_button_mask b s j l = elim (Option-cases (button_bit b)) [
  | inl e ↦ ground (arith, button_mask-button_bit b)
  | inr (k, e) ↦
      ground (arith, button_mask-button_bit b, bit-unset s.mask k j (button_bit-power b e) l)
]

pub process_plain_press-mask :
    (p : PointerInput) (b : ℕ) (s : HookState)
    → (process_plain_press p b s).mask ≡ (set_button_mask b s).mask
unfolding process_plain_press fire track_click
process_plain_press-mask p b s = ground arith

process_plain_release-mask :
    (p : PointerInput) (b : ℕ) (s : HookState)
    → (process_plain_release p b s).mask ≡ (unset_button_mask b s).mask
unfolding process_plain_release fire fire_clicked reset_after_release
process_plain_release-mask p b s = ground arith

is_wheel-button_bit : (b : ℕ) → is_wheel b ≡ true → button_bit b ≡ none
unfolding is_wheel
is_wheel-button_bit b h = ground arith

process_wheel-mask : (p : PointerInput) (s : HookState) → (process_wheel p s).mask ≡ s.mask
unfolding process_wheel fire
process_wheel-mask p s = refl

-- After a button press every bit of the mask is known: the mapped button's bit is set, and the
-- others keep their value. A wheel button moves none.
pub process_button_press_bits :
    (p : PointerInput) (s : HookState) (j : ℕ)
    → bit (process_button_press p s).mask j ≡ (
        if is_bit (button_bit (button_map_lookup s.helper p.mapping p.detail)) j
        then 1
        else bit s.mask j)
unfolding process_button_press
process_button_press_bits p s j =
    let b = button_map_lookup s.helper p.mapping p.detail in
    elim (Bool-cases (is_wheel b)) [
      | inl w ↦ rw (w, is_wheel-button_bit b w) (ap (λ m. bit m j) (process_wheel-mask p s))
      | inr w ↦
          rw w (ap (λ m. bit m j) (process_plain_press-mask p b s) ∙ bit-set_button_mask b s j)
    ]

-- After a button release every bit of the 16-bit mask is known: the mapped button's bit is clear, and
-- the others keep their value. A wheel button moves none.
pub process_button_release_bits :
    (p : PointerInput) (s : HookState) (j : ℕ)
    → j < 16
    → bit (process_button_release p s).mask j ≡ (
        if is_bit (button_bit (button_map_lookup s.helper p.mapping p.detail)) j
        then 0
        else bit s.mask j)
unfolding process_button_release
process_button_release_bits p s j l =
    let b = button_map_lookup s.helper p.mapping p.detail in
    elim (Bool-cases (is_wheel b)) [
      | inl w ↦ rw (w, is_wheel-button_bit b w)
      | inr w ↦
          rw w
            (ap (λ m. bit m j) (process_plain_release-mask p b s) ∙ bit-unset_button_mask b s j l)
    ]

pub process_motion-mask : (p : PointerInput) (s : HookState) → (process_motion p s).mask ≡ s.mask
unfolding process_motion fire expire_clicks
process_motion-mask p s = ground arith

button_bit-ne : (b : ℕ) → is_bit (button_bit b) 11 ≡ false
button_bit-ne b = ground arith

modifier_bit-ne : (c : ℕ) → is_bit (modifier_bit c) 11 ≡ false
modifier_bit-ne c = ground arith

process_datum_bit11 : (d : Datum) (s : HookState) → bit (process_datum d s).mask 11 ≡ bit s.mask 11
unfolding process_datum
process_datum_bit11 (key_press k) s =
    process_key_press_bits k s 11 (omega arith) ∙ rw (modifier_bit-ne (scancode_of k s)) refl
process_datum_bit11 (key_release k) s =
    process_key_release_bits k s 11 (omega arith) ∙ rw (modifier_bit-ne (scancode_of k s)) refl
process_datum_bit11 (button_press p) s =
    process_button_press_bits p s 11 ∙ rw (button_bit-ne _) refl
process_datum_bit11 (button_release p) s =
    process_button_release_bits p s 11 (omega arith) ∙ rw (button_bit-ne _) refl
process_datum_bit11 (motion_notify p) s = ap (λ m. bit m 11) (process_motion-mask p s)
process_datum_bit11 other_event s = refl

hook_event_proc_bit11 :
    (r : Recorded) (s : HookState) → bit (hook_event_proc r s).mask 11 ≡ bit s.mask 11
unfolding hook_event_proc fire_control
hook_event_proc_bit11 (start_of_data time a) s = refl
hook_event_proc_bit11 (end_of_data time) s = refl
hook_event_proc_bit11 (from_server d) s = process_datum_bit11 d s
hook_event_proc_bit11 (from_client d) s = process_datum_bit11 d s
hook_event_proc_bit11 other_category s = refl

-- No sequence of recorded data moves bit 11, `MASK_BUTTON4`: neither extra button sets or clears it.
pub run_events_mask_button4 :
    (rs : List Recorded) (s : HookState) → bit (run_events rs s).mask 11 ≡ bit s.mask 11
unfolding run_events
run_events_mask_button4 [] s = refl
run_events_mask_button4 (r ∷ rs) s =
    run_events_mask_button4 rs (hook_event_proc r s) ∙ hook_event_proc_bit11 r s
