-- ===== src/X11/Hook/KeyMasks.antt =====
-- src/x11/input_hook.c: how key events move the modifier mask, bit by bit.
use libuiohook.Prelude.{
  bit-set, bit-unset, find_bit, is_bit, power, ℕ, zero, suc, ◌^◌, ◌≤◌, ◌<◌, ◌≡◌, inl, inr, Bool,
  true, false, List, [], ◌∷◌, Option, some, arith, ◌==◌, if◌then◌else◌, bit, Option-cases,
}
use libuiohook.Event.KeyCodes.{
  vc_shift_l, vc_shift_r, vc_control_l, vc_control_r, vc_alt_l, vc_alt_r, vc_meta_l, vc_meta_r,
}
use libuiohook.X11.Hook.State.{HookState, Leds, is_nonzero, set_modifier_mask, unset_modifier_mask}
use libuiohook.X11.Hook.Modifiers.{on_bit, bit-initialize_locks}
use libuiohook.X11.Hook.Keys.{
  KeyInput, key_modifier, set_key_modifier, unset_key_modifier, scancode_of, key_press_state,
  key_release_state, process_key_press, process_key_release,
}
use libuiohook.X11.Hook.Frame.{process_key_press-SameInput, process_key_release-SameInput}

-- The bit of each modifier key, in the order of include/uiohook.h.
abbrev pub modifier_bits : List (ℕ × ℕ)
modifier_bits =
    (vc_shift_l, 0)
    ∷ (vc_control_l, 1)
    ∷ (vc_meta_l, 2)
    ∷ (vc_alt_l, 3)
    ∷ (vc_shift_r, 4)
    ∷ (vc_control_r, 5)
    ∷ (vc_meta_r, 6)
    ∷ (vc_alt_r, 7)
    ∷ []

abbrev pub modifier_bit : ℕ → Option ℕ
modifier_bit = find_bit modifier_bits

key_modifier-modifier_bit : (code : ℕ) → key_modifier code ≡ power (modifier_bit code)
unfolding key_modifier
key_modifier-modifier_bit code = ground arith

modifier_bit-lt : (code : ℕ) {b : ℕ} → modifier_bit code ≡ some b → b < 8
modifier_bit-lt code h = ground arith

small_power : (b : ℕ) → b < 8 → 2 ^ b < 65536
small_power b h = omega (arith, powers b h)
  where
    powers : (b : ℕ) → b < 8 → 2 ^ b ≤ 128
    powers zero h = omega arith
    powers (suc zero) h = omega arith
    powers (suc (suc zero)) h = omega arith
    powers (suc (suc (suc zero))) h = omega arith
    powers (suc (suc (suc (suc zero)))) h = omega arith
    powers (suc (suc (suc (suc (suc zero))))) h = omega arith
    powers (suc (suc (suc (suc (suc (suc zero)))))) h = omega arith
    powers (suc (suc (suc (suc (suc (suc (suc zero))))))) h = omega arith
    powers (suc (suc (suc (suc (suc (suc (suc (suc b)))))))) h = absurd (omega arith)

bit-set_key_modifier :
    (code : ℕ) (s : HookState) (j : ℕ)
    → bit (set_key_modifier code s).mask j
      ≡ (if is_bit (modifier_bit code) j then 1 else bit s.mask j)
unfolding set_key_modifier set_modifier_mask
bit-set_key_modifier code s j = elim (Option-cases (modifier_bit code)) [
  | inl e ↦ ground (arith, key_modifier-modifier_bit code)
  | inr (b, e) ↦ ground (arith, key_modifier-modifier_bit code, bit-set s.mask b j)
]

bit-unset_key_modifier :
    (code : ℕ) (s : HookState) (j : ℕ)
    → j < 16
    → bit (unset_key_modifier code s).mask j
      ≡ (if is_bit (modifier_bit code) j then 0 else bit s.mask j)
unfolding unset_key_modifier unset_modifier_mask
bit-unset_key_modifier code s j l = elim (Option-cases (modifier_bit code)) [
  | inl e ↦ ground (arith, key_modifier-modifier_bit code)
  | inr (b, e) ↦ ground (
    arith,
    key_modifier-modifier_bit code,
    bit-unset s.mask b j (small_power b (modifier_bit-lt code e)) l,
  )
]

-- The bit `j` that a key event leaves: the LED's for a lock bit, set or clear for the key's own
-- bit, and the old one for all others.
abbrev pub key_event_bit : Bool → Leds → Option ℕ → ℕ → ℕ → ℕ
key_event_bit pressed leds own old j =
    if 15 == j
    then on_bit (is_nonzero leds.scroll)
    else if 13 == j
    then on_bit (is_nonzero leds.num)
    else if 14 == j
    then on_bit (is_nonzero leds.caps)
    else if is_bit own j
    then on_bit pressed
    else old

-- After a key press every bit of the 16-bit mask is known: the lock bits follow the LEDs, the bit
-- of the pressed modifier key is set, and the others keep their value.
pub process_key_press_bits :
    (k : KeyInput) (s : HookState) (j : ℕ)
    → j < 16
    → bit (process_key_press k s).mask j
      ≡ key_event_bit true k.leds (modifier_bit (scancode_of k s)) (bit s.mask j) j
unfolding key_press_state
process_key_press_bits k s j l = rw (process_key_press-SameInput k s).mask (
    ground (
      arith,
      bit-initialize_locks k.leds (set_key_modifier (scancode_of k s) s) j l,
      bit-set_key_modifier (scancode_of k s) s j,
    ))

-- After a key release every bit of the 16-bit mask is known: the lock bits follow the LEDs, the bit
-- of the released modifier key is clear, and the others keep their value.
pub process_key_release_bits :
    (k : KeyInput) (s : HookState) (j : ℕ)
    → j < 16
    → bit (process_key_release k s).mask j
      ≡ key_event_bit false k.leds (modifier_bit (scancode_of k s)) (bit s.mask j) j
unfolding key_release_state
process_key_release_bits k s j l = rw (process_key_release-SameInput k s).mask (
    ground (
      arith,
      bit-initialize_locks k.leds (unset_key_modifier (scancode_of k s) s) j l,
      bit-unset_key_modifier (scancode_of k s) s j l,
    ))
