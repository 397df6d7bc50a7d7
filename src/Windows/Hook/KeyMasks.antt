-- ===== src/Windows/Hook/KeyMasks.antt =====
-- src/windows/input_hook.c: how key messages move the modifier mask, bit by bit.
use libuiohook.Prelude.{
  ℕ, ◌^◌, ◌<◌, ◌≡◌, refl, ◌∙◌, ap, inl, inr, List, [], ◌∷◌, Option, some, arith, if◌then◌else◌,
  if_both, bit, Option-cases, bit-set, bit-unset, find_bit, is_bit, power,
}
use libuiohook.Windows.VirtualKeys.{
  vk_lshift, vk_rshift, vk_lcontrol, vk_rcontrol, vk_lmenu, vk_rmenu, vk_lwin, vk_rwin, vk_numlock,
  vk_capital, vk_scroll,
}
use libuiohook.Windows.Hook.State.{
  HookState, set_modifier_mask, unset_modifier_mask, fire, not_consumed,
}
use libuiohook.Windows.Hook.Keys.{
  KeyInput, key_modifier, set_key_modifier, unset_key_modifier, fire_typed, process_key_pressed,
  process_key_released,
}

-- The bit of each key that has one, in the order of include/uiohook.h.
abbrev pub modifier_bits : List (ℕ × ℕ)
modifier_bits =
    (vk_lshift, 0)
    ∷ (vk_lcontrol, 1)
    ∷ (vk_lwin, 2)
    ∷ (vk_lmenu, 3)
    ∷ (vk_rshift, 4)
    ∷ (vk_rcontrol, 5)
    ∷ (vk_rwin, 6)
    ∷ (vk_rmenu, 7)
    ∷ (vk_numlock, 13)
    ∷ (vk_capital, 14)
    ∷ (vk_scroll, 15)
    ∷ []

abbrev pub modifier_bit : ℕ → Option ℕ
modifier_bit = find_bit modifier_bits

key_modifier-modifier_bit : (vk : ℕ) → key_modifier vk ≡ power (modifier_bit vk)
unfolding key_modifier
key_modifier-modifier_bit vk = ground arith

modifier_bit-power : (vk : ℕ) {k : ℕ} → modifier_bit vk ≡ some k → 2 ^ k < 65536
modifier_bit-power vk h = ground arith

bit-set_key_modifier :
    (vk : ℕ) (s : HookState) (j : ℕ)
    → bit (set_key_modifier vk s).current_modifiers j
      ≡ (if is_bit (modifier_bit vk) j then 1 else bit s.current_modifiers j)
unfolding set_key_modifier set_modifier_mask
bit-set_key_modifier vk s j = elim (Option-cases (modifier_bit vk)) [
  | inl e ↦ ground (arith, key_modifier-modifier_bit vk)
  | inr (b, e) ↦ ground (arith, key_modifier-modifier_bit vk, bit-set s.current_modifiers b j)
]

bit-unset_key_modifier :
    (vk : ℕ) (s : HookState) (j : ℕ)
    → j < 16
    → bit (unset_key_modifier vk s).current_modifiers j
      ≡ (if is_bit (modifier_bit vk) j then 0 else bit s.current_modifiers j)
unfolding unset_key_modifier unset_modifier_mask
bit-unset_key_modifier vk s j l = elim (Option-cases (modifier_bit vk)) [
  | inl e ↦ ground (arith, key_modifier-modifier_bit vk)
  | inr (b, e) ↦ ground (
    arith,
    key_modifier-modifier_bit vk,
    bit-unset s.current_modifiers b j (modifier_bit-power vk e) l,
  )
]

fire_typed-mask :
    (k : KeyInput) (units : List ℕ) (s : HookState)
    → (fire_typed k units s).current_modifiers ≡ s.current_modifiers
unfolding fire_typed fire
fire_typed-mask k [] s = refl
fire_typed-mask k (u ∷ units) s = fire_typed-mask k units _

pub process_key_pressed-mask :
    (k : KeyInput) (s : HookState)
    → (process_key_pressed k s).current_modifiers ≡ (set_key_modifier k.vk_code s).current_modifiers
unfolding process_key_pressed fire
process_key_pressed-mask k s =
    if_both
      (λ (t : HookState). t.current_modifiers ≡ (set_key_modifier k.vk_code s).current_modifiers)
      (not_consumed _) (fire_typed-mask k k.units _) refl

-- After a key is pressed every bit of the mask is known: the bit of a modifier or lock key is set, and
-- the others keep their value.
pub process_key_pressed_bits :
    (k : KeyInput) (s : HookState) (j : ℕ)
    → bit (process_key_pressed k s).current_modifiers j
      ≡ (if is_bit (modifier_bit k.vk_code) j then 1 else bit s.current_modifiers j)
process_key_pressed_bits k s j =
    ap (λ m. bit m j) (process_key_pressed-mask k s) ∙ bit-set_key_modifier k.vk_code s j

-- After a key is released every bit of the 16-bit mask is known: the bit of a modifier or lock key is
-- clear, and the others keep their value.
pub process_key_released_bits :
    (k : KeyInput) (s : HookState) (j : ℕ)
    → j < 16
    → bit (process_key_released k s).current_modifiers j
      ≡ (if is_bit (modifier_bit k.vk_code) j then 0 else bit s.current_modifiers j)
unfolding process_key_released fire
process_key_released_bits k s j l = bit-unset_key_modifier k.vk_code s j l
