-- ===== src/Windows/Hook/Extra.antt =====
-- src/windows/input_hook.c: the bits of the mask that presses of extra buttons move.
use libuiohook.Prelude.{
  ℕ, zero, suc, ◌≡◌, refl, ◌∙◌, Bool, ◌&&◌, ◌||◌, arith, ◌==◌, if◌then◌else◌, bit, bit-le, bit-zero,
  bit-bit_or, bit_or, bit-set,
}
use libuiohook.Event.Masks.{mask_button4, mask_button5, mouse_button4, mouse_button5}
use libuiohook.Windows.Hook.State.{HookState, set_modifier_mask, fire}
use libuiohook.Windows.Hook.Mouse.{MouseInput, track_click, process_button_pressed}
use libuiohook.Windows.Hook.Proc.{process_extra_down}

process_button_pressed-mask :
    (p : MouseInput) (b : ℕ) (s : HookState)
    → (process_button_pressed p b s).current_modifiers ≡ s.current_modifiers
unfolding process_button_pressed track_click fire
process_button_pressed-mask p b s = ground arith

bit-five : (j : ℕ) → bit 5 j ≡ (if j == 0 || j == 2 then 1 else 0)
bit-five zero = refl
bit-five (suc zero) = refl
bit-five (suc (suc zero)) = refl
bit-five (suc (suc (suc j))) = bit-zero j ∙ ground arith

-- The bits that a press with this high word of `mouseData` sets.
abbrev pub extra_bits : ℕ → ℕ → Bool
extra_bits high_word j =
    (high_word == 1 && j == 11)
    || (high_word == 2 && j == 12)
    || (high_word == 4 && j == 2)
    || (high_word == 5 && (j == 0 || j == 2))

extra_press-mask :
    (p : MouseInput) (b m : ℕ) (s : HookState)
    → (process_button_pressed p b (set_modifier_mask m s)).current_modifiers
      ≡ bit_or s.current_modifiers m
unfolding set_modifier_mask
extra_press-mask p b m s = process_button_pressed-mask p b _

-- A press of an extra button sets the bit of button 4 for XBUTTON1 and of button 5 for XBUTTON2. But
-- for the high words 4 and 5 it sets bits of keys: the left meta key's, and for 5 the left shift
-- key's as well. All other bits keep their value, and other high words set none.
pub process_extra_down_bits :
    (p : MouseInput) (s : HookState) (j : ℕ)
    → bit (process_extra_down p s).current_modifiers j
      ≡ (if extra_bits p.high_word j then 1 else bit s.current_modifiers j)
unfolding process_extra_down
process_extra_down_bits p s j = ground (
  arith,
  extra_press-mask p mouse_button4 mask_button4 s,
  extra_press-mask p mouse_button5 mask_button5 s,
  extra_press-mask p p.high_word mouse_button4 s,
  extra_press-mask p p.high_word mouse_button5 s,
  process_button_pressed-mask p p.high_word s,
  bit-set s.current_modifiers 11 j,
  bit-set s.current_modifiers 12 j,
  bit-set s.current_modifiers 2 j,
  bit-bit_or s.current_modifiers 5 j,
  bit-five j,
  bit-le s.current_modifiers j,
)
