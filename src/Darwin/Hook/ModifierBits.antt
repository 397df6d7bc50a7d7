-- ===== src/Darwin/Hook/ModifierBits.antt =====
-- src/darwin/input_hook.c: how a change of the modifier keys moves the modifier mask, bit by bit.
use libuiohook.Prelude.{
  ℕ, ◌-◌, ◌^◌, ◌%◌, ◌<◌, ◌≡◌, refl, ◌∙◌, ap, inl, inr, Bool, true, false, List, [], ◌∷◌, Option,
  none, some, ◌&&◌, ◌==◌, arith, if◌then◌else◌, if_both, bit, bit-le, bit_and-pow, Option-cases,
  bit-set, bit-unset, find_bit, is_bit,
}
use libuiohook.Darwin.VirtualKeys.{
  kvk_shift, kvk_rightshift, kvk_control, kvk_rightcontrol, kvk_command, kvk_rightcommand,
  kvk_option, kvk_rightoption, kvk_capslock,
}
use libuiohook.Darwin.Hook.State.{
  HookState, set_modifier_mask, unset_modifier_mask, fire, not_consumed,
}
use libuiohook.Darwin.Hook.Keys.{
  KeyInput, Flags, key_modifier, fire_typed, process_key_pressed, process_key_released,
  toggle_caps_lock, change_modifier, process_modifier_changed,
}

-- The bit of each key that has one, in the order of include/uiohook.h.
abbrev pub modifier_bits : List (ℕ × ℕ)
modifier_bits =
    (kvk_shift, 0)
    ∷ (kvk_control, 1)
    ∷ (kvk_command, 2)
    ∷ (kvk_option, 3)
    ∷ (kvk_rightshift, 4)
    ∷ (kvk_rightcontrol, 5)
    ∷ (kvk_rightcommand, 6)
    ∷ (kvk_rightoption, 7)
    ∷ []

abbrev pub modifier_bit : ℕ → Option ℕ
modifier_bit = find_bit modifier_bits

-- The flag that the system keeps for both keys of a pair, by the bit of either.
abbrev pub pair_flag : ℕ → Flags → Bool
pair_flag b flags =
    if b % 4 == 0
    then flags.shift
    else if b % 4 == 1
    then flags.control
    else if b % 4 == 2
    then flags.command
    else flags.alternate

abbrev pub on_bit : Bool → ℕ
on_bit true = 1
on_bit false = 0

-- The bit `j` of the mask after a change of a key, from its value before.
abbrev pub changed_bit : ℕ → Flags → ℕ → ℕ → ℕ
changed_bit keycode flags j before =
    if keycode == kvk_capslock && j == 14
    then 1 - before
    else if is_bit (modifier_bit keycode) j
    then on_bit (pair_flag j flags)
    else before

typed-mask :
    (k : KeyInput) (units : List ℕ) (s : HookState)
    → (fire_typed k units s).current_modifiers ≡ s.current_modifiers
unfolding fire_typed fire
typed-mask k [] s = refl
typed-mask k (u ∷ units) s = typed-mask k units _

pressed-mask :
    (k : KeyInput) (s : HookState)
    → (process_key_pressed k s).current_modifiers ≡ s.current_modifiers
unfolding process_key_pressed fire
pressed-mask k s =
    if_both (λ (t : HookState). t.current_modifiers ≡ s.current_modifiers) (not_consumed _)
      (typed-mask k k.units _) refl

caps-bit :
    (s : HookState) (j : ℕ)
    → j < 16
    → bit (toggle_caps_lock s).current_modifiers j
      ≡ (if j == 14 then 1 - bit s.current_modifiers j else bit s.current_modifiers j)
unfolding toggle_caps_lock set_modifier_mask unset_modifier_mask
caps-bit s j l = ground (
  arith,
  bit_and-pow s.current_modifiers 14,
  bit-set s.current_modifiers 14 j,
  bit-unset s.current_modifiers 14 j (omega arith) l,
  bit-le s.current_modifiers 14,
)

change-bit :
    (k : KeyInput) (b : ℕ) (down : Bool) (s : HookState) (j : ℕ)
    → 2 ^ b < 65536
    → j < 16
    → bit (change_modifier k (2 ^ b, down) s).current_modifiers j
      ≡ (if b == j then on_bit down else bit s.current_modifiers j)
unfolding change_modifier process_key_released fire set_modifier_mask unset_modifier_mask
change-bit k b true s j h l =
    ap (λ m. bit m j) (pressed-mask k (set_modifier_mask (2 ^ b) s))
    ∙ bit-set s.current_modifiers b j
change-bit k b false s j h l = bit-unset s.current_modifiers b j h l

-- Every key that the chain of tests knows is in the list, with the flag of its pair.
abbrev pub listed : Option ℕ → Flags → Option (ℕ × Bool)
listed none flags = none
listed (some b) flags = some (2 ^ b, pair_flag b flags)

pub key_modifier-listed :
    (code : ℕ) (flags : Flags) → key_modifier code flags ≡ listed (modifier_bit code) flags
unfolding key_modifier
key_modifier-listed code flags = ground arith

modifier_bit-lt : (code : ℕ) {b : ℕ} → modifier_bit code ≡ some b → 2 ^ b < 65536
modifier_bit-lt code e = ground arith

modifier_bit-other :
    (code : ℕ) {b : ℕ} → modifier_bit code ≡ some b → (code == kvk_capslock) ≡ false
modifier_bit-other code e = ground arith

-- After the modifier keys changed on macOS every bit of the 16-bit mask is known: the bit of the key
-- takes the value of the flag that both keys of its pair share, caps lock turns its own bit over, and
-- the others keep their value. So a key released while the other one of its pair is held keeps its bit.
pub process_modifier_changed_bits :
    (k : KeyInput) (flags : Flags) (s : HookState) (j : ℕ)
    → j < 16
    → bit (process_modifier_changed k flags s).current_modifiers j
      ≡ changed_bit k.keycode flags j (bit s.current_modifiers j)
unfolding process_modifier_changed
process_modifier_changed_bits k flags s j l = elim (Option-cases (modifier_bit k.keycode)) [
  | inl e ↦ ground (arith, key_modifier-listed k.keycode flags, caps-bit s j l)
  | inr (b, e) ↦ ground (
    arith,
    key_modifier-listed k.keycode flags,
    modifier_bit-other k.keycode e,
    change-bit k b (pair_flag b flags) s j (modifier_bit-lt k.keycode e) l,
  )
]
