-- ===== src/X11/Hook/StartMask.antt =====
-- src/x11/input_hook.c: the mask that `initialize_modifiers` sets up.
use libuiohook.Prelude.{
  bit-set, bit-zero, ◌++◌, List, [], ◌∷◌, ℕ, ◌^◌, ◌<◌, ◌≡◌, refl, ◌∙◌, ap, Bool, true, false, ◌&&◌,
  Option, none, some, arith, ◌==◌, if◌then◌else◌, bit, not, bit_and,
}
use libuiohook.X11.Hook.State.{
  HookState, Leds, is_nonzero, set_modifier_mask, unset_modifier_mask, put_modifier_mask,
  initialize_locks,
}
use libuiohook.X11.Hook.Modifiers.{bit-initialize_locks, on_bit}
use libuiohook.X11.Hook.KeyEvents.{initialize_locks-session}
use libuiohook.X11.Hook.Startup.{
  read_modifiers, StartAnswers, is_down, set_if, query_keys, query_buttons, keymap_only,
  initialize_modifiers,
}

bit-set_if :
    (on : Bool) (k : ℕ) (s : HookState) (j : ℕ)
    → bit (set_if on (2 ^ k) s).mask j ≡ (if k == j && on then 1 else bit s.mask j)
unfolding set_if set_modifier_mask
bit-set_if true k s j = ground (arith, bit-set s.mask k j)
bit-set_if false k s j = ground arith

-- A part of the state that neither a mask nor the locks move.
module _ {A : Type 0} (part : HookState → A)
    (on_mask : (m : ℕ) (s : HookState) → part (record s { mask = m }) ≡ part s)
    (on_locks : (leds : Leds) (s : HookState) → part (initialize_locks leds s) ≡ part s) where
  set_if-part : (on : Bool) (m : ℕ) (s : HookState) → part (set_if on m s) ≡ part s
  unfolding set_if set_modifier_mask
  set_if-part true m s = on_mask _ s
  set_if-part false m s = refl

  read_modifiers-part :
      (o : Option ℕ) (a : StartAnswers) (s : HookState) → part (read_modifiers o a s) ≡ part s
  unfolding read_modifiers query_keys query_buttons keymap_only
  read_modifiers-part none a s = simp set_if-part
  read_modifiers-part (some mask) a s = simp set_if-part

  initialize_modifiers-part :
      (a : StartAnswers) (s : HookState) → part (initialize_modifiers a s) ≡ part s
  unfolding initialize_modifiers
  initialize_modifiers-part a s =
      on_locks a.leds _ ∙ read_modifiers-part a.pointer a _ ∙ on_mask 0 s

put_modifier_mask-helper :
    (on : Bool) (m : ℕ) (s : HookState) → (put_modifier_mask on m s).helper ≡ s.helper
unfolding put_modifier_mask set_modifier_mask unset_modifier_mask
put_modifier_mask-helper true m s = refl
put_modifier_mask-helper false m s = refl

initialize_locks-helper :
    (leds : Leds) (s : HookState) → (initialize_locks leds s).helper ≡ s.helper
unfolding initialize_locks
initialize_locks-helper leds s = simp put_modifier_mask-helper

pub initialize_modifiers-session :
    (a : StartAnswers) (s : HookState) → (initialize_modifiers a s).session ≡ s.session
initialize_modifiers-session =
    initialize_modifiers-part (λ s. s.session) (λ m s. refl) initialize_locks-session

pub initialize_modifiers-helper :
    (a : StartAnswers) (s : HookState) → (initialize_modifiers a s).helper ≡ s.helper
initialize_modifiers-helper =
    initialize_modifiers-part (λ s. s.helper) (λ m s. refl) initialize_locks-helper

-- The bit `j` after a run of `set_if`, the last first.
abbrev pub flagged : List (ℕ × Bool) → ℕ → ℕ → ℕ
flagged [] old j = old
flagged ((k, on) ∷ rest) old j = if k == j && on then 1 else flagged rest old j

abbrev pub key_flags : StartAnswers → (ℕ → ℕ → Bool) → List (ℕ × Bool)
key_flags a down =
    let k = a.keycodes in
    (6, down 64 k.super_r)
    ∷ (2, down 64 k.super_l)
    ∷ (7, down 8 k.alt_r)
    ∷ (3, down 8 k.alt_l)
    ∷ (5, down 4 k.control_r)
    ∷ (1, down 4 k.control_l)
    ∷ (4, down 1 k.shift_r)
    ∷ (0, down 1 k.shift_l)
    ∷ []

abbrev pub has : ℕ → ℕ → Bool
has mask group = not (bit_and mask group == 0)

abbrev pub button_flags : ℕ → List (ℕ × Bool)
button_flags mask =
    (12, has mask 4096)
    ∷ (11, has mask 2048)
    ∷ (10, has mask 1024)
    ∷ (9, has mask 512)
    ∷ (8, has mask 256)
    ∷ []

-- One more `set_if` is one more entry.
flag_step :
    (on : Bool) (k : ℕ) (s : HookState) (j : ℕ) {t : ℕ}
    → bit s.mask j ≡ t
    → bit (set_if on (2 ^ k) s).mask j ≡ (if k == j && on then 1 else t)
flag_step on k s j h = bit-set_if on k s j ∙ ap (λ z. if k == j && on then 1 else z) h

bit-query_keys :
    (a : StartAnswers) (mask : ℕ) (s : HookState) (j : ℕ) {t : ℕ}
    → bit s.mask j ≡ t
    → bit (query_keys a mask s).mask j
      ≡ flagged (key_flags a (λ group code. has mask group && is_down a.keymap code)) t j
unfolding query_keys
bit-query_keys a mask s j h =
    let last = flag_step _ 5 _ j (flag_step _ 1 _ j (flag_step _ 4 _ j (flag_step _ 0 s j h))) in
    flag_step _ 6 _ j (flag_step _ 2 _ j (flag_step _ 7 _ j (flag_step _ 3 _ j last)))

bit-keymap_only :
    (a : StartAnswers) (s : HookState) (j : ℕ) {t : ℕ}
    → bit s.mask j ≡ t
    → bit (keymap_only a s).mask j ≡ flagged (key_flags a (λ group code. is_down a.keymap code)) t j
unfolding keymap_only
bit-keymap_only a s j h =
    let last = flag_step _ 5 _ j (flag_step _ 1 _ j (flag_step _ 4 _ j (flag_step _ 0 s j h))) in
    flag_step _ 6 _ j (flag_step _ 2 _ j (flag_step _ 7 _ j (flag_step _ 3 _ j last)))

bit-query_buttons :
    (mask : ℕ) (s : HookState) (j : ℕ) {t : ℕ}
    → bit s.mask j ≡ t
    → bit (query_buttons mask s).mask j ≡ flagged (button_flags mask) t j
unfolding query_buttons
bit-query_buttons mask s j h =
    let last = flag_step _ 9 _ j (flag_step _ 8 s j h) in
    flag_step _ 12 _ j (flag_step _ 11 _ j (flag_step _ 10 _ j last))

-- The bits that may be set at the start, each with its condition: a modifier key's, that the key is
-- down in the key map and, if the pointer answers, that the pointer's mask has its modifier; and a
-- button's, that the pointer answers and its mask has the button.
abbrev pub start_flags : StartAnswers → List (ℕ × Bool)
start_flags a = elim a.pointer [
  | none ↦ key_flags a (λ group code. is_down a.keymap code)
  | some mask ↦
      button_flags mask ++ key_flags a (λ group code. has mask group && is_down a.keymap code)
]

bit-read_modifiers :
    (a : StartAnswers) (s : HookState) (j : ℕ)
    → bit (read_modifiers a.pointer a (record s { mask = 0x0000 })).mask j
      ≡ flagged (start_flags a) 0 j
unfolding read_modifiers
bit-read_modifiers a s j =
    elim a.pointer
      as (λ o.
        bit (read_modifiers o a (record s { mask = 0x0000 })).mask j
        ≡ flagged
            (elim o as (λ x. List (ℕ × Bool)) [
              | none ↦ key_flags a (λ group code. is_down a.keymap code)
              | some mask ↦
                  button_flags mask
                  ++ key_flags a (λ group code. has mask group && is_down a.keymap code)
            ])
            0 j) [
              | none ↦ bit-keymap_only a (record s { mask = 0x0000 }) j (bit-zero j)
              | some mask ↦
                  bit-query_buttons mask _ j
                    (bit-query_keys a mask (record s { mask = 0x0000 }) j (bit-zero j))
            ]

-- The mask that `initialize_modifiers` leaves is known bit by bit, whatever the mask was before: the
-- lock bits follow the LEDs, and of the others exactly those of `start_flags` whose condition holds
-- are set.
pub initialize_modifiers_bits :
    (a : StartAnswers) (s : HookState) (j : ℕ)
    → j < 16
    → bit (initialize_modifiers a s).mask j ≡ (
        if 15 == j
        then on_bit (is_nonzero a.leds.scroll)
        else if 13 == j
        then on_bit (is_nonzero a.leds.num)
        else if 14 == j
        then on_bit (is_nonzero a.leds.caps)
        else flagged (start_flags a) 0 j)
unfolding initialize_modifiers
initialize_modifiers_bits a s j l =
    bit-initialize_locks a.leds (read_modifiers a.pointer a (record s { mask = 0x0000 })) j l
    ∙ ap
        (λ t.
          if 15 == j
          then on_bit (is_nonzero a.leds.scroll)
          else if 13 == j
          then on_bit (is_nonzero a.leds.num)
          else if 14 == j
          then on_bit (is_nonzero a.leds.caps)
          else t)
        (bit-read_modifiers a s j)
