-- ===== src/X11/Hook/Startup.antt =====
-- src/x11/input_hook.c: `initialize_modifiers`, the mask that the hook starts from.
use libuiohook.Prelude.{
  ℕ, ◌/◌, ◌%◌, ◌^◌, Bool, not, ◌&&◌, List, Option, none, some, ◌==◌, if◌then◌else◌, bit_and, get_or,
}
use libuiohook.Event.Masks.{
  mask_shift_l, mask_shift_r, mask_ctrl_l, mask_ctrl_r, mask_alt_l, mask_alt_r, mask_meta_l,
  mask_meta_r, mask_button1, mask_button2, mask_button3, mask_button4, mask_button5,
}
use libuiohook.X11.Hook.State.{HookState, Leds, set_modifier_mask, initialize_locks}

-- The key codes that `XKeysymToKeycode` gives for the modifier keys.
pub record ModifierKeycodes : Type 0 where
  pub shift_l : ℕ
  pub shift_r : ℕ
  pub control_l : ℕ
  pub control_r : ℕ
  pub alt_l : ℕ
  pub alt_r : ℕ
  pub super_l : ℕ
  pub super_r : ℕ

-- What the X server answers: the bytes of `XQueryKeymap`, the mask of `XQueryPointer` unless it
-- fails, the key codes and the LEDs.
pub record StartAnswers : Type 0 where
  pub keymap : List ℕ
  pub pointer : Option ℕ
  pub keycodes : ModifierKeycodes
  pub leds : Leds

-- `keymap[keycode / 8] & (1 << (keycode % 8))`.
unfoldable pub is_down : List ℕ → ℕ → Bool
is_down keymap keycode = not (bit_and (get_or keymap (keycode / 8) 0) (2 ^ (keycode % 8)) == 0)

unfoldable pub set_if : Bool → ℕ → HookState → HookState
set_if on m s = if on then set_modifier_mask m s else s

-- The masks of X.h: `ShiftMask` and so on.
abbrev has : ℕ → ℕ → Bool
has mask m = not (bit_and mask m == 0)

unfoldable pub query_keys : StartAnswers → ℕ → HookState → HookState
query_keys a mask s =
    let down = λ (group code : ℕ). has mask group && is_down a.keymap code in
    set_if (down 64 a.keycodes.super_r) mask_meta_r (
      set_if (down 64 a.keycodes.super_l) mask_meta_l (
        set_if (down 8 a.keycodes.alt_r) mask_alt_r (
          set_if (down 8 a.keycodes.alt_l) mask_alt_l (
            set_if (down 4 a.keycodes.control_r) mask_ctrl_r (
              set_if (down 4 a.keycodes.control_l) mask_ctrl_l (
                set_if (down 1 a.keycodes.shift_r) mask_shift_r
                  (set_if (down 1 a.keycodes.shift_l) mask_shift_l s)))))))

unfoldable pub query_buttons : ℕ → HookState → HookState
query_buttons mask s = set_if (has mask 4096) mask_button5 (
    set_if (has mask 2048) mask_button4 (
      set_if (has mask 1024) mask_button3
        (set_if (has mask 512) mask_button2 (set_if (has mask 256) mask_button1 s))))

-- Without a pointer only the key map is asked.
unfoldable pub keymap_only : StartAnswers → HookState → HookState
keymap_only a s =
    let down = λ (code : ℕ). is_down a.keymap code in
    set_if (down a.keycodes.super_r) mask_meta_r (
      set_if (down a.keycodes.super_l) mask_meta_l (
        set_if (down a.keycodes.alt_r) mask_alt_r (
          set_if (down a.keycodes.alt_l) mask_alt_l (
            set_if (down a.keycodes.control_r) mask_ctrl_r (
              set_if (down a.keycodes.control_l) mask_ctrl_l (
                set_if (down a.keycodes.shift_r) mask_shift_r
                  (set_if (down a.keycodes.shift_l) mask_shift_l s)))))))

unfoldable pub read_modifiers : Option ℕ → StartAnswers → HookState → HookState
read_modifiers none a s = keymap_only a s
read_modifiers (some mask) a s = query_buttons mask (query_keys a mask s)

unfoldable pub initialize_modifiers : StartAnswers → HookState → HookState
unfolding read_modifiers
initialize_modifiers a s =
    initialize_locks a.leds (read_modifiers a.pointer a (record s { mask = 0x0000 }))
