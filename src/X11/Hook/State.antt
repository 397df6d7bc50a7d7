-- ===== src/X11/Hook/State.antt =====
-- src/x11/input_hook.c: the hook's state (`hook->input`, the static `event` and the callback),
-- the modifier mask, and its lock bits.
use libuiohook.Prelude.{
  ℕ, Bool, true, false, Option, none, some, ◌==◌, not, if◌then◌else◌, bit_and, bit_or, not16,
}
use libuiohook.Event.Masks.{mask_num_lock, mask_caps_lock, mask_scroll_lock}
use libuiohook.Dispatch.{Session}
use libuiohook.X11.Helper.State.{Helper}

pub record HookState : Type 0 where
  -- `uint16_t mask`, and `struct _mouse` with its `struct _click`.
  pub mask : ℕ
  pub is_dragged : Bool
  pub click_count : ℕ
  pub click_time : ℕ
  pub click_button : ℕ
  -- The static `event` and `dispatcher`, and the globals of input_helper.c.
  pub session : Session
  pub helper : Helper

unfoldable pub set_modifier_mask : ℕ → HookState → HookState
set_modifier_mask m s = record s { mask = bit_or s.mask m }

unfoldable pub unset_modifier_mask : ℕ → HookState → HookState
unset_modifier_mask m s = record s { mask = bit_and s.mask (not16 m) }

unfoldable pub get_modifiers : HookState → ℕ
get_modifiers s = s.mask

-- What `xkb_state_led_name_is_active` answers: 1, 0, or -1 for a keymap without that LED.
pub data Led : Type 0 where
  active inactive missing : Led

-- As the condition of an `if`.
abbrev pub is_nonzero : Led → Bool
is_nonzero active = true
is_nonzero inactive = false
is_nonzero missing = true

pub record Leds : Type 0 where
  pub caps : Led
  pub num : Led
  pub scroll : Led

unfoldable pub put_modifier_mask : Bool → ℕ → HookState → HookState
unfolding set_modifier_mask unset_modifier_mask
put_modifier_mask on m s = if on then set_modifier_mask m s else unset_modifier_mask m s

-- `initialize_locks`, as it is compiled with libxkbcommon.
unfoldable pub initialize_locks : Leds → HookState → HookState
initialize_locks leds s = put_modifier_mask (is_nonzero leds.scroll) mask_scroll_lock (
    put_modifier_mask (is_nonzero leds.num) mask_num_lock
      (put_modifier_mask (is_nonzero leds.caps) mask_caps_lock s))

-- `initialize_locks`, as it is compiled without: `none` is a failure of `XkbGetIndicatorState`.
unfoldable pub initialize_locks_indicators : Option ℕ → HookState → HookState
initialize_locks_indicators none s = s
initialize_locks_indicators (some led_mask) s =
    put_modifier_mask (not (bit_and led_mask 0x04 == 0)) mask_scroll_lock (
      put_modifier_mask (not (bit_and led_mask 0x02 == 0)) mask_num_lock
        (put_modifier_mask (not (bit_and led_mask 0x01 == 0)) mask_caps_lock s))
