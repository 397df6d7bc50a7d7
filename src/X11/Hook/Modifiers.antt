-- ===== src/X11/Hook/Modifiers.antt =====
-- src/x11/input_hook.c: what the mask functions do to each bit of the mask.
use libuiohook.Prelude.{
  bit-set, bit-unset, ℕ, ◌^◌, ◌<◌, ◌≡◌, Bool, true, false, arith, ◌==◌, if◌then◌else◌, bit,
}
use libuiohook.Event.Masks.{mask_num_lock, mask_caps_lock}
use libuiohook.X11.Hook.State.{HookState, put_modifier_mask, Leds, initialize_locks, is_nonzero}

abbrev pub on_bit : Bool → ℕ
on_bit true = 1
on_bit false = 0

pub bit-put :
    (on : Bool) (k : ℕ) (s : HookState) (j : ℕ)
    → 2 ^ k < 65536
    → j < 16
    → bit (put_modifier_mask on (2 ^ k) s).mask j ≡ (if k == j then on_bit on else bit s.mask j)
unfolding put_modifier_mask
bit-put true k s j h l = ground (arith, bit-set s.mask k j)
bit-put false k s j h l = ground (arith, bit-unset s.mask k j h l)

-- The lock bits follow the LEDs, and the other bits stay.
pub bit-initialize_locks :
    (leds : Leds) (s : HookState) (j : ℕ)
    → j < 16
    → bit (initialize_locks leds s).mask j ≡ (
        if 15 == j
        then on_bit (is_nonzero leds.scroll)
        else if 13 == j
        then on_bit (is_nonzero leds.num)
        else if 14 == j
        then on_bit (is_nonzero leds.caps)
        else bit s.mask j)
unfolding initialize_locks
bit-initialize_locks leds s j l = ground (
  arith,
  bit-put (is_nonzero leds.scroll) 15 num_put j (omega arith) l,
  bit-put (is_nonzero leds.num) 13 caps_put j (omega arith) l,
  bit-put (is_nonzero leds.caps) 14 s j (omega arith) l,
)
  where
    caps_put : HookState
    caps_put = put_modifier_mask (is_nonzero leds.caps) mask_caps_lock s

    num_put : HookState
    num_put = put_modifier_mask (is_nonzero leds.num) mask_num_lock caps_put
