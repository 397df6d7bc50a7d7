-- ===== src/Darwin/Hook/State.antt =====
-- src/darwin/input_hook.c: the statics of the hook, the modifier mask, and filling the event.
use libuiohook.Prelude.{ℕ, Bool, not, if◌then◌else◌, ◌==◌, bit_and, bit_or, not16}
use libuiohook.Event.{EventType, EventData, UiohookEvent}
use libuiohook.Event.Masks.{
  mask_shift_l, mask_shift_r, mask_ctrl_l, mask_ctrl_r, mask_alt_l, mask_alt_r, mask_meta_l,
  mask_meta_r, mask_button1, mask_button2, mask_button3, mask_button4, mask_button5, mask_num_lock,
  mask_caps_lock, mask_scroll_lock,
}
use libuiohook.Dispatch.{Session, dispatch_event}

pub record HookState : Type 0 where
  pub current_modifiers : ℕ
  pub click_count : ℕ
  pub click_time : ℕ
  pub click_button : ℕ
  -- `mouse_dragged`.
  pub is_dragged : Bool
  -- Whether the event tap is enabled.
  pub is_tapped : Bool
  -- The static `event` and `dispatcher`.
  pub session : Session

unfoldable pub set_modifier_mask : ℕ → HookState → HookState
set_modifier_mask m s = record s { current_modifiers = bit_or s.current_modifiers m }

unfoldable pub unset_modifier_mask : ℕ → HookState → HookState
unset_modifier_mask m s = record s { current_modifiers = bit_and s.current_modifiers (not16 m) }

unfoldable pub get_modifiers : HookState → ℕ
get_modifiers s = s.current_modifiers

-- What `CGEventSourceKeyState`, `CGEventSourceButtonState` and `CGEventSourceFlagsState` answer for
-- each key, button and flag that is asked.
pub record SourceStates : Type 0 where
  pub shift_l : Bool
  pub shift_r : Bool
  pub control_l : Bool
  pub control_r : Bool
  pub option_l : Bool
  pub option_r : Bool
  pub command_l : Bool
  pub command_r : Bool
  pub button_l : Bool
  pub button_r : Bool
  pub button_m : Bool
  pub button_x1 : Bool
  pub button_x2 : Bool
  pub alpha_shift : Bool

unfoldable pub set_if : Bool → ℕ → HookState → HookState
set_if down m s = if down then set_modifier_mask m s else s

unfoldable pub initialize_keys : SourceStates → HookState → HookState
initialize_keys a s = set_if a.command_r mask_meta_r (
    set_if a.command_l mask_meta_l (
      set_if a.option_r mask_alt_r (
        set_if a.option_l mask_alt_l (
          set_if a.control_r mask_ctrl_r (
            set_if a.control_l mask_ctrl_l
              (set_if a.shift_r mask_shift_r (set_if a.shift_l mask_shift_l s)))))))

unfoldable pub initialize_buttons : SourceStates → HookState → HookState
initialize_buttons a s = set_if a.button_x2 mask_button5 (
    set_if a.button_x1 mask_button4 (
      set_if a.button_m mask_button3
        (set_if a.button_r mask_button2 (set_if a.button_l mask_button1 s))))

unfoldable pub initialize_modifiers : SourceStates → HookState → HookState
initialize_modifiers a s = unset_modifier_mask mask_scroll_lock (
    unset_modifier_mask mask_num_lock (
      set_if a.alpha_shift mask_caps_lock
        (initialize_buttons a (initialize_keys a (record s { current_modifiers = 0x0000 })))))

unfoldable pub fresh_event : EventType → ℕ → EventData → HookState → UiohookEvent
unfolding get_modifiers
fresh_event type time payload s = record {
  type = type;
  time = time;
  mask = get_modifiers s;
  reserved = 0x00;
  payload = payload;
}

unfoldable pub fire : EventType → ℕ → EventData → HookState → HookState
unfolding fresh_event
fire type time payload s = record s {
  session = dispatch_event (record s.session { event = fresh_event type time payload s });
}

-- `event.reserved ^ 0x01`.
unfoldable pub not_consumed : HookState → Bool
not_consumed s = not (s.session.event.reserved == 0x01)
