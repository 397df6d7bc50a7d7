-- ===== src/Windows/Hook/State.antt =====
-- src/windows/input_hook.c: the statics of the hook, the modifier mask, and filling the event.
use libuiohook.Prelude.{ℕ, Bool, not, if◌then◌else◌, ◌==◌, bit_and, bit_or, not16, pos}
use libuiohook.Event.{EventType, EventData, UiohookEvent}
use libuiohook.Event.Masks.{
  mask_shift_l, mask_shift_r, mask_ctrl_l, mask_ctrl_r, mask_alt_l, mask_alt_r, mask_meta_l,
  mask_meta_r, mask_button1, mask_button2, mask_button3, mask_button4, mask_button5, mask_num_lock,
  mask_caps_lock, mask_scroll_lock,
}
use libuiohook.Dispatch.{Session, dispatch_event}
use libuiohook.Windows.Wheel.{Rotation}

-- A `LONG` of `POINT` is kept as its bit pattern.
pub record Point : Type 0 where
  pub x : ℕ
  pub y : ℕ

pub record HookState : Type 0 where
  pub current_modifiers : ℕ
  pub click_count : ℕ
  pub click_time : ℕ
  pub click_button : ℕ
  pub last_click : Point
  -- `v_rotation` and `h_rotation`, and `event` with `dispatcher`.
  pub rotation : Rotation
  pub session : Session

unfoldable pub set_modifier_mask : ℕ → HookState → HookState
set_modifier_mask m s = record s { current_modifiers = bit_or s.current_modifiers m }

unfoldable pub unset_modifier_mask : ℕ → HookState → HookState
unset_modifier_mask m s = record s { current_modifiers = bit_and s.current_modifiers (not16 m) }

unfoldable pub get_modifiers : HookState → ℕ
get_modifiers s = s.current_modifiers

-- Whether `GetKeyState` is negative, for each key that is asked.
pub record KeyStates : Type 0 where
  pub shift_l : Bool
  pub shift_r : Bool
  pub control_l : Bool
  pub control_r : Bool
  pub menu_l : Bool
  pub menu_r : Bool
  pub win_l : Bool
  pub win_r : Bool
  pub button_l : Bool
  pub button_r : Bool
  pub button_m : Bool
  pub button_x1 : Bool
  pub button_x2 : Bool
  pub num_lock : Bool
  pub capital : Bool
  pub scroll : Bool

unfoldable pub set_if : Bool → ℕ → HookState → HookState
set_if down m s = if down then set_modifier_mask m s else s

unfoldable pub initialize_keys : KeyStates → HookState → HookState
initialize_keys k s = set_if k.win_r mask_meta_r (
    set_if k.win_l mask_meta_l (
      set_if k.menu_r mask_alt_r (
        set_if k.menu_l mask_alt_l (
          set_if k.control_r mask_ctrl_r (
            set_if k.control_l mask_ctrl_l
              (set_if k.shift_r mask_shift_r (set_if k.shift_l mask_shift_l s)))))))

unfoldable pub initialize_buttons : KeyStates → HookState → HookState
initialize_buttons k s = set_if k.button_x2 mask_button5 (
    set_if k.button_x1 mask_button4 (
      set_if k.button_m mask_button3
        (set_if k.button_r mask_button2 (set_if k.button_l mask_button1 s))))

unfoldable pub initialize_modifiers : KeyStates → HookState → HookState
initialize_modifiers k s = set_if k.scroll mask_scroll_lock (
    set_if k.capital mask_caps_lock (
      set_if k.num_lock mask_num_lock
        (initialize_buttons k (initialize_keys k (record s { current_modifiers = 0x0000 })))))

unfoldable pub fresh_event : EventType → ℕ → EventData → HookState → UiohookEvent
unfolding get_modifiers
fresh_event type time payload s = record {
  type = type;
  time = time;
  mask = get_modifiers s;
  reserved = 0x00;
  payload = payload;
}

unfoldable pub fire : EventType → ℕ → EventData → HookState → HookState
unfolding fresh_event
fire type time payload s = record s {
  session = dispatch_event (record s.session { event = fresh_event type time payload s });
}

-- The first assignments of `load_input_helper`, to the statics of the wheel. Its layouts are apart.
unfoldable pub reset_rotation : HookState → HookState
reset_rotation s = record s { rotation = record { vertical = pos 0; horizontal = pos 0 } }

-- `event.reserved ^ 0x01`.
unfoldable pub not_consumed : HookState → Bool
not_consumed s = not (s.session.event.reserved == 0x01)
