-- ===== src/X11/Helper/State.antt =====
-- The globals of src/x11/input_helper.c and the functions that set and read them. What the X
-- server and `malloc` answer is an argument.
use libuiohook.Prelude.{
  ℕ, ◌-◌, Bool, true, false, ◌&&◌, List, Option, none, some, ltb, leb, ◌==◌, if◌then◌else◌, length,
  get_or,
}

-- A pointer: `NULL`, to memory in use, or to memory that was given back.
pub data Handle : Type 0 where
  null live freed : Handle

-- The prefix of the name of the keyboard's key codes: "evdev_", "xfree86_", or neither.
pub data LayoutName : Type 0 where
  evdev_layout xfree86_layout other_layout : LayoutName

pub record Helper : Type 0 where
  -- Whether `helper_disp` is set.
  pub helper_disp : Bool
  pub mouse_button_map : Handle
  pub keyboard_map : Handle
  pub is_evdev : Bool

-- What `malloc`, `XkbGetKeyboard` with `XGetAtomName`, and `XkbGetMap` return.
pub record LoadAnswers : Type 0 where
  pub allocated : Bool
  pub layout : Option LayoutName
  pub map_found : Bool

-- `mapping` is what `XGetPointerMapping` writes to the buffer.
unfoldable pub button_map_lookup : Helper → List ℕ → ℕ → ℕ
button_map_lookup h mapping button =
    let remapped =
      if ltb 0 button && leb button (length mapping)
      then get_or mapping (button - 1) 0
      else button in
    let map_button =
      if h.helper_disp
      then (elim h.mouse_button_map [ live ↦ remapped | _ ↦ button ])
      else button in
    if map_button == 2 then 3 else if map_button == 3 then 2 else map_button

evdev_found : Option LayoutName → Bool → Bool
evdev_found none is_evdev = is_evdev
evdev_found (some evdev_layout) is_evdev = true
evdev_found (some xfree86_layout) is_evdev = is_evdev
evdev_found (some other_layout) is_evdev = is_evdev

unfoldable pub load_input_helper : LoadAnswers → Helper → Helper
unfolding evdev_found
load_input_helper a h = record h {
  mouse_button_map = if a.allocated then live else null;
  is_evdev = evdev_found a.layout h.is_evdev;
  keyboard_map = if a.map_found then live else null;
}

-- `keyboard_map` keeps its address after it is freed.
abbrev free_map : Handle → Handle
free_map null = null
free_map live = freed
free_map freed = freed

abbrev flag_after : Handle → Bool → Bool
flag_after null is_evdev = is_evdev
flag_after live is_evdev = false
flag_after freed is_evdev = false

unfoldable pub unload_input_helper : Helper → Helper
unload_input_helper h = record h {
  keyboard_map = free_map h.keyboard_map;
  is_evdev = flag_after h.keyboard_map h.is_evdev;
  mouse_button_map = null;
}
