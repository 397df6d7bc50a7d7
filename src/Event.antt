-- ===== src/Event.antt =====
-- include/uiohook.h: the virtual event and its parts. An `intN_t` coordinate is kept as its bit
-- pattern; the wheel's rotation is kept as the signed integer.
pub mod KeyCodes
pub mod Masks
use libuiohook.Prelude.{ℕ, ℤ, pos}

-- `enum event_type`.
pub data EventType : Type 0 where
  hook_enabled hook_disabled key_typed key_pressed key_released : EventType
  mouse_clicked mouse_pressed mouse_released mouse_moved mouse_dragged mouse_wheel : EventType

pub record ScreenData : Type 0 where
  pub number : ℕ
  pub x : ℕ
  pub y : ℕ
  pub width : ℕ
  pub height : ℕ

pub record KeyboardEventData : Type 0 where
  pub keycode : ℕ
  pub rawcode : ℕ
  pub keychar : ℕ

pub record MouseEventData : Type 0 where
  pub button : ℕ
  pub clicks : ℕ
  pub x : ℕ
  pub y : ℕ

pub record MouseWheelEventData : Type 0 where
  pub clicks : ℕ
  pub x : ℕ
  pub y : ℕ
  pub type : ℕ
  pub amount : ℕ
  pub rotation : ℤ
  pub direction : ℕ

-- The union `data`: the member that was written last.
pub data EventData : Type 0 where
  keyboard : KeyboardEventData → EventData
  mouse : MouseEventData → EventData
  wheel : MouseWheelEventData → EventData

pub record UiohookEvent : Type 0 where
  pub type : EventType
  pub time : ℕ
  pub mask : ℕ
  pub reserved : ℕ
  pub payload : EventData

-- The status codes.
abbrev pub uiohook_success : ℕ
uiohook_success = 0x00

abbrev pub uiohook_failure : ℕ
uiohook_failure = 0x01

abbrev pub uiohook_error_out_of_memory : ℕ
uiohook_error_out_of_memory = 0x02

abbrev pub uiohook_error_x_open_display : ℕ
uiohook_error_x_open_display = 0x20

abbrev pub uiohook_error_x_record_not_found : ℕ
uiohook_error_x_record_not_found = 0x21

abbrev pub uiohook_error_x_record_alloc_range : ℕ
uiohook_error_x_record_alloc_range = 0x22

abbrev pub uiohook_error_x_record_create_context : ℕ
uiohook_error_x_record_create_context = 0x23

abbrev pub uiohook_error_x_record_enable_context : ℕ
uiohook_error_x_record_enable_context = 0x24

abbrev pub uiohook_error_x_record_get_context : ℕ
uiohook_error_x_record_get_context = 0x25

abbrev pub uiohook_error_set_windows_hook_ex : ℕ
uiohook_error_set_windows_hook_ex = 0x30

abbrev pub uiohook_error_get_module_handle : ℕ
uiohook_error_get_module_handle = 0x31

abbrev pub uiohook_error_axapi_disabled : ℕ
uiohook_error_axapi_disabled = 0x40

abbrev pub uiohook_error_create_event_port : ℕ
uiohook_error_create_event_port = 0x41

abbrev pub uiohook_error_create_run_loop_source : ℕ
uiohook_error_create_run_loop_source = 0x42

abbrev pub uiohook_error_get_runloop : ℕ
uiohook_error_get_runloop = 0x43

abbrev pub uiohook_error_create_observer : ℕ
uiohook_error_create_observer = 0x44
