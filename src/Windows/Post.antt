-- ===== src/Windows/Post.antt =====
-- src/windows/post_event.c: the inputs that posting an event gives to `SendInput`, in order, and the
-- type that is left in the caller's event.
pub mod Laws
use libuiohook.Prelude.{
  ℕ, ◌+◌, ◌-◌, ◌*◌, ◌/◌, ◌%◌, Bool, not, List, [], ◌∷◌, ◌++◌, Option, none, some, ◌==◌,
  if◌then◌else◌, bit_and, bit_or, ℤ, pos, negsuc, pos_part, neg_part, sub_ℕ, ◌+ℤ◌, ◌*ℤ◌, ltb_ℤ,
  signed16,
}
use libuiohook.Event.{
  EventType, hook_enabled, hook_disabled, key_typed, key_pressed, key_released, mouse_clicked,
  mouse_pressed, mouse_released, mouse_moved, mouse_dragged, mouse_wheel, KeyboardEventData,
  MouseEventData, MouseWheelEventData,
}
use libuiohook.Event.Masks.{
  mask_shift_l, mask_shift_r, mouse_nobutton, mouse_button1, mouse_button2, mouse_button3,
  mouse_button4, mouse_button5,
}
use libuiohook.Windows.VirtualKeys.{
  vk_prior, vk_next, vk_end, vk_home, vk_left, vk_up, vk_right, vk_down, vk_insert, vk_delete,
}
use libuiohook.Windows.Keymap.{scancode_to_keycode}

-- The flags `MOUSEEVENTF_*` that the source sets.
pub data MouseFlags : Type 0 where
  left_down left_up right_down right_up middle_down middle_up x_down x_up : MouseFlags
  wheel_turn absolute_move : MouseFlags

-- The structure `INPUT`, for the keyboard or the mouse.
pub data Input : Type 0 where
  key_input : (vk flags : ℕ) → Input
  mouse_input : (dx dy : ℤ) → (mouse_data : ℕ) → (flags : MouseFlags) → Input

-- An event to post: its type and mask with all three readings of the union.
pub record PostedEvent : Type 0 where
  pub type : EventType
  pub mask : ℕ
  pub keyboard : KeyboardEventData
  pub mouse : MouseEventData
  pub wheel : MouseWheelEventData

abbrev pub keyeventf_extendedkey : ℕ
keyeventf_extendedkey = 0x0001

abbrev pub keyeventf_keyup : ℕ
keyeventf_keyup = 0x0002

abbrev pub keyeventf_keydown : ℕ
keyeventf_keydown = 0x0000

abbrev pub extend_key_table : List ℕ
extend_key_table =
    vk_up ∷ vk_down ∷ vk_left ∷ vk_right ∷ vk_home ∷ vk_end ∷ vk_prior ∷ vk_next ∷ vk_insert
    ∷ vk_delete ∷ []

-- The loop goes on while the key is equal to the row.
unfoldable pub extend_loop : List ℕ → ℕ → ℕ → ℕ
extend_loop [] vk flags = flags
extend_loop (row ∷ rows) vk flags =
    let rest = extend_loop rows vk (bit_or flags keyeventf_extendedkey) in
    if vk == row then rest else flags

-- `event->mask & MASK_SHIFT` as it expands: `mask & MASK_SHIFT_L | MASK_SHIFT_R`.
unfoldable pub shift_test : ℕ → Bool
shift_test mask = not (bit_or (bit_and mask mask_shift_l) mask_shift_r == 0)

unfoldable pub key_flags : EventType → Option ℕ
key_flags key_pressed = some keyeventf_keydown
key_flags key_released = some keyeventf_keyup
key_flags _ = none

unfoldable pub map_keyboard_event : PostedEvent → Option Input
map_keyboard_event e = elim (key_flags e.type) [
  | none ↦ none
  | some flags ↦
      let vk = scancode_to_keycode e.keyboard.keycode in
      if vk == 0x0000
      then none
      else if shift_test e.mask
      then some (key_input vk (extend_loop extend_key_table vk flags))
      else some (key_input vk flags)
]

-- `coordinate * MAX_WINDOWS_COORD_VALUE / screen_size + offset`, with the division of C.
unfoldable pub convert_to_relative_position : ℤ → ℕ → ℤ
convert_to_relative_position coordinate screen_size =
    sub_ℕ (pos_part coordinate * 65536 / screen_size) (neg_part coordinate * 65536 / screen_size)
    +ℤ (if ltb_ℤ (pos 0) coordinate then pos 1 else negsuc 0)

-- `mouseData` of a button past the third: `XBUTTON1` is 1 and `XBUTTON2` is 2.
unfoldable pub extra_data : ℕ → ℕ
extra_data button =
    if button == mouse_button4 then 1 else if button == mouse_button5 then 2 else button - 3

unfoldable pub press_flags : ℕ → Option (MouseFlags × ℕ)
press_flags button =
    if button == mouse_nobutton
    then none
    else if button == mouse_button1
    then some (left_down, 0)
    else if button == mouse_button2
    then some (right_down, 0)
    else if button == mouse_button3
    then some (middle_down, 0)
    else some (x_down, extra_data button)

unfoldable pub release_flags : ℕ → Option (MouseFlags × ℕ)
release_flags button =
    if button == mouse_nobutton
    then none
    else if button == mouse_button1
    then some (left_up, 0)
    else if button == mouse_button2
    then some (right_up, 0)
    else if button == mouse_button3
    then some (middle_up, 0)
    else some (x_up, extra_data button)

-- The screen, and whether `calloc` succeeds for the event and for the motion posted on the way.
pub record PostAnswers : Type 0 where
  pub width : ℕ
  pub height : ℕ
  pub allocated : Bool
  pub inner_allocated : Bool

-- The conversion of an `int` to `DWORD`.
abbrev to_dword : ℤ → ℕ
to_dword z = (pos_part z + 4294967296 - neg_part z % 4294967296) % 4294967296

abbrev input_at : PostAnswers → PostedEvent → ℕ → MouseFlags → Input
input_at a e mouse_data flags =
    mouse_input (convert_to_relative_position (signed16 e.mouse.x) a.width)
      (convert_to_relative_position (signed16 e.mouse.y) a.height) mouse_data flags

-- A button: the pointer is moved first, and the type is set to pressed afterwards.
unfoldable pub post_button :
    PostAnswers → PostedEvent → Option (MouseFlags × ℕ) → List Input × EventType
post_button a e none = ([], e.type)
post_button a e (some (flags, mouse_data)) = (
  (if a.inner_allocated then input_at a e 0 absolute_move ∷ [] else [])
      ++ (input_at a e mouse_data flags ∷ []),
  mouse_pressed,
)

abbrev to_list : Option Input → List Input
to_list none = []
to_list (some i) = i ∷ []

unfoldable pub post_by_type : EventType → PostAnswers → PostedEvent → List Input × EventType
post_by_type key_pressed a e = (to_list (map_keyboard_event e), e.type)
post_by_type key_released a e = (to_list (map_keyboard_event e), e.type)
post_by_type mouse_pressed a e = post_button a e (press_flags e.mouse.button)
post_by_type mouse_released a e = post_button a e (release_flags e.mouse.button)
post_by_type mouse_wheel a e = (
  input_at a e (to_dword (pos e.wheel.amount *ℤ e.wheel.rotation *ℤ pos 120)) wheel_turn ∷ [],
  e.type,
)
post_by_type mouse_moved a e = (input_at a e 0 absolute_move ∷ [], e.type)
post_by_type mouse_dragged a e = (input_at a e 0 absolute_move ∷ [], e.type)
post_by_type _ a e = ([], e.type)

unfoldable pub hook_post_event : PostAnswers → PostedEvent → List Input × EventType
hook_post_event a e = if a.allocated then post_by_type e.type a e else ([], e.type)
