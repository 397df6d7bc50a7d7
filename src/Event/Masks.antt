-- ===== src/Event/Masks.antt =====
-- The modifier masks, the mouse buttons and the wheel constants of include/uiohook.h.
use libuiohook.Prelude.{ℕ, ◌^◌}

abbrev pub mask_shift_l : ℕ
mask_shift_l = 2 ^ 0

abbrev pub mask_ctrl_l : ℕ
mask_ctrl_l = 2 ^ 1

abbrev pub mask_meta_l : ℕ
mask_meta_l = 2 ^ 2

abbrev pub mask_alt_l : ℕ
mask_alt_l = 2 ^ 3

abbrev pub mask_shift_r : ℕ
mask_shift_r = 2 ^ 4

abbrev pub mask_ctrl_r : ℕ
mask_ctrl_r = 2 ^ 5

abbrev pub mask_meta_r : ℕ
mask_meta_r = 2 ^ 6

abbrev pub mask_alt_r : ℕ
mask_alt_r = 2 ^ 7

abbrev pub mask_button1 : ℕ
mask_button1 = 2 ^ 8

abbrev pub mask_button2 : ℕ
mask_button2 = 2 ^ 9

abbrev pub mask_button3 : ℕ
mask_button3 = 2 ^ 10

abbrev pub mask_button4 : ℕ
mask_button4 = 2 ^ 11

abbrev pub mask_button5 : ℕ
mask_button5 = 2 ^ 12

abbrev pub mask_num_lock : ℕ
mask_num_lock = 2 ^ 13

abbrev pub mask_caps_lock : ℕ
mask_caps_lock = 2 ^ 14

abbrev pub mask_scroll_lock : ℕ
mask_scroll_lock = 2 ^ 15

abbrev pub mouse_nobutton : ℕ
mouse_nobutton = 0

abbrev pub mouse_button1 : ℕ
mouse_button1 = 1

abbrev pub mouse_button2 : ℕ
mouse_button2 = 2

abbrev pub mouse_button3 : ℕ
mouse_button3 = 3

abbrev pub mouse_button4 : ℕ
mouse_button4 = 4

abbrev pub mouse_button5 : ℕ
mouse_button5 = 5

abbrev pub wheel_unit_scroll : ℕ
wheel_unit_scroll = 1

abbrev pub wheel_block_scroll : ℕ
wheel_block_scroll = 2

abbrev pub wheel_vertical_direction : ℕ
wheel_vertical_direction = 3

abbrev pub wheel_horizontal_direction : ℕ
wheel_horizontal_direction = 4
