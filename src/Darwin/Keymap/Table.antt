-- ===== src/Darwin/Keymap/Table.antt =====
-- `keycode_scancode_table` of src/darwin/input_helper.c: for each index the virtual code and the native
-- code.
use libuiohook.Prelude.{ℕ, List, [], ◌∷◌, ◌++◌}
use libuiohook.Event.KeyCodes.{
  vc_0, vc_1, vc_2, vc_3, vc_4, vc_5, vc_6, vc_7, vc_8, vc_9, vc_a, vc_alt_l, vc_alt_r, vc_b,
  vc_back_slash, vc_backquote, vc_backspace, vc_c, vc_caps_lock, vc_close_bracket, vc_comma,
  vc_control_l, vc_control_r, vc_d, vc_delete, vc_down, vc_e, vc_end, vc_enter, vc_equals,
  vc_escape, vc_f, vc_f1, vc_f10, vc_f11, vc_f12, vc_f13, vc_f14, vc_f15, vc_f16, vc_f17, vc_f18,
  vc_f19, vc_f2, vc_f20, vc_f3, vc_f4, vc_f5, vc_f6, vc_f7, vc_f8, vc_f9, vc_g, vc_h, vc_home, vc_i,
  vc_insert, vc_j, vc_k, vc_katakana, vc_kp_0, vc_kp_1, vc_kp_2, vc_kp_3, vc_kp_4, vc_kp_5, vc_kp_6,
  vc_kp_7, vc_kp_8, vc_kp_9, vc_kp_add, vc_kp_comma, vc_kp_divide, vc_kp_enter, vc_kp_equals,
  vc_kp_multiply, vc_kp_separator, vc_kp_subtract, vc_l, vc_left, vc_lesser_greater, vc_m,
  vc_media_eject, vc_media_next, vc_media_play, vc_media_previous, vc_meta_l, vc_meta_r, vc_minus,
  vc_n, vc_num_lock, vc_o, vc_open_bracket, vc_p, vc_page_down, vc_page_up, vc_period, vc_power,
  vc_q, vc_quote, vc_r, vc_right, vc_s, vc_semicolon, vc_shift_l, vc_shift_r, vc_slash, vc_space,
  vc_t, vc_tab, vc_u, vc_undefined, vc_underscore, vc_up, vc_v, vc_volume_down, vc_volume_mute,
  vc_volume_up, vc_w, vc_x, vc_y, vc_yen, vc_z,
}
use libuiohook.Darwin.VirtualKeys.{
  kvk_ansi_0, kvk_ansi_1, kvk_ansi_2, kvk_ansi_3, kvk_ansi_4, kvk_ansi_5, kvk_ansi_6, kvk_ansi_7,
  kvk_ansi_8, kvk_ansi_9, kvk_ansi_a, kvk_ansi_b, kvk_ansi_backslash, kvk_ansi_c, kvk_ansi_comma,
  kvk_ansi_d, kvk_ansi_e, kvk_ansi_equal, kvk_ansi_f, kvk_ansi_g, kvk_ansi_grave, kvk_ansi_h,
  kvk_ansi_i, kvk_ansi_j, kvk_ansi_k, kvk_ansi_keypad0, kvk_ansi_keypad1, kvk_ansi_keypad2,
  kvk_ansi_keypad3, kvk_ansi_keypad4, kvk_ansi_keypad5, kvk_ansi_keypad6, kvk_ansi_keypad7,
  kvk_ansi_keypad8, kvk_ansi_keypad9, kvk_ansi_keypadclear, kvk_ansi_keypaddecimal,
  kvk_ansi_keypaddivide, kvk_ansi_keypadenter, kvk_ansi_keypadequals, kvk_ansi_keypadminus,
  kvk_ansi_keypadmultiply, kvk_ansi_keypadplus, kvk_ansi_l, kvk_ansi_leftbracket, kvk_ansi_m,
  kvk_ansi_minus, kvk_ansi_n, kvk_ansi_o, kvk_ansi_p, kvk_ansi_period, kvk_ansi_q, kvk_ansi_quote,
  kvk_ansi_r, kvk_ansi_rightbracket, kvk_ansi_s, kvk_ansi_semicolon, kvk_ansi_slash, kvk_ansi_t,
  kvk_ansi_u, kvk_ansi_v, kvk_ansi_w, kvk_ansi_x, kvk_ansi_y, kvk_ansi_z, kvk_capslock, kvk_command,
  kvk_control, kvk_delete, kvk_downarrow, kvk_end, kvk_escape, kvk_f1, kvk_f10, kvk_f11, kvk_f12,
  kvk_f13, kvk_f14, kvk_f15, kvk_f16, kvk_f17, kvk_f18, kvk_f19, kvk_f2, kvk_f20, kvk_f3, kvk_f4,
  kvk_f5, kvk_f6, kvk_f7, kvk_f8, kvk_f9, kvk_forwarddelete, kvk_help, kvk_home, kvk_jis_kana,
  kvk_jis_keypadcomma, kvk_jis_underscore, kvk_jis_yen, kvk_leftarrow, kvk_media_next,
  kvk_media_play, kvk_media_previous, kvk_mute, kvk_nx_eject, kvk_nx_power, kvk_option,
  kvk_pagedown, kvk_pageup, kvk_return, kvk_rightarrow, kvk_rightcommand, kvk_rightcontrol,
  kvk_rightoption, kvk_rightshift, kvk_shift, kvk_space, kvk_tab, kvk_undefined, kvk_uparrow,
  kvk_volumedown, kvk_volumeup,
}

-- Rows 0 to 127.
abbrev keycode_low_rows : List (ℕ × ℕ)
keycode_low_rows =
    (vc_a, kvk_undefined)
    ∷ (vc_s, kvk_escape)
    ∷ (vc_d, kvk_ansi_1)
    ∷ (vc_f, kvk_ansi_2)
    ∷ (vc_h, kvk_ansi_3)
    ∷ (vc_g, kvk_ansi_4)
    ∷ (vc_z, kvk_ansi_5)
    ∷ (vc_x, kvk_ansi_6)
    ∷ (vc_c, kvk_ansi_7)
    ∷ (vc_v, kvk_ansi_8)
    ∷ (vc_undefined, kvk_ansi_9)
    ∷ (vc_b, kvk_ansi_0)
    ∷ (vc_q, kvk_ansi_minus)
    ∷ (vc_w, kvk_ansi_equal)
    ∷ (vc_e, kvk_delete)
    ∷ (vc_r, kvk_tab)
    ∷ (vc_y, kvk_ansi_q)
    ∷ (vc_t, kvk_ansi_w)
    ∷ (vc_1, kvk_ansi_e)
    ∷ (vc_2, kvk_ansi_r)
    ∷ (vc_3, kvk_ansi_t)
    ∷ (vc_4, kvk_ansi_y)
    ∷ (vc_6, kvk_ansi_u)
    ∷ (vc_5, kvk_ansi_i)
    ∷ (vc_equals, kvk_ansi_o)
    ∷ (vc_9, kvk_ansi_p)
    ∷ (vc_7, kvk_ansi_leftbracket)
    ∷ (vc_minus, kvk_ansi_rightbracket)
    ∷ (vc_8, kvk_return)
    ∷ (vc_0, kvk_control)
    ∷ (vc_close_bracket, kvk_ansi_a)
    ∷ (vc_o, kvk_ansi_s)
    ∷ (vc_u, kvk_ansi_d)
    ∷ (vc_open_bracket, kvk_ansi_f)
    ∷ (vc_i, kvk_ansi_g)
    ∷ (vc_p, kvk_ansi_h)
    ∷ (vc_enter, kvk_ansi_j)
    ∷ (vc_l, kvk_ansi_k)
    ∷ (vc_j, kvk_ansi_l)
    ∷ (vc_quote, kvk_ansi_semicolon)
    ∷ (vc_k, kvk_ansi_quote)
    ∷ (vc_semicolon, kvk_ansi_grave)
    ∷ (vc_back_slash, kvk_shift)
    ∷ (vc_comma, kvk_ansi_backslash)
    ∷ (vc_slash, kvk_ansi_z)
    ∷ (vc_n, kvk_ansi_x)
    ∷ (vc_m, kvk_ansi_c)
    ∷ (vc_period, kvk_ansi_v)
    ∷ (vc_tab, kvk_ansi_b)
    ∷ (vc_space, kvk_ansi_n)
    ∷ (vc_backquote, kvk_ansi_m)
    ∷ (vc_backspace, kvk_ansi_comma)
    ∷ (vc_undefined, kvk_ansi_period)
    ∷ (vc_escape, kvk_ansi_slash)
    ∷ (vc_meta_r, kvk_rightshift)
    ∷ (vc_meta_l, kvk_ansi_keypadmultiply)
    ∷ (vc_shift_l, kvk_option)
    ∷ (vc_caps_lock, kvk_space)
    ∷ (vc_alt_l, kvk_capslock)
    ∷ (vc_control_l, kvk_f1)
    ∷ (vc_shift_r, kvk_f2)
    ∷ (vc_alt_r, kvk_f3)
    ∷ (vc_control_r, kvk_f4)
    ∷ (vc_undefined, kvk_f5)
    ∷ (vc_f17, kvk_f6)
    ∷ (vc_kp_separator, kvk_f7)
    ∷ (vc_undefined, kvk_f8)
    ∷ (vc_kp_multiply, kvk_f9)
    ∷ (vc_undefined, kvk_f10)
    ∷ (vc_kp_add, kvk_ansi_keypadclear)
    ∷ (vc_undefined, kvk_undefined)
    ∷ (vc_num_lock, kvk_ansi_keypad7)
    ∷ (vc_volume_up, kvk_ansi_keypad8)
    ∷ (vc_volume_down, kvk_ansi_keypad9)
    ∷ (vc_volume_mute, kvk_ansi_keypadminus)
    ∷ (vc_kp_divide, kvk_ansi_keypad4)
    ∷ (vc_kp_enter, kvk_ansi_keypad5)
    ∷ (vc_undefined, kvk_ansi_keypad6)
    ∷ (vc_kp_subtract, kvk_ansi_keypadplus)
    ∷ (vc_f18, kvk_ansi_keypad1)
    ∷ (vc_f19, kvk_ansi_keypad2)
    ∷ (vc_kp_equals, kvk_ansi_keypad3)
    ∷ (vc_kp_0, kvk_ansi_keypad0)
    ∷ (vc_kp_1, kvk_ansi_keypaddecimal)
    ∷ (vc_kp_2, kvk_undefined)
    ∷ (vc_kp_3, kvk_undefined)
    ∷ (vc_kp_4, kvk_undefined)
    ∷ (vc_kp_5, kvk_f11)
    ∷ (vc_kp_6, kvk_f12)
    ∷ (vc_kp_7, kvk_undefined)
    ∷ (vc_f20, kvk_undefined)
    ∷ (vc_kp_8, kvk_f13)
    ∷ (vc_kp_9, kvk_f14)
    ∷ (vc_yen, kvk_f15)
    ∷ (vc_underscore, kvk_undefined)
    ∷ (vc_kp_comma, kvk_undefined)
    ∷ (vc_f5, kvk_undefined)
    ∷ (vc_f6, kvk_undefined)
    ∷ (vc_f7, kvk_undefined)
    ∷ (vc_f3, kvk_f16)
    ∷ (vc_f8, kvk_f17)
    ∷ (vc_f9, kvk_f18)
    ∷ (vc_undefined, kvk_f19)
    ∷ (vc_f11, kvk_f20)
    ∷ (vc_katakana, kvk_undefined)
    ∷ (vc_f13, kvk_undefined)
    ∷ (vc_f16, kvk_undefined)
    ∷ (vc_f14, kvk_undefined)
    ∷ (vc_undefined, kvk_undefined)
    ∷ (vc_f10, kvk_undefined)
    ∷ (vc_undefined, kvk_undefined)
    ∷ (vc_f12, kvk_undefined)
    ∷ (vc_undefined, kvk_jis_kana)
    ∷ (vc_f15, kvk_undefined)
    ∷ (vc_insert, kvk_undefined)
    ∷ (vc_home, kvk_jis_underscore)
    ∷ (vc_page_up, kvk_undefined)
    ∷ (vc_delete, kvk_undefined)
    ∷ (vc_f4, kvk_undefined)
    ∷ (vc_end, kvk_undefined)
    ∷ (vc_f2, kvk_undefined)
    ∷ (vc_page_down, kvk_undefined)
    ∷ (vc_f1, kvk_undefined)
    ∷ (vc_left, kvk_undefined)
    ∷ (vc_right, kvk_undefined)
    ∷ (vc_down, kvk_jis_yen)
    ∷ (vc_up, kvk_jis_keypadcomma)
    ∷ (vc_undefined, kvk_undefined)
    ∷ []

-- Rows 128 to 255.
abbrev keycode_high_rows : List (ℕ × ℕ)
keycode_high_rows =
    (vc_undefined, kvk_undefined)
    ∷ (vc_undefined, kvk_undefined)
    ∷ (vc_undefined, kvk_undefined)
    ∷ (vc_undefined, kvk_undefined)
    ∷ (vc_undefined, kvk_undefined)
    ∷ (vc_undefined, kvk_undefined)
    ∷ (vc_undefined, kvk_undefined)
    ∷ (vc_undefined, kvk_undefined)
    ∷ (vc_undefined, kvk_undefined)
    ∷ (vc_undefined, kvk_undefined)
    ∷ (vc_undefined, kvk_undefined)
    ∷ (vc_undefined, kvk_undefined)
    ∷ (vc_undefined, kvk_undefined)
    ∷ (vc_undefined, kvk_ansi_keypadequals)
    ∷ (vc_undefined, kvk_undefined)
    ∷ (vc_undefined, kvk_undefined)
    ∷ (vc_undefined, kvk_media_previous)
    ∷ (vc_undefined, kvk_undefined)
    ∷ (vc_undefined, kvk_undefined)
    ∷ (vc_undefined, kvk_undefined)
    ∷ (vc_undefined, kvk_undefined)
    ∷ (vc_undefined, kvk_undefined)
    ∷ (vc_undefined, kvk_undefined)
    ∷ (vc_undefined, kvk_undefined)
    ∷ (vc_undefined, kvk_undefined)
    ∷ (vc_undefined, kvk_media_next)
    ∷ (vc_undefined, kvk_undefined)
    ∷ (vc_undefined, kvk_undefined)
    ∷ (vc_undefined, kvk_ansi_keypadenter)
    ∷ (vc_undefined, kvk_rightcontrol)
    ∷ (vc_undefined, kvk_undefined)
    ∷ (vc_undefined, kvk_undefined)
    ∷ (vc_undefined, kvk_mute)
    ∷ (vc_undefined, kvk_undefined)
    ∷ (vc_undefined, kvk_media_play)
    ∷ (vc_undefined, kvk_undefined)
    ∷ (vc_undefined, kvk_undefined)
    ∷ (vc_undefined, kvk_undefined)
    ∷ (vc_undefined, kvk_undefined)
    ∷ (vc_undefined, kvk_undefined)
    ∷ (vc_undefined, kvk_undefined)
    ∷ (vc_undefined, kvk_undefined)
    ∷ (vc_undefined, kvk_undefined)
    ∷ (vc_undefined, kvk_undefined)
    ∷ (vc_undefined, kvk_nx_eject)
    ∷ (vc_undefined, kvk_undefined)
    ∷ (vc_undefined, kvk_volumedown)
    ∷ (vc_undefined, kvk_undefined)
    ∷ (vc_undefined, kvk_volumeup)
    ∷ (vc_undefined, kvk_undefined)
    ∷ (vc_undefined, kvk_undefined)
    ∷ (vc_undefined, kvk_undefined)
    ∷ (vc_undefined, kvk_undefined)
    ∷ (vc_undefined, kvk_ansi_keypaddivide)
    ∷ (vc_undefined, kvk_undefined)
    ∷ (vc_undefined, kvk_undefined)
    ∷ (vc_undefined, kvk_rightoption)
    ∷ (vc_undefined, kvk_undefined)
    ∷ (vc_undefined, kvk_undefined)
    ∷ (vc_undefined, kvk_undefined)
    ∷ (vc_undefined, kvk_undefined)
    ∷ (vc_undefined, kvk_undefined)
    ∷ (vc_undefined, kvk_undefined)
    ∷ (vc_undefined, kvk_undefined)
    ∷ (vc_undefined, kvk_undefined)
    ∷ (vc_undefined, kvk_undefined)
    ∷ (vc_undefined, kvk_undefined)
    ∷ (vc_undefined, kvk_undefined)
    ∷ (vc_undefined, kvk_undefined)
    ∷ (vc_undefined, kvk_undefined)
    ∷ (vc_undefined, kvk_undefined)
    ∷ (vc_undefined, kvk_home)
    ∷ (vc_undefined, kvk_uparrow)
    ∷ (vc_undefined, kvk_pageup)
    ∷ (vc_undefined, kvk_undefined)
    ∷ (vc_undefined, kvk_leftarrow)
    ∷ (vc_undefined, kvk_undefined)
    ∷ (vc_undefined, kvk_rightarrow)
    ∷ (vc_undefined, kvk_undefined)
    ∷ (vc_undefined, kvk_end)
    ∷ (vc_undefined, kvk_downarrow)
    ∷ (vc_undefined, kvk_pagedown)
    ∷ (vc_undefined, kvk_help)
    ∷ (vc_undefined, kvk_forwarddelete)
    ∷ (vc_undefined, kvk_undefined)
    ∷ (vc_undefined, kvk_undefined)
    ∷ (vc_undefined, kvk_undefined)
    ∷ (vc_undefined, kvk_undefined)
    ∷ (vc_undefined, kvk_undefined)
    ∷ (vc_undefined, kvk_undefined)
    ∷ (vc_undefined, kvk_undefined)
    ∷ (vc_undefined, kvk_command)
    ∷ (vc_undefined, kvk_rightcommand)
    ∷ (vc_undefined, kvk_undefined)
    ∷ (vc_undefined, kvk_nx_power)
    ∷ (vc_undefined, kvk_undefined)
    ∷ (vc_undefined, kvk_undefined)
    ∷ (vc_undefined, kvk_undefined)
    ∷ (vc_lesser_greater, kvk_undefined)
    ∷ (vc_undefined, kvk_undefined)
    ∷ (vc_undefined, kvk_undefined)
    ∷ (vc_undefined, kvk_undefined)
    ∷ (vc_power, kvk_undefined)
    ∷ (vc_undefined, kvk_undefined)
    ∷ (vc_undefined, kvk_undefined)
    ∷ (vc_undefined, kvk_undefined)
    ∷ (vc_undefined, kvk_undefined)
    ∷ (vc_undefined, kvk_undefined)
    ∷ (vc_undefined, kvk_undefined)
    ∷ (vc_undefined, kvk_undefined)
    ∷ (vc_media_eject, kvk_undefined)
    ∷ (vc_undefined, kvk_undefined)
    ∷ (vc_media_play, kvk_undefined)
    ∷ (vc_media_next, kvk_undefined)
    ∷ (vc_media_previous, kvk_undefined)
    ∷ (vc_undefined, kvk_undefined)
    ∷ (vc_undefined, kvk_undefined)
    ∷ (vc_undefined, kvk_undefined)
    ∷ (vc_undefined, kvk_undefined)
    ∷ (vc_undefined, kvk_undefined)
    ∷ (vc_undefined, kvk_undefined)
    ∷ (vc_undefined, kvk_undefined)
    ∷ (vc_undefined, kvk_undefined)
    ∷ (vc_undefined, kvk_undefined)
    ∷ (vc_undefined, kvk_undefined)
    ∷ (vc_undefined, kvk_undefined)
    ∷ (vc_undefined, kvk_undefined)
    ∷ (vc_undefined, kvk_undefined)
    ∷ []

unfoldable pub keycode_scancode_table : List (ℕ × ℕ)
keycode_scancode_table = keycode_low_rows ++ keycode_high_rows
