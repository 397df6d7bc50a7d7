-- ===== src/X11/Keymap/Evdev.antt =====
-- `evdev_scancode_table` of src/x11/input_helper.c: for each index the virtual code and the native code.
use libuiohook.Prelude.{ℕ, List, [], ◌∷◌, ◌++◌}
use libuiohook.Event.KeyCodes.{
  vc_0, vc_1, vc_2, vc_3, vc_4, vc_5, vc_6, vc_7, vc_8, vc_9, vc_a, vc_alt_l, vc_alt_r,
  vc_app_calculator, vc_app_mail, vc_b, vc_back_slash, vc_backquote, vc_backspace, vc_browser_home,
  vc_browser_search, vc_c, vc_caps_lock, vc_close_bracket, vc_comma, vc_context_menu, vc_control_l,
  vc_control_r, vc_d, vc_delete, vc_down, vc_e, vc_end, vc_enter, vc_equals, vc_escape, vc_f, vc_f1,
  vc_f10, vc_f11, vc_f12, vc_f13, vc_f14, vc_f15, vc_f16, vc_f17, vc_f18, vc_f19, vc_f2, vc_f20,
  vc_f21, vc_f22, vc_f23, vc_f24, vc_f3, vc_f4, vc_f5, vc_f6, vc_f7, vc_f8, vc_f9, vc_g, vc_h,
  vc_hiragana, vc_home, vc_i, vc_insert, vc_j, vc_k, vc_kanji, vc_katakana, vc_kp_0, vc_kp_1,
  vc_kp_2, vc_kp_3, vc_kp_4, vc_kp_5, vc_kp_6, vc_kp_7, vc_kp_8, vc_kp_9, vc_kp_add, vc_kp_comma,
  vc_kp_divide, vc_kp_enter, vc_kp_equals, vc_kp_multiply, vc_kp_separator, vc_kp_subtract, vc_l,
  vc_left, vc_lesser_greater, vc_m, vc_media_play, vc_meta_l, vc_meta_r, vc_minus, vc_n,
  vc_num_lock, vc_o, vc_open_bracket, vc_p, vc_page_down, vc_page_up, vc_pause, vc_period, vc_power,
  vc_printscreen, vc_q, vc_quote, vc_r, vc_right, vc_s, vc_scroll_lock, vc_semicolon, vc_shift_l,
  vc_shift_r, vc_slash, vc_sleep, vc_space, vc_sun_again, vc_sun_copy, vc_sun_cut, vc_sun_find,
  vc_sun_front, vc_sun_help, vc_sun_insert, vc_sun_open, vc_sun_props, vc_sun_stop, vc_sun_undo,
  vc_t, vc_tab, vc_u, vc_undefined, vc_up, vc_v, vc_volume_down, vc_volume_mute, vc_volume_up, vc_w,
  vc_x, vc_y, vc_yen, vc_z,
}

-- Rows 0 to 127.
abbrev evdev_low_rows : List (ℕ × ℕ)
evdev_low_rows =
    (vc_undefined, 0x00)
    ∷ (vc_undefined, 0x09)
    ∷ (vc_undefined, 0x0A)
    ∷ (vc_undefined, 0x0B)
    ∷ (vc_undefined, 0x0C)
    ∷ (vc_undefined, 0x0D)
    ∷ (vc_undefined, 0x0E)
    ∷ (vc_undefined, 0x0F)
    ∷ (vc_undefined, 0x10)
    ∷ (vc_escape, 0x11)
    ∷ (vc_1, 0x12)
    ∷ (vc_2, 0x13)
    ∷ (vc_3, 0x14)
    ∷ (vc_4, 0x15)
    ∷ (vc_5, 0x16)
    ∷ (vc_6, 0x17)
    ∷ (vc_7, 0x18)
    ∷ (vc_8, 0x19)
    ∷ (vc_9, 0x1A)
    ∷ (vc_0, 0x1B)
    ∷ (vc_minus, 0x1C)
    ∷ (vc_equals, 0x1D)
    ∷ (vc_backspace, 0x1E)
    ∷ (vc_tab, 0x1F)
    ∷ (vc_q, 0x20)
    ∷ (vc_w, 0x21)
    ∷ (vc_e, 0x22)
    ∷ (vc_r, 0x23)
    ∷ (vc_t, 0x24)
    ∷ (vc_y, 0x25)
    ∷ (vc_u, 0x26)
    ∷ (vc_i, 0x27)
    ∷ (vc_o, 0x28)
    ∷ (vc_p, 0x29)
    ∷ (vc_open_bracket, 0x2A)
    ∷ (vc_close_bracket, 0x2B)
    ∷ (vc_enter, 0x2C)
    ∷ (vc_control_l, 0x2D)
    ∷ (vc_a, 0x2E)
    ∷ (vc_s, 0x2F)
    ∷ (vc_d, 0x30)
    ∷ (vc_f, 0x31)
    ∷ (vc_g, 0x32)
    ∷ (vc_h, 0x33)
    ∷ (vc_j, 0x34)
    ∷ (vc_k, 0x35)
    ∷ (vc_l, 0x36)
    ∷ (vc_semicolon, 0x37)
    ∷ (vc_quote, 0x38)
    ∷ (vc_backquote, 0x39)
    ∷ (vc_shift_l, 0x3A)
    ∷ (vc_back_slash, 0x3B)
    ∷ (vc_z, 0x3C)
    ∷ (vc_x, 0x3D)
    ∷ (vc_c, 0x3E)
    ∷ (vc_v, 0x3F)
    ∷ (vc_b, 0x40)
    ∷ (vc_n, 0x41)
    ∷ (vc_m, 0x42)
    ∷ (vc_comma, 0x43)
    ∷ (vc_period, 0x44)
    ∷ (vc_slash, 0x45)
    ∷ (vc_shift_r, 0x46)
    ∷ (vc_kp_multiply, 0x47)
    ∷ (vc_alt_l, 0x48)
    ∷ (vc_space, 0x49)
    ∷ (vc_caps_lock, 0x4A)
    ∷ (vc_f1, 0x4B)
    ∷ (vc_f2, 0x4C)
    ∷ (vc_f3, 0x4D)
    ∷ (vc_f4, 0x4E)
    ∷ (vc_f5, 0x4F)
    ∷ (vc_f6, 0x50)
    ∷ (vc_f7, 0x51)
    ∷ (vc_f8, 0x52)
    ∷ (vc_f9, 0x53)
    ∷ (vc_f10, 0x54)
    ∷ (vc_num_lock, 0x55)
    ∷ (vc_scroll_lock, 0x56)
    ∷ (vc_kp_7, 0x57)
    ∷ (vc_kp_8, 0x58)
    ∷ (vc_kp_9, 0x59)
    ∷ (vc_kp_subtract, 0x5A)
    ∷ (vc_kp_4, 0x5B)
    ∷ (vc_kp_5, 0x00)
    ∷ (vc_kp_6, 0x00)
    ∷ (vc_kp_add, 0x00)
    ∷ (vc_kp_1, 0x5F)
    ∷ (vc_kp_2, 0x60)
    ∷ (vc_kp_3, 0x00)
    ∷ (vc_kp_0, 0x00)
    ∷ (vc_kp_separator, 0xBF)
    ∷ (vc_undefined, 0xC0)
    ∷ (vc_undefined, 0xC1)
    ∷ (vc_undefined, 0x00)
    ∷ (vc_f11, 0x00)
    ∷ (vc_f12, 0x00)
    ∷ (vc_undefined, 0x00)
    ∷ (vc_katakana, 0x00)
    ∷ (vc_hiragana, 0xC2)
    ∷ (vc_kanji, 0xC3)
    ∷ (vc_undefined, 0xC4)
    ∷ (vc_undefined, 0xC5)
    ∷ (vc_kp_comma, 0xC6)
    ∷ (vc_kp_enter, 0xC7)
    ∷ (vc_control_r, 0xC8)
    ∷ (vc_kp_divide, 0xC9)
    ∷ (vc_printscreen, 0xCA)
    ∷ (vc_alt_r, 0x00)
    ∷ (vc_undefined, 0x00)
    ∷ (vc_home, 0x00)
    ∷ (vc_up, 0x00)
    ∷ (vc_page_up, 0x62)
    ∷ (vc_left, 0x00)
    ∷ (vc_right, 0x00)
    ∷ (vc_end, 0x00)
    ∷ (vc_down, 0x00)
    ∷ (vc_page_down, 0x00)
    ∷ (vc_insert, 0x00)
    ∷ (vc_delete, 0x00)
    ∷ (vc_undefined, 0x00)
    ∷ (vc_volume_mute, 0x64)
    ∷ (vc_volume_down, 0x00)
    ∷ (vc_volume_up, 0x63)
    ∷ (vc_power, 0x00)
    ∷ (vc_kp_equals, 0x84)
    ∷ (vc_undefined, 0x67)
    ∷ (vc_pause, 0x00)
    ∷ []

-- Rows 128 to 255.
abbrev evdev_high_rows : List (ℕ × ℕ)
evdev_high_rows =
    (vc_undefined, 0)
    ∷ (vc_undefined, 0)
    ∷ (vc_undefined, 0)
    ∷ (vc_undefined, 0)
    ∷ (vc_yen, 0)
    ∷ (vc_meta_l, 0)
    ∷ (vc_meta_r, 0)
    ∷ (vc_context_menu, 0)
    ∷ (vc_sun_stop, 0)
    ∷ (vc_sun_again, 0)
    ∷ (vc_sun_props, 0)
    ∷ (vc_sun_undo, 0)
    ∷ (vc_sun_front, 0)
    ∷ (vc_sun_copy, 0x7D)
    ∷ (vc_sun_open, 0)
    ∷ (vc_sun_insert, 0)
    ∷ (vc_sun_find, 0)
    ∷ (vc_sun_cut, 0)
    ∷ (vc_sun_help, 0)
    ∷ (vc_undefined, 0)
    ∷ (vc_app_calculator, 0)
    ∷ (vc_undefined, 0)
    ∷ (vc_sleep, 0)
    ∷ (vc_undefined, 0)
    ∷ (vc_undefined, 0)
    ∷ (vc_undefined, 0)
    ∷ (vc_undefined, 0)
    ∷ (vc_undefined, 0)
    ∷ (vc_undefined, 0x68)
    ∷ (vc_undefined, 0x69)
    ∷ (vc_undefined, 0)
    ∷ (vc_undefined, 0)
    ∷ (vc_undefined, 0x79)
    ∷ (vc_undefined, 0x94)
    ∷ (vc_undefined, 0xA7)
    ∷ (vc_undefined, 0)
    ∷ (vc_undefined, 0)
    ∷ (vc_undefined, 0)
    ∷ (vc_app_mail, 0)
    ∷ (vc_media_play, 0)
    ∷ (vc_undefined, 0)
    ∷ (vc_undefined, 0)
    ∷ (vc_undefined, 0)
    ∷ (vc_undefined, 0)
    ∷ (vc_undefined, 0)
    ∷ (vc_undefined, 0)
    ∷ (vc_undefined, 0x7A)
    ∷ (vc_undefined, 0)
    ∷ (vc_undefined, 0x7B)
    ∷ (vc_undefined, 0x00)
    ∷ (vc_undefined, 0xBA)
    ∷ (vc_undefined, 0x00)
    ∷ (vc_undefined, 0x00)
    ∷ (vc_undefined, 0x6A)
    ∷ (vc_undefined, 0x00)
    ∷ (vc_undefined, 0x6B)
    ∷ (vc_undefined, 0x6C)
    ∷ (vc_undefined, 0x00)
    ∷ (vc_browser_home, 0x00)
    ∷ (vc_undefined, 0x00)
    ∷ (vc_undefined, 0x00)
    ∷ (vc_undefined, 0x00)
    ∷ (vc_undefined, 0x00)
    ∷ (vc_f13, 0x00)
    ∷ (vc_f14, 0x00)
    ∷ (vc_f15, 0x00)
    ∷ (vc_f16, 0x00)
    ∷ (vc_f17, 0x00)
    ∷ (vc_f18, 0x00)
    ∷ (vc_f19, 0x7F)
    ∷ (vc_f20, 0x00)
    ∷ (vc_f21, 0x6E)
    ∷ (vc_f22, 0x6F)
    ∷ (vc_f23, 0x70)
    ∷ (vc_f24, 0x00)
    ∷ (vc_undefined, 0x71)
    ∷ (vc_undefined, 0x00)
    ∷ (vc_undefined, 0x72)
    ∷ (vc_undefined, 0x00)
    ∷ (vc_undefined, 0x73)
    ∷ (vc_undefined, 0x74)
    ∷ (vc_undefined, 0x75)
    ∷ (vc_undefined, 0x76)
    ∷ (vc_undefined, 0x77)
    ∷ (vc_undefined, 0x00)
    ∷ (vc_undefined, 0x00)
    ∷ (vc_undefined, 0x00)
    ∷ (vc_undefined, 0x00)
    ∷ (vc_undefined, 0x00)
    ∷ (vc_undefined, 0x00)
    ∷ (vc_undefined, 0x00)
    ∷ (vc_undefined, 0x85)
    ∷ (vc_undefined, 0x86)
    ∷ (vc_undefined, 0x87)
    ∷ (vc_undefined, 0x7C)
    ∷ (vc_undefined, 0x96)
    ∷ (vc_undefined, 0x00)
    ∷ (vc_browser_search, 0x00)
    ∷ (vc_lesser_greater, 0x00)
    ∷ (vc_undefined, 0x00)
    ∷ (vc_undefined, 0x00)
    ∷ (vc_undefined, 0xE1)
    ∷ (vc_undefined, 0x00)
    ∷ (vc_undefined, 0x00)
    ∷ (vc_undefined, 0x00)
    ∷ (vc_undefined, 0x00)
    ∷ (vc_undefined, 0x00)
    ∷ (vc_undefined, 0x00)
    ∷ (vc_undefined, 0xA6)
    ∷ (vc_undefined, 0x00)
    ∷ (vc_undefined, 0x00)
    ∷ (vc_undefined, 0x00)
    ∷ (vc_undefined, 0x00)
    ∷ (vc_undefined, 0x00)
    ∷ (vc_undefined, 0x00)
    ∷ (vc_undefined, 0x00)
    ∷ (vc_undefined, 0x8E)
    ∷ (vc_undefined, 0x92)
    ∷ (vc_undefined, 0x8A)
    ∷ (vc_undefined, 0x8C)
    ∷ (vc_undefined, 0x88)
    ∷ (vc_undefined, 0x89)
    ∷ (vc_undefined, 0x8B)
    ∷ (vc_undefined, 0x91)
    ∷ (vc_undefined, 0x8D)
    ∷ (vc_undefined, 0x8F)
    ∷ (vc_undefined, 0x90)
    ∷ (vc_undefined, 0x00)
    ∷ []

unfoldable pub evdev_scancode_table : List (ℕ × ℕ)
evdev_scancode_table = evdev_low_rows ++ evdev_high_rows
