-- ===== src/X11/Keymap/XFree86.antt =====
-- `xfree86_scancode_table` of src/x11/input_helper.c: for each index the virtual code and the native code.
use libuiohook.Prelude.{ℕ, List, [], ◌∷◌, ◌++◌}
use libuiohook.Event.KeyCodes.{
  vc_0, vc_1, vc_2, vc_3, vc_4, vc_5, vc_6, vc_7, vc_8, vc_9, vc_a, vc_alt_l, vc_alt_r, vc_b,
  vc_back_slash, vc_backquote, vc_backspace, vc_c, vc_caps_lock, vc_close_bracket, vc_comma,
  vc_context_menu, vc_control_l, vc_control_r, vc_d, vc_delete, vc_down, vc_e, vc_end, vc_enter,
  vc_equals, vc_escape, vc_f, vc_f1, vc_f10, vc_f11, vc_f12, vc_f13, vc_f14, vc_f15, vc_f16, vc_f17,
  vc_f2, vc_f3, vc_f4, vc_f5, vc_f6, vc_f7, vc_f8, vc_f9, vc_g, vc_h, vc_home, vc_i, vc_insert,
  vc_j, vc_k, vc_kp_0, vc_kp_1, vc_kp_2, vc_kp_3, vc_kp_4, vc_kp_5, vc_kp_6, vc_kp_7, vc_kp_8,
  vc_kp_9, vc_kp_add, vc_kp_divide, vc_kp_enter, vc_kp_equals, vc_kp_multiply, vc_kp_separator,
  vc_kp_subtract, vc_l, vc_left, vc_m, vc_meta_l, vc_meta_r, vc_minus, vc_n, vc_num_lock, vc_o,
  vc_open_bracket, vc_p, vc_page_down, vc_page_up, vc_pause, vc_period, vc_printscreen, vc_q,
  vc_quote, vc_r, vc_right, vc_s, vc_scroll_lock, vc_semicolon, vc_shift_l, vc_shift_r, vc_slash,
  vc_space, vc_t, vc_tab, vc_u, vc_undefined, vc_up, vc_v, vc_w, vc_x, vc_y, vc_yen, vc_z,
}

-- Rows 0 to 127.
abbrev xfree86_low_rows : List (ℕ × ℕ)
xfree86_low_rows =
    (vc_undefined, 0)
    ∷ (vc_undefined, 9)
    ∷ (vc_undefined, 10)
    ∷ (vc_undefined, 11)
    ∷ (vc_undefined, 12)
    ∷ (vc_undefined, 13)
    ∷ (vc_undefined, 14)
    ∷ (vc_undefined, 15)
    ∷ (vc_undefined, 16)
    ∷ (vc_escape, 17)
    ∷ (vc_1, 18)
    ∷ (vc_2, 19)
    ∷ (vc_3, 20)
    ∷ (vc_4, 21)
    ∷ (vc_5, 22)
    ∷ (vc_6, 23)
    ∷ (vc_7, 24)
    ∷ (vc_8, 25)
    ∷ (vc_9, 26)
    ∷ (vc_0, 27)
    ∷ (vc_minus, 28)
    ∷ (vc_equals, 29)
    ∷ (vc_backspace, 30)
    ∷ (vc_tab, 31)
    ∷ (vc_q, 32)
    ∷ (vc_w, 33)
    ∷ (vc_e, 34)
    ∷ (vc_r, 35)
    ∷ (vc_t, 36)
    ∷ (vc_y, 37)
    ∷ (vc_u, 38)
    ∷ (vc_i, 39)
    ∷ (vc_o, 40)
    ∷ (vc_p, 41)
    ∷ (vc_open_bracket, 42)
    ∷ (vc_close_bracket, 43)
    ∷ (vc_enter, 44)
    ∷ (vc_control_l, 45)
    ∷ (vc_a, 46)
    ∷ (vc_s, 47)
    ∷ (vc_d, 48)
    ∷ (vc_f, 49)
    ∷ (vc_g, 50)
    ∷ (vc_h, 51)
    ∷ (vc_j, 52)
    ∷ (vc_k, 53)
    ∷ (vc_l, 54)
    ∷ (vc_semicolon, 55)
    ∷ (vc_quote, 56)
    ∷ (vc_backquote, 57)
    ∷ (vc_shift_l, 58)
    ∷ (vc_back_slash, 59)
    ∷ (vc_z, 60)
    ∷ (vc_x, 61)
    ∷ (vc_c, 62)
    ∷ (vc_v, 63)
    ∷ (vc_b, 64)
    ∷ (vc_n, 65)
    ∷ (vc_m, 66)
    ∷ (vc_comma, 67)
    ∷ (vc_period, 68)
    ∷ (vc_slash, 69)
    ∷ (vc_shift_r, 70)
    ∷ (vc_kp_multiply, 71)
    ∷ (vc_alt_l, 72)
    ∷ (vc_space, 73)
    ∷ (vc_caps_lock, 74)
    ∷ (vc_f1, 75)
    ∷ (vc_f2, 76)
    ∷ (vc_f3, 77)
    ∷ (vc_f4, 78)
    ∷ (vc_f5, 79)
    ∷ (vc_f6, 80)
    ∷ (vc_f7, 81)
    ∷ (vc_f8, 82)
    ∷ (vc_f9, 83)
    ∷ (vc_f10, 84)
    ∷ (vc_num_lock, 85)
    ∷ (vc_scroll_lock, 86)
    ∷ (vc_kp_7, 87)
    ∷ (vc_kp_8, 88)
    ∷ (vc_kp_9, 89)
    ∷ (vc_kp_subtract, 90)
    ∷ (vc_kp_4, 91)
    ∷ (vc_kp_5, 0)
    ∷ (vc_kp_6, 0)
    ∷ (vc_kp_add, 0)
    ∷ (vc_kp_1, 95)
    ∷ (vc_kp_2, 96)
    ∷ (vc_kp_3, 0)
    ∷ (vc_kp_0, 0)
    ∷ (vc_kp_separator, 118)
    ∷ (vc_undefined, 119)
    ∷ (vc_undefined, 120)
    ∷ (vc_undefined, 0)
    ∷ (vc_f11, 0)
    ∷ (vc_f12, 0)
    ∷ (vc_home, 0)
    ∷ (vc_up, 0)
    ∷ (vc_page_up, 121)
    ∷ (vc_left, 122)
    ∷ (vc_undefined, 0)
    ∷ (vc_right, 0)
    ∷ (vc_end, 0)
    ∷ (vc_down, 0)
    ∷ (vc_page_down, 0)
    ∷ (vc_insert, 0)
    ∷ (vc_delete, 0)
    ∷ (vc_kp_enter, 0)
    ∷ (vc_control_r, 0)
    ∷ (vc_pause, 0)
    ∷ (vc_printscreen, 0)
    ∷ (vc_kp_divide, 0)
    ∷ (vc_alt_r, 0)
    ∷ (vc_undefined, 0)
    ∷ (vc_meta_l, 0)
    ∷ (vc_meta_r, 0)
    ∷ (vc_context_menu, 0)
    ∷ (vc_f13, 0)
    ∷ (vc_f14, 0)
    ∷ (vc_f15, 0)
    ∷ (vc_f16, 0)
    ∷ (vc_f17, 0)
    ∷ (vc_undefined, 0)
    ∷ (vc_undefined, 0)
    ∷ (vc_undefined, 133)
    ∷ (vc_kp_equals, 0)
    ∷ (vc_undefined, 0)
    ∷ []

-- Rows 128 to 255.
abbrev xfree86_high_rows : List (ℕ × ℕ)
xfree86_high_rows =
    (vc_undefined, 0)
    ∷ (vc_undefined, 0)
    ∷ (vc_undefined, 0)
    ∷ (vc_undefined, 0)
    ∷ (vc_undefined, 0)
    ∷ (vc_yen, 0)
    ∷ (vc_undefined, 0)
    ∷ (vc_undefined, 0)
    ∷ (vc_undefined, 0)
    ∷ (vc_undefined, 0)
    ∷ (vc_undefined, 0)
    ∷ (vc_undefined, 0)
    ∷ (vc_undefined, 0)
    ∷ (vc_undefined, 126)
    ∷ (vc_undefined, 0)
    ∷ (vc_undefined, 0)
    ∷ (vc_undefined, 0)
    ∷ (vc_undefined, 0)
    ∷ (vc_undefined, 0)
    ∷ (vc_undefined, 0)
    ∷ (vc_undefined, 0)
    ∷ (vc_undefined, 0)
    ∷ (vc_undefined, 0)
    ∷ (vc_undefined, 0)
    ∷ (vc_undefined, 0)
    ∷ (vc_undefined, 0)
    ∷ (vc_undefined, 0)
    ∷ (vc_undefined, 0)
    ∷ (vc_undefined, 108)
    ∷ (vc_undefined, 109)
    ∷ (vc_undefined, 0)
    ∷ (vc_undefined, 0)
    ∷ (vc_undefined, 0)
    ∷ (vc_undefined, 0)
    ∷ (vc_undefined, 0)
    ∷ (vc_undefined, 0)
    ∷ (vc_undefined, 0)
    ∷ (vc_undefined, 0)
    ∷ (vc_undefined, 0)
    ∷ (vc_undefined, 0)
    ∷ (vc_undefined, 0)
    ∷ (vc_undefined, 0)
    ∷ (vc_undefined, 0)
    ∷ (vc_undefined, 0)
    ∷ (vc_undefined, 0)
    ∷ (vc_undefined, 0)
    ∷ (vc_undefined, 0)
    ∷ (vc_undefined, 0)
    ∷ (vc_undefined, 0)
    ∷ (vc_undefined, 0)
    ∷ (vc_undefined, 0)
    ∷ (vc_undefined, 0)
    ∷ (vc_undefined, 0)
    ∷ (vc_undefined, 112)
    ∷ (vc_undefined, 0)
    ∷ (vc_undefined, 111)
    ∷ (vc_undefined, 113)
    ∷ (vc_undefined, 0)
    ∷ (vc_undefined, 0)
    ∷ (vc_undefined, 0)
    ∷ (vc_undefined, 0)
    ∷ (vc_undefined, 0)
    ∷ (vc_undefined, 0)
    ∷ (vc_undefined, 0)
    ∷ (vc_undefined, 0)
    ∷ (vc_undefined, 0)
    ∷ (vc_undefined, 0)
    ∷ (vc_undefined, 0)
    ∷ (vc_undefined, 0)
    ∷ (vc_undefined, 110)
    ∷ (vc_undefined, 0)
    ∷ (vc_undefined, 97)
    ∷ (vc_undefined, 98)
    ∷ (vc_undefined, 99)
    ∷ (vc_undefined, 0)
    ∷ (vc_undefined, 100)
    ∷ (vc_undefined, 0)
    ∷ (vc_undefined, 102)
    ∷ (vc_undefined, 0)
    ∷ (vc_undefined, 103)
    ∷ (vc_undefined, 104)
    ∷ (vc_undefined, 105)
    ∷ (vc_undefined, 106)
    ∷ (vc_undefined, 107)
    ∷ (vc_undefined, 0)
    ∷ (vc_undefined, 0)
    ∷ (vc_undefined, 0)
    ∷ (vc_undefined, 0)
    ∷ (vc_undefined, 0)
    ∷ (vc_undefined, 0)
    ∷ (vc_undefined, 0)
    ∷ (vc_undefined, 115)
    ∷ (vc_undefined, 116)
    ∷ (vc_undefined, 117)
    ∷ (vc_undefined, 0)
    ∷ (vc_undefined, 0)
    ∷ (vc_undefined, 0)
    ∷ (vc_undefined, 0)
    ∷ (vc_undefined, 0)
    ∷ (vc_undefined, 0)
    ∷ (vc_undefined, 0)
    ∷ (vc_undefined, 0)
    ∷ (vc_undefined, 0)
    ∷ (vc_undefined, 0)
    ∷ (vc_undefined, 0)
    ∷ (vc_undefined, 0)
    ∷ (vc_undefined, 0)
    ∷ (vc_undefined, 0)
    ∷ (vc_undefined, 0)
    ∷ (vc_undefined, 0)
    ∷ (vc_undefined, 0)
    ∷ (vc_undefined, 0)
    ∷ (vc_undefined, 0)
    ∷ (vc_undefined, 0)
    ∷ (vc_undefined, 0)
    ∷ (vc_undefined, 0)
    ∷ (vc_undefined, 0)
    ∷ (vc_undefined, 0)
    ∷ (vc_undefined, 0)
    ∷ (vc_undefined, 0)
    ∷ (vc_undefined, 0)
    ∷ (vc_undefined, 0)
    ∷ (vc_undefined, 0)
    ∷ (vc_undefined, 0)
    ∷ (vc_undefined, 0)
    ∷ (vc_undefined, 0)
    ∷ (vc_undefined, 0)
    ∷ (vc_undefined, 0)
    ∷ []

unfoldable pub xfree86_scancode_table : List (ℕ × ℕ)
xfree86_scancode_table = xfree86_low_rows ++ xfree86_high_rows
