-- ===== src/Windows/Keymap/Table.antt =====
-- `keycode_scancode_table` of src/windows/input_helper.c: for each index the virtual code and the
-- native code.
use libuiohook.Prelude.{ℕ, List, [], ◌∷◌, ◌++◌}
use libuiohook.Event.KeyCodes.{
  vc_0, vc_1, vc_2, vc_3, vc_4, vc_5, vc_6, vc_7, vc_8, vc_9, vc_a, vc_alt_l, vc_alt_r,
  vc_app_calculator, vc_app_mail, vc_app_music, vc_app_pictures, vc_b, vc_back_slash, vc_backquote,
  vc_backspace, vc_browser_back, vc_browser_favorites, vc_browser_forward, vc_browser_home,
  vc_browser_refresh, vc_browser_search, vc_browser_stop, vc_c, vc_caps_lock, vc_clear,
  vc_close_bracket, vc_comma, vc_context_menu, vc_control_l, vc_control_r, vc_d, vc_delete, vc_down,
  vc_e, vc_end, vc_enter, vc_equals, vc_escape, vc_f, vc_f1, vc_f10, vc_f11, vc_f12, vc_f13, vc_f14,
  vc_f15, vc_f16, vc_f17, vc_f18, vc_f19, vc_f2, vc_f20, vc_f21, vc_f22, vc_f23, vc_f24, vc_f3,
  vc_f4, vc_f5, vc_f6, vc_f7, vc_f8, vc_f9, vc_g, vc_h, vc_home, vc_i, vc_insert, vc_j, vc_k,
  vc_kanji, vc_katakana, vc_kp_0, vc_kp_1, vc_kp_2, vc_kp_3, vc_kp_4, vc_kp_5, vc_kp_6, vc_kp_7,
  vc_kp_8, vc_kp_9, vc_kp_add, vc_kp_divide, vc_kp_multiply, vc_kp_separator, vc_kp_subtract, vc_l,
  vc_left, vc_lesser_greater, vc_m, vc_media_next, vc_media_play, vc_media_previous,
  vc_media_select, vc_media_stop, vc_meta_l, vc_meta_r, vc_minus, vc_n, vc_num_lock, vc_o,
  vc_open_bracket, vc_p, vc_page_down, vc_page_up, vc_pause, vc_period, vc_printscreen, vc_q,
  vc_quote, vc_r, vc_right, vc_s, vc_scroll_lock, vc_semicolon, vc_shift_l, vc_shift_r, vc_slash,
  vc_sleep, vc_space, vc_t, vc_tab, vc_u, vc_undefined, vc_up, vc_v, vc_volume_down, vc_volume_mute,
  vc_volume_up, vc_w, vc_x, vc_y, vc_yen, vc_z,
}
use libuiohook.Event.Masks.{
  mouse_button1, mouse_button2, mouse_button3, mouse_button4, mouse_button5,
}
use libuiohook.Windows.VirtualKeys.{
  vk_add, vk_apps, vk_back, vk_browser_back, vk_browser_favorites, vk_browser_forward,
  vk_browser_home, vk_browser_refresh, vk_browser_search, vk_browser_stop, vk_capital, vk_clear,
  vk_decimal, vk_delete, vk_divide, vk_down, vk_end, vk_escape, vk_f1, vk_f10, vk_f11, vk_f12,
  vk_f13, vk_f14, vk_f15, vk_f16, vk_f17, vk_f18, vk_f19, vk_f2, vk_f20, vk_f21, vk_f22, vk_f23,
  vk_f24, vk_f3, vk_f4, vk_f5, vk_f6, vk_f7, vk_f8, vk_f9, vk_home, vk_insert, vk_kana, vk_kanji,
  vk_launch_app1, vk_launch_app2, vk_launch_media_select, vk_lcontrol, vk_left, vk_lmenu, vk_lshift,
  vk_lwin, vk_media_next_track, vk_media_play_pause, vk_media_prev_track, vk_media_stop,
  vk_multiply, vk_next, vk_numlock, vk_numpad0, vk_numpad1, vk_numpad2, vk_numpad3, vk_numpad4,
  vk_numpad5, vk_numpad6, vk_numpad7, vk_numpad8, vk_numpad9, vk_oem_1, vk_oem_102, vk_oem_2,
  vk_oem_3, vk_oem_5, vk_oem_7, vk_oem_8, vk_oem_comma, vk_oem_minus, vk_oem_period, vk_oem_plus,
  vk_pause, vk_prior, vk_rcontrol, vk_return, vk_right, vk_rmenu, vk_rshift, vk_rwin, vk_scroll,
  vk_sleep, vk_snapshot, vk_space, vk_subtract, vk_tab, vk_up, vk_volume_down, vk_volume_mute,
  vk_volume_up,
}

-- Rows 0 to 127.
abbrev keycode_low_rows : List (ℕ × ℕ)
keycode_low_rows =
    (vc_undefined, 0x0000)
    ∷ (mouse_button1, vk_escape)
    ∷ (mouse_button2, 0x0031)
    ∷ (vc_undefined, 0x0032)
    ∷ (mouse_button3, 0x0033)
    ∷ (mouse_button4, 0x0034)
    ∷ (mouse_button5, 0x0035)
    ∷ (vc_undefined, 0x0036)
    ∷ (vc_backspace, 0x0037)
    ∷ (vc_tab, 0x0038)
    ∷ (vc_undefined, 0x0039)
    ∷ (vc_undefined, 0x0030)
    ∷ (vc_clear, vk_oem_minus)
    ∷ (vc_enter, vk_oem_plus)
    ∷ (vc_undefined, vk_back)
    ∷ (vc_undefined, vk_tab)
    ∷ (vc_shift_l, 0x0051)
    ∷ (vc_control_l, 0x0057)
    ∷ (vc_alt_l, 0x0045)
    ∷ (vc_pause, 0x0052)
    ∷ (vc_caps_lock, 0x0054)
    ∷ (vc_katakana, 0x0059)
    ∷ (vc_undefined, 0x0055)
    ∷ (vc_undefined, 0x0049)
    ∷ (vc_undefined, 0x004F)
    ∷ (vc_kanji, 0x0050)
    ∷ (vc_undefined, 0x00DB)
    ∷ (vc_escape, 0x00DD)
    ∷ (vc_undefined, vk_return)
    ∷ (vc_undefined, vk_lcontrol)
    ∷ (vc_undefined, 0x0041)
    ∷ (vc_undefined, 0x0053)
    ∷ (vc_space, 0x0044)
    ∷ (vc_page_up, 0x0046)
    ∷ (vc_page_down, 0x0047)
    ∷ (vc_end, 0x0048)
    ∷ (vc_home, 0x004A)
    ∷ (vc_left, 0x004B)
    ∷ (vc_up, 0x004C)
    ∷ (vc_right, vk_oem_1)
    ∷ (vc_down, vk_oem_7)
    ∷ (vc_undefined, vk_oem_3)
    ∷ (vc_undefined, vk_lshift)
    ∷ (vc_undefined, vk_oem_5)
    ∷ (vc_printscreen, 0x005A)
    ∷ (vc_insert, 0x0058)
    ∷ (vc_delete, 0x0043)
    ∷ (vc_undefined, 0x0056)
    ∷ (vc_0, 0x0042)
    ∷ (vc_1, 0x004E)
    ∷ (vc_2, 0x004D)
    ∷ (vc_3, vk_oem_comma)
    ∷ (vc_4, vk_oem_period)
    ∷ (vc_5, vk_oem_2)
    ∷ (vc_6, vk_rshift)
    ∷ (vc_7, vk_multiply)
    ∷ (vc_8, vk_lmenu)
    ∷ (vc_9, vk_space)
    ∷ (vc_undefined, vk_capital)
    ∷ (vc_undefined, vk_f1)
    ∷ (vc_undefined, vk_f2)
    ∷ (vc_undefined, vk_f3)
    ∷ (vc_undefined, vk_f4)
    ∷ (vc_undefined, vk_f5)
    ∷ (vc_undefined, vk_f6)
    ∷ (vc_a, vk_f7)
    ∷ (vc_b, vk_f8)
    ∷ (vc_c, vk_f9)
    ∷ (vc_d, vk_f10)
    ∷ (vc_e, vk_numlock)
    ∷ (vc_f, vk_scroll)
    ∷ (vc_g, vk_numpad7)
    ∷ (vc_h, vk_numpad8)
    ∷ (vc_i, vk_numpad9)
    ∷ (vc_j, vk_subtract)
    ∷ (vc_k, vk_numpad4)
    ∷ (vc_l, vk_numpad5)
    ∷ (vc_m, vk_numpad6)
    ∷ (vc_n, vk_add)
    ∷ (vc_o, vk_numpad1)
    ∷ (vc_p, vk_numpad2)
    ∷ (vc_q, vk_numpad3)
    ∷ (vc_r, vk_numpad0)
    ∷ (vc_s, vk_decimal)
    ∷ (vc_t, 0x0000)
    ∷ (vc_u, 0x0000)
    ∷ (vc_v, 0x0000)
    ∷ (vc_w, vk_f11)
    ∷ (vc_x, vk_f12)
    ∷ (vc_y, 0x0000)
    ∷ (vc_z, 0x0000)
    ∷ (vc_meta_l, vk_f13)
    ∷ (vc_meta_r, vk_f14)
    ∷ (vc_context_menu, vk_f15)
    ∷ (vc_undefined, 0x0000)
    ∷ (vc_sleep, 0x0000)
    ∷ (vc_kp_0, 0x0000)
    ∷ (vc_kp_1, 0x0000)
    ∷ (vc_kp_2, 0x0000)
    ∷ (vc_kp_3, vk_f16)
    ∷ (vc_kp_4, vk_f17)
    ∷ (vc_kp_5, vk_f18)
    ∷ (vc_kp_6, vk_f19)
    ∷ (vc_kp_7, vk_f20)
    ∷ (vc_kp_8, vk_f21)
    ∷ (vc_kp_9, vk_f22)
    ∷ (vc_kp_multiply, vk_f23)
    ∷ (vc_kp_add, vk_f24)
    ∷ (vc_undefined, 0x0000)
    ∷ (vc_kp_subtract, 0x0000)
    ∷ (vc_kp_separator, 0x0000)
    ∷ (vc_kp_divide, 0x0000)
    ∷ (vc_f1, vk_kana)
    ∷ (vc_f2, 0x0000)
    ∷ (vc_f3, 0x0000)
    ∷ (vc_f4, 0x0000)
    ∷ (vc_f5, 0x0000)
    ∷ (vc_f6, 0x0000)
    ∷ (vc_f7, 0x0000)
    ∷ (vc_f8, 0x0000)
    ∷ (vc_f9, 0x0000)
    ∷ (vc_f10, vk_kanji)
    ∷ (vc_f11, 0x0000)
    ∷ (vc_f12, 0x0000)
    ∷ (vc_f13, 0x0000)
    ∷ (vc_f14, vk_oem_8)
    ∷ (vc_f15, 0x0000)
    ∷ (vc_f16, 0x0000)
    ∷ []

-- Rows 128 to 255.
abbrev keycode_high_rows : List (ℕ × ℕ)
keycode_high_rows =
    (vc_f17, 0x0000)
    ∷ (vc_f18, 0x0000)
    ∷ (vc_f19, 0x0000)
    ∷ (vc_f20, 0x0000)
    ∷ (vc_f21, 0x0000)
    ∷ (vc_f22, 0x0000)
    ∷ (vc_f23, 0x0000)
    ∷ (vc_f24, 0x0000)
    ∷ (vc_undefined, 0x0000)
    ∷ (vc_undefined, 0x0000)
    ∷ (vc_undefined, 0x0000)
    ∷ (vc_undefined, 0x0000)
    ∷ (vc_undefined, 0x0000)
    ∷ (vc_undefined, 0x0000)
    ∷ (vc_undefined, 0x0000)
    ∷ (vc_undefined, 0x0000)
    ∷ (vc_num_lock, vk_media_prev_track)
    ∷ (vc_scroll_lock, 0x0000)
    ∷ (vc_undefined, 0x0000)
    ∷ (vc_undefined, 0x0000)
    ∷ (vc_undefined, 0x0000)
    ∷ (vc_undefined, 0x0000)
    ∷ (vc_undefined, 0x0000)
    ∷ (vc_undefined, 0x0000)
    ∷ (vc_undefined, 0x0000)
    ∷ (vc_undefined, vk_media_next_track)
    ∷ (vc_undefined, 0x0000)
    ∷ (vc_undefined, 0x0000)
    ∷ (vc_undefined, 0x0000)
    ∷ (vc_undefined, vk_rcontrol)
    ∷ (vc_undefined, 0x0000)
    ∷ (vc_undefined, 0x0000)
    ∷ (vc_shift_l, vk_volume_mute)
    ∷ (vc_shift_r, vk_launch_app2)
    ∷ (vc_control_l, vk_media_play_pause)
    ∷ (vc_control_r, 0x0000)
    ∷ (vc_alt_l, vk_media_stop)
    ∷ (vc_alt_r, 0x0000)
    ∷ (vc_browser_back, 0x0000)
    ∷ (vc_browser_forward, 0x0000)
    ∷ (vc_browser_refresh, 0x0000)
    ∷ (vc_browser_stop, 0x0000)
    ∷ (vc_browser_search, 0x0000)
    ∷ (vc_browser_favorites, 0x0000)
    ∷ (vc_browser_home, 0x0000)
    ∷ (vc_volume_mute, 0x0000)
    ∷ (vc_volume_down, vk_volume_down)
    ∷ (vc_volume_up, 0x0000)
    ∷ (vc_media_next, vk_volume_up)
    ∷ (vc_media_previous, 0x0000)
    ∷ (vc_media_stop, vk_browser_home)
    ∷ (vc_media_play, 0x0000)
    ∷ (vc_undefined, 0x0000)
    ∷ (vc_media_select, vk_divide)
    ∷ (vc_app_mail, 0x0000)
    ∷ (vc_app_calculator, vk_snapshot)
    ∷ (vc_undefined, vk_rmenu)
    ∷ (vc_undefined, 0x0000)
    ∷ (vc_semicolon, 0x0000)
    ∷ (vc_equals, 0x0000)
    ∷ (vc_comma, 0x00E6)
    ∷ (vc_minus, 0x0000)
    ∷ (vc_period, 0x0000)
    ∷ (vc_slash, 0x0000)
    ∷ (vc_backquote, 0x0000)
    ∷ (vc_undefined, 0x0000)
    ∷ (vc_undefined, 0x0000)
    ∷ (vc_undefined, 0x0000)
    ∷ (vc_undefined, 0x0000)
    ∷ (vc_undefined, vk_pause)
    ∷ (vc_undefined, 0x0000)
    ∷ (vc_undefined, vk_home)
    ∷ (vc_undefined, vk_up)
    ∷ (vc_undefined, vk_prior)
    ∷ (vc_undefined, 0x0000)
    ∷ (vc_undefined, vk_left)
    ∷ (vc_undefined, vk_clear)
    ∷ (vc_undefined, vk_right)
    ∷ (vc_undefined, 0x0000)
    ∷ (vc_undefined, vk_end)
    ∷ (vc_undefined, vk_down)
    ∷ (vc_undefined, vk_next)
    ∷ (vc_undefined, vk_insert)
    ∷ (vc_undefined, vk_delete)
    ∷ (vc_undefined, 0x0000)
    ∷ (vc_undefined, 0x0000)
    ∷ (vc_undefined, 0x0000)
    ∷ (vc_undefined, 0x0000)
    ∷ (vc_undefined, 0x0000)
    ∷ (vc_undefined, 0x0000)
    ∷ (vc_undefined, 0x0000)
    ∷ (vc_open_bracket, vk_lwin)
    ∷ (vc_back_slash, vk_rwin)
    ∷ (vc_close_bracket, vk_apps)
    ∷ (vc_quote, 0x0000)
    ∷ (vc_yen, vk_sleep)
    ∷ (vc_undefined, 0x0000)
    ∷ (vc_undefined, 0x0000)
    ∷ (vc_lesser_greater, vk_oem_102)
    ∷ (vc_undefined, 0x0000)
    ∷ (vc_undefined, 0x00E5)
    ∷ (vc_app_pictures, vk_browser_search)
    ∷ (vc_app_music, vk_browser_favorites)
    ∷ (vc_undefined, vk_browser_refresh)
    ∷ (vc_undefined, vk_browser_stop)
    ∷ (vc_undefined, vk_browser_forward)
    ∷ (vc_undefined, vk_browser_back)
    ∷ (vc_undefined, 0x0000)
    ∷ (vc_undefined, vk_launch_app1)
    ∷ (vc_undefined, vk_launch_media_select)
    ∷ (vc_undefined, 0x0000)
    ∷ (vc_undefined, 0x0000)
    ∷ (vc_undefined, 0x0000)
    ∷ (vc_undefined, 0x0000)
    ∷ (vc_undefined, 0x0000)
    ∷ (vc_undefined, 0x0000)
    ∷ (vc_undefined, 0x0000)
    ∷ (vc_undefined, 0x0000)
    ∷ (vc_undefined, 0x0000)
    ∷ (vc_undefined, 0x0000)
    ∷ (vc_undefined, 0x0000)
    ∷ (vc_undefined, 0x0000)
    ∷ (vc_undefined, 0x0000)
    ∷ (vc_undefined, 0x0000)
    ∷ (vc_undefined, 0x0000)
    ∷ (vc_undefined, 0x0000)
    ∷ (vc_clear, 0x0000)
    ∷ (vc_undefined, 0x0000)
    ∷ []

unfoldable pub keycode_scancode_table : List (ℕ × ℕ)
keycode_scancode_table = keycode_low_rows ++ keycode_high_rows
