-- ===== src/Windows/VirtualKeys/Extended.antt =====
-- The virtual-key codes of the Windows headers from 0x60 on.
use libuiohook.Prelude.{ℕ}

abbrev pub vk_numpad0 : ℕ
vk_numpad0 = 0x60

abbrev pub vk_numpad1 : ℕ
vk_numpad1 = 0x61

abbrev pub vk_numpad2 : ℕ
vk_numpad2 = 0x62

abbrev pub vk_numpad3 : ℕ
vk_numpad3 = 0x63

abbrev pub vk_numpad4 : ℕ
vk_numpad4 = 0x64

abbrev pub vk_numpad5 : ℕ
vk_numpad5 = 0x65

abbrev pub vk_numpad6 : ℕ
vk_numpad6 = 0x66

abbrev pub vk_numpad7 : ℕ
vk_numpad7 = 0x67

abbrev pub vk_numpad8 : ℕ
vk_numpad8 = 0x68

abbrev pub vk_numpad9 : ℕ
vk_numpad9 = 0x69

abbrev pub vk_multiply : ℕ
vk_multiply = 0x6A

abbrev pub vk_add : ℕ
vk_add = 0x6B

abbrev pub vk_subtract : ℕ
vk_subtract = 0x6D

abbrev pub vk_decimal : ℕ
vk_decimal = 0x6E

abbrev pub vk_divide : ℕ
vk_divide = 0x6F

abbrev pub vk_f1 : ℕ
vk_f1 = 0x70

abbrev pub vk_f2 : ℕ
vk_f2 = 0x71

abbrev pub vk_f3 : ℕ
vk_f3 = 0x72

abbrev pub vk_f4 : ℕ
vk_f4 = 0x73

abbrev pub vk_f5 : ℕ
vk_f5 = 0x74

abbrev pub vk_f6 : ℕ
vk_f6 = 0x75

abbrev pub vk_f7 : ℕ
vk_f7 = 0x76

abbrev pub vk_f8 : ℕ
vk_f8 = 0x77

abbrev pub vk_f9 : ℕ
vk_f9 = 0x78

abbrev pub vk_f10 : ℕ
vk_f10 = 0x79

abbrev pub vk_f11 : ℕ
vk_f11 = 0x7A

abbrev pub vk_f12 : ℕ
vk_f12 = 0x7B

abbrev pub vk_f13 : ℕ
vk_f13 = 0x7C

abbrev pub vk_f14 : ℕ
vk_f14 = 0x7D

abbrev pub vk_f15 : ℕ
vk_f15 = 0x7E

abbrev pub vk_f16 : ℕ
vk_f16 = 0x7F

abbrev pub vk_f17 : ℕ
vk_f17 = 0x80

abbrev pub vk_f18 : ℕ
vk_f18 = 0x81

abbrev pub vk_f19 : ℕ
vk_f19 = 0x82

abbrev pub vk_f20 : ℕ
vk_f20 = 0x83

abbrev pub vk_f21 : ℕ
vk_f21 = 0x84

abbrev pub vk_f22 : ℕ
vk_f22 = 0x85

abbrev pub vk_f23 : ℕ
vk_f23 = 0x86

abbrev pub vk_f24 : ℕ
vk_f24 = 0x87

abbrev pub vk_numlock : ℕ
vk_numlock = 0x90

abbrev pub vk_scroll : ℕ
vk_scroll = 0x91

abbrev pub vk_lshift : ℕ
vk_lshift = 0xA0

abbrev pub vk_rshift : ℕ
vk_rshift = 0xA1

abbrev pub vk_lcontrol : ℕ
vk_lcontrol = 0xA2

abbrev pub vk_rcontrol : ℕ
vk_rcontrol = 0xA3

abbrev pub vk_lmenu : ℕ
vk_lmenu = 0xA4

abbrev pub vk_rmenu : ℕ
vk_rmenu = 0xA5

abbrev pub vk_browser_back : ℕ
vk_browser_back = 0xA6

abbrev pub vk_browser_forward : ℕ
vk_browser_forward = 0xA7

abbrev pub vk_browser_refresh : ℕ
vk_browser_refresh = 0xA8

abbrev pub vk_browser_stop : ℕ
vk_browser_stop = 0xA9

abbrev pub vk_browser_search : ℕ
vk_browser_search = 0xAA

abbrev pub vk_browser_favorites : ℕ
vk_browser_favorites = 0xAB

abbrev pub vk_browser_home : ℕ
vk_browser_home = 0xAC

abbrev pub vk_volume_mute : ℕ
vk_volume_mute = 0xAD

abbrev pub vk_volume_down : ℕ
vk_volume_down = 0xAE

abbrev pub vk_volume_up : ℕ
vk_volume_up = 0xAF

abbrev pub vk_media_next_track : ℕ
vk_media_next_track = 0xB0

abbrev pub vk_media_prev_track : ℕ
vk_media_prev_track = 0xB1

abbrev pub vk_media_stop : ℕ
vk_media_stop = 0xB2

abbrev pub vk_media_play_pause : ℕ
vk_media_play_pause = 0xB3

abbrev pub vk_launch_media_select : ℕ
vk_launch_media_select = 0xB5

abbrev pub vk_launch_app1 : ℕ
vk_launch_app1 = 0xB6

abbrev pub vk_launch_app2 : ℕ
vk_launch_app2 = 0xB7

abbrev pub vk_oem_1 : ℕ
vk_oem_1 = 0xBA

abbrev pub vk_oem_plus : ℕ
vk_oem_plus = 0xBB

abbrev pub vk_oem_comma : ℕ
vk_oem_comma = 0xBC

abbrev pub vk_oem_minus : ℕ
vk_oem_minus = 0xBD

abbrev pub vk_oem_period : ℕ
vk_oem_period = 0xBE

abbrev pub vk_oem_2 : ℕ
vk_oem_2 = 0xBF

abbrev pub vk_oem_3 : ℕ
vk_oem_3 = 0xC0

abbrev pub vk_oem_5 : ℕ
vk_oem_5 = 0xDC

abbrev pub vk_oem_7 : ℕ
vk_oem_7 = 0xDE

abbrev pub vk_oem_8 : ℕ
vk_oem_8 = 0xDF

abbrev pub vk_oem_102 : ℕ
vk_oem_102 = 0xE2
