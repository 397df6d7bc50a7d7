-- ===== src/Event/KeyCodes/Media.antt =====
-- Virtual key codes of include/uiohook.h: the media, Japanese and Sun keys, and the undefined codes.
use libuiohook.Prelude.{ℕ}

abbrev pub vc_shift_l : ℕ
vc_shift_l = 0x002A

abbrev pub vc_shift_r : ℕ
vc_shift_r = 0x0036

abbrev pub vc_control_l : ℕ
vc_control_l = 0x001D

abbrev pub vc_control_r : ℕ
vc_control_r = 0x0E1D

abbrev pub vc_alt_l : ℕ
vc_alt_l = 0x0038

abbrev pub vc_alt_r : ℕ
vc_alt_r = 0x0E38

abbrev pub vc_meta_l : ℕ
vc_meta_l = 0x0E5B

abbrev pub vc_meta_r : ℕ
vc_meta_r = 0x0E5C

abbrev pub vc_context_menu : ℕ
vc_context_menu = 0x0E5D

abbrev pub vc_power : ℕ
vc_power = 0xE05E

abbrev pub vc_sleep : ℕ
vc_sleep = 0xE05F

abbrev pub vc_wake : ℕ
vc_wake = 0xE063

abbrev pub vc_media_play : ℕ
vc_media_play = 0xE022

abbrev pub vc_media_stop : ℕ
vc_media_stop = 0xE024

abbrev pub vc_media_previous : ℕ
vc_media_previous = 0xE010

abbrev pub vc_media_next : ℕ
vc_media_next = 0xE019

abbrev pub vc_media_select : ℕ
vc_media_select = 0xE06D

abbrev pub vc_media_eject : ℕ
vc_media_eject = 0xE02C

abbrev pub vc_volume_mute : ℕ
vc_volume_mute = 0xE020

abbrev pub vc_volume_up : ℕ
vc_volume_up = 0xE030

abbrev pub vc_volume_down : ℕ
vc_volume_down = 0xE02E

abbrev pub vc_app_mail : ℕ
vc_app_mail = 0xE06C

abbrev pub vc_app_calculator : ℕ
vc_app_calculator = 0xE021

abbrev pub vc_app_music : ℕ
vc_app_music = 0xE03C

abbrev pub vc_app_pictures : ℕ
vc_app_pictures = 0xE064

abbrev pub vc_browser_search : ℕ
vc_browser_search = 0xE065

abbrev pub vc_browser_home : ℕ
vc_browser_home = 0xE032

abbrev pub vc_browser_back : ℕ
vc_browser_back = 0xE06A

abbrev pub vc_browser_forward : ℕ
vc_browser_forward = 0xE069

abbrev pub vc_browser_stop : ℕ
vc_browser_stop = 0xE068

abbrev pub vc_browser_refresh : ℕ
vc_browser_refresh = 0xE067

abbrev pub vc_browser_favorites : ℕ
vc_browser_favorites = 0xE066

abbrev pub vc_katakana : ℕ
vc_katakana = 0x0070

abbrev pub vc_underscore : ℕ
vc_underscore = 0x0073

abbrev pub vc_furigana : ℕ
vc_furigana = 0x0077

abbrev pub vc_kanji : ℕ
vc_kanji = 0x0079

abbrev pub vc_hiragana : ℕ
vc_hiragana = 0x007B

abbrev pub vc_yen : ℕ
vc_yen = 0x007D

abbrev pub vc_kp_comma : ℕ
vc_kp_comma = 0x007E

abbrev pub vc_sun_help : ℕ
vc_sun_help = 0xFF75

abbrev pub vc_sun_stop : ℕ
vc_sun_stop = 0xFF78

abbrev pub vc_sun_props : ℕ
vc_sun_props = 0xFF76

abbrev pub vc_sun_front : ℕ
vc_sun_front = 0xFF77

abbrev pub vc_sun_open : ℕ
vc_sun_open = 0xFF74

abbrev pub vc_sun_find : ℕ
vc_sun_find = 0xFF7E

abbrev pub vc_sun_again : ℕ
vc_sun_again = 0xFF79

abbrev pub vc_sun_undo : ℕ
vc_sun_undo = 0xFF7A

abbrev pub vc_sun_copy : ℕ
vc_sun_copy = 0xFF7C

abbrev pub vc_sun_insert : ℕ
vc_sun_insert = 0xFF7D

abbrev pub vc_sun_cut : ℕ
vc_sun_cut = 0xFF7B

abbrev pub vc_undefined : ℕ
vc_undefined = 0x0000

abbrev pub char_undefined : ℕ
char_undefined = 0xFFFF
