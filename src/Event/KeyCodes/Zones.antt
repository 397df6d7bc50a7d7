-- ===== src/Event/KeyCodes/Zones.antt =====
-- Virtual key codes of include/uiohook.h: the edit, cursor and numeric zones and the modifier keys.
use libuiohook.Prelude.{ℕ, bit_or}

abbrev pub vc_back_slash : ℕ
vc_back_slash = 0x002B

abbrev pub vc_semicolon : ℕ
vc_semicolon = 0x0027

abbrev pub vc_quote : ℕ
vc_quote = 0x0028

abbrev pub vc_enter : ℕ
vc_enter = 0x001C

abbrev pub vc_comma : ℕ
vc_comma = 0x0033

abbrev pub vc_period : ℕ
vc_period = 0x0034

abbrev pub vc_slash : ℕ
vc_slash = 0x0035

abbrev pub vc_space : ℕ
vc_space = 0x0039

abbrev pub vc_printscreen : ℕ
vc_printscreen = 0x0E37

abbrev pub vc_scroll_lock : ℕ
vc_scroll_lock = 0x0046

abbrev pub vc_pause : ℕ
vc_pause = 0x0E45

abbrev pub vc_lesser_greater : ℕ
vc_lesser_greater = 0x0E46

abbrev pub vc_insert : ℕ
vc_insert = 0x0E52

abbrev pub vc_delete : ℕ
vc_delete = 0x0E53

abbrev pub vc_home : ℕ
vc_home = 0x0E47

abbrev pub vc_end : ℕ
vc_end = 0x0E4F

abbrev pub vc_page_up : ℕ
vc_page_up = 0x0E49

abbrev pub vc_page_down : ℕ
vc_page_down = 0x0E51

abbrev pub vc_up : ℕ
vc_up = 0xE048

abbrev pub vc_left : ℕ
vc_left = 0xE04B

abbrev pub vc_clear : ℕ
vc_clear = 0xE04C

abbrev pub vc_right : ℕ
vc_right = 0xE04D

abbrev pub vc_down : ℕ
vc_down = 0xE050

abbrev pub vc_num_lock : ℕ
vc_num_lock = 0x0045

abbrev pub vc_kp_divide : ℕ
vc_kp_divide = 0x0E35

abbrev pub vc_kp_multiply : ℕ
vc_kp_multiply = 0x0037

abbrev pub vc_kp_subtract : ℕ
vc_kp_subtract = 0x004A

abbrev pub vc_kp_equals : ℕ
vc_kp_equals = 0x0E0D

abbrev pub vc_kp_add : ℕ
vc_kp_add = 0x004E

abbrev pub vc_kp_enter : ℕ
vc_kp_enter = 0x0E1C

abbrev pub vc_kp_separator : ℕ
vc_kp_separator = 0x0053

abbrev pub vc_kp_1 : ℕ
vc_kp_1 = 0x004F

abbrev pub vc_kp_2 : ℕ
vc_kp_2 = 0x0050

abbrev pub vc_kp_3 : ℕ
vc_kp_3 = 0x0051

abbrev pub vc_kp_4 : ℕ
vc_kp_4 = 0x004B

abbrev pub vc_kp_5 : ℕ
vc_kp_5 = 0x004C

abbrev pub vc_kp_6 : ℕ
vc_kp_6 = 0x004D

abbrev pub vc_kp_7 : ℕ
vc_kp_7 = 0x0047

abbrev pub vc_kp_8 : ℕ
vc_kp_8 = 0x0048

abbrev pub vc_kp_9 : ℕ
vc_kp_9 = 0x0049

abbrev pub vc_kp_0 : ℕ
vc_kp_0 = 0x0052

abbrev pub vc_kp_end : ℕ
vc_kp_end = bit_or 0xEE00 vc_kp_1

abbrev pub vc_kp_down : ℕ
vc_kp_down = bit_or 0xEE00 vc_kp_2

abbrev pub vc_kp_page_down : ℕ
vc_kp_page_down = bit_or 0xEE00 vc_kp_3

abbrev pub vc_kp_left : ℕ
vc_kp_left = bit_or 0xEE00 vc_kp_4

abbrev pub vc_kp_clear : ℕ
vc_kp_clear = bit_or 0xEE00 vc_kp_5

abbrev pub vc_kp_right : ℕ
vc_kp_right = bit_or 0xEE00 vc_kp_6

abbrev pub vc_kp_home : ℕ
vc_kp_home = bit_or 0xEE00 vc_kp_7

abbrev pub vc_kp_up : ℕ
vc_kp_up = bit_or 0xEE00 vc_kp_8

abbrev pub vc_kp_page_up : ℕ
vc_kp_page_up = bit_or 0xEE00 vc_kp_9

abbrev pub vc_kp_insert : ℕ
vc_kp_insert = bit_or 0xEE00 vc_kp_0

abbrev pub vc_kp_delete : ℕ
vc_kp_delete = bit_or 0xEE00 vc_kp_separator
