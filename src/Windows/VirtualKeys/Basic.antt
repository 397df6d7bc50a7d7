-- ===== src/Windows/VirtualKeys/Basic.antt =====
-- The virtual-key codes of the Windows headers below 0x60.
use libuiohook.Prelude.{ℕ}

abbrev pub vk_back : ℕ
vk_back = 0x08

abbrev pub vk_tab : ℕ
vk_tab = 0x09

abbrev pub vk_clear : ℕ
vk_clear = 0x0C

abbrev pub vk_return : ℕ
vk_return = 0x0D

abbrev pub vk_pause : ℕ
vk_pause = 0x13

abbrev pub vk_capital : ℕ
vk_capital = 0x14

abbrev pub vk_kana : ℕ
vk_kana = 0x15

abbrev pub vk_kanji : ℕ
vk_kanji = 0x19

abbrev pub vk_escape : ℕ
vk_escape = 0x1B

abbrev pub vk_space : ℕ
vk_space = 0x20

abbrev pub vk_prior : ℕ
vk_prior = 0x21

abbrev pub vk_next : ℕ
vk_next = 0x22

abbrev pub vk_end : ℕ
vk_end = 0x23

abbrev pub vk_home : ℕ
vk_home = 0x24

abbrev pub vk_left : ℕ
vk_left = 0x25

abbrev pub vk_up : ℕ
vk_up = 0x26

abbrev pub vk_right : ℕ
vk_right = 0x27

abbrev pub vk_down : ℕ
vk_down = 0x28

abbrev pub vk_snapshot : ℕ
vk_snapshot = 0x2C

abbrev pub vk_insert : ℕ
vk_insert = 0x2D

abbrev pub vk_delete : ℕ
vk_delete = 0x2E

abbrev pub vk_lwin : ℕ
vk_lwin = 0x5B

abbrev pub vk_rwin : ℕ
vk_rwin = 0x5C

abbrev pub vk_apps : ℕ
vk_apps = 0x5D

abbrev pub vk_sleep : ℕ
vk_sleep = 0x5F
