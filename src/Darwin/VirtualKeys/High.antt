-- ===== src/Darwin/VirtualKeys/High.antt =====
-- The virtual key codes of macOS, the second half by number.
use libuiohook.Prelude.{ℕ}

abbrev pub kvk_f17 : ℕ
kvk_f17 = 0x40

abbrev pub kvk_ansi_keypaddecimal : ℕ
kvk_ansi_keypaddecimal = 0x41

abbrev pub kvk_ansi_keypadmultiply : ℕ
kvk_ansi_keypadmultiply = 0x43

abbrev pub kvk_ansi_keypadplus : ℕ
kvk_ansi_keypadplus = 0x45

abbrev pub kvk_ansi_keypadclear : ℕ
kvk_ansi_keypadclear = 0x47

abbrev pub kvk_volumeup : ℕ
kvk_volumeup = 0x48

abbrev pub kvk_volumedown : ℕ
kvk_volumedown = 0x49

abbrev pub kvk_mute : ℕ
kvk_mute = 0x4A

abbrev pub kvk_ansi_keypaddivide : ℕ
kvk_ansi_keypaddivide = 0x4B

abbrev pub kvk_ansi_keypadenter : ℕ
kvk_ansi_keypadenter = 0x4C

abbrev pub kvk_ansi_keypadminus : ℕ
kvk_ansi_keypadminus = 0x4E

abbrev pub kvk_f18 : ℕ
kvk_f18 = 0x4F

abbrev pub kvk_f19 : ℕ
kvk_f19 = 0x50

abbrev pub kvk_ansi_keypadequals : ℕ
kvk_ansi_keypadequals = 0x51

abbrev pub kvk_ansi_keypad0 : ℕ
kvk_ansi_keypad0 = 0x52

abbrev pub kvk_ansi_keypad1 : ℕ
kvk_ansi_keypad1 = 0x53

abbrev pub kvk_ansi_keypad2 : ℕ
kvk_ansi_keypad2 = 0x54

abbrev pub kvk_ansi_keypad3 : ℕ
kvk_ansi_keypad3 = 0x55

abbrev pub kvk_ansi_keypad4 : ℕ
kvk_ansi_keypad4 = 0x56

abbrev pub kvk_ansi_keypad5 : ℕ
kvk_ansi_keypad5 = 0x57

abbrev pub kvk_ansi_keypad6 : ℕ
kvk_ansi_keypad6 = 0x58

abbrev pub kvk_ansi_keypad7 : ℕ
kvk_ansi_keypad7 = 0x59

abbrev pub kvk_f20 : ℕ
kvk_f20 = 0x5A

abbrev pub kvk_ansi_keypad8 : ℕ
kvk_ansi_keypad8 = 0x5B

abbrev pub kvk_ansi_keypad9 : ℕ
kvk_ansi_keypad9 = 0x5C

abbrev pub kvk_jis_yen : ℕ
kvk_jis_yen = 0x5D

abbrev pub kvk_jis_underscore : ℕ
kvk_jis_underscore = 0x5E

abbrev pub kvk_jis_keypadcomma : ℕ
kvk_jis_keypadcomma = 0x5F

abbrev pub kvk_f5 : ℕ
kvk_f5 = 0x60

abbrev pub kvk_f6 : ℕ
kvk_f6 = 0x61

abbrev pub kvk_f7 : ℕ
kvk_f7 = 0x62

abbrev pub kvk_f3 : ℕ
kvk_f3 = 0x63

abbrev pub kvk_f8 : ℕ
kvk_f8 = 0x64

abbrev pub kvk_f9 : ℕ
kvk_f9 = 0x65

abbrev pub kvk_f11 : ℕ
kvk_f11 = 0x67

abbrev pub kvk_jis_kana : ℕ
kvk_jis_kana = 0x68

abbrev pub kvk_f13 : ℕ
kvk_f13 = 0x69

abbrev pub kvk_f16 : ℕ
kvk_f16 = 0x6A

abbrev pub kvk_f14 : ℕ
kvk_f14 = 0x6B

abbrev pub kvk_f10 : ℕ
kvk_f10 = 0x6D

abbrev pub kvk_f12 : ℕ
kvk_f12 = 0x6F

abbrev pub kvk_f15 : ℕ
kvk_f15 = 0x71

abbrev pub kvk_help : ℕ
kvk_help = 0x72

abbrev pub kvk_home : ℕ
kvk_home = 0x73

abbrev pub kvk_pageup : ℕ
kvk_pageup = 0x74

abbrev pub kvk_forwarddelete : ℕ
kvk_forwarddelete = 0x75

abbrev pub kvk_f4 : ℕ
kvk_f4 = 0x76

abbrev pub kvk_end : ℕ
kvk_end = 0x77

abbrev pub kvk_f2 : ℕ
kvk_f2 = 0x78

abbrev pub kvk_pagedown : ℕ
kvk_pagedown = 0x79

abbrev pub kvk_f1 : ℕ
kvk_f1 = 0x7A

abbrev pub kvk_leftarrow : ℕ
kvk_leftarrow = 0x7B

abbrev pub kvk_rightarrow : ℕ
kvk_rightarrow = 0x7C

abbrev pub kvk_downarrow : ℕ
kvk_downarrow = 0x7D

abbrev pub kvk_uparrow : ℕ
kvk_uparrow = 0x7E

abbrev pub kvk_nx_power : ℕ
kvk_nx_power = 0xE6

abbrev pub kvk_nx_eject : ℕ
kvk_nx_eject = 0xEE

abbrev pub kvk_media_play : ℕ
kvk_media_play = 0xF0

abbrev pub kvk_media_next : ℕ
kvk_media_next = 0xF1

abbrev pub kvk_media_previous : ℕ
kvk_media_previous = 0xF2

abbrev pub kvk_undefined : ℕ
kvk_undefined = 0xFF
