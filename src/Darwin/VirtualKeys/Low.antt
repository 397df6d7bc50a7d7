-- ===== src/Darwin/VirtualKeys/Low.antt =====
-- The virtual key codes of macOS, the first half by number.
use libuiohook.Prelude.{ℕ}

abbrev pub kvk_ansi_a : ℕ
kvk_ansi_a = 0x00

abbrev pub kvk_ansi_s : ℕ
kvk_ansi_s = 0x01

abbrev pub kvk_ansi_d : ℕ
kvk_ansi_d = 0x02

abbrev pub kvk_ansi_f : ℕ
kvk_ansi_f = 0x03

abbrev pub kvk_ansi_h : ℕ
kvk_ansi_h = 0x04

abbrev pub kvk_ansi_g : ℕ
kvk_ansi_g = 0x05

abbrev pub kvk_ansi_z : ℕ
kvk_ansi_z = 0x06

abbrev pub kvk_ansi_x : ℕ
kvk_ansi_x = 0x07

abbrev pub kvk_ansi_c : ℕ
kvk_ansi_c = 0x08

abbrev pub kvk_ansi_v : ℕ
kvk_ansi_v = 0x09

abbrev pub kvk_ansi_b : ℕ
kvk_ansi_b = 0x0B

abbrev pub kvk_ansi_q : ℕ
kvk_ansi_q = 0x0C

abbrev pub kvk_ansi_w : ℕ
kvk_ansi_w = 0x0D

abbrev pub kvk_ansi_e : ℕ
kvk_ansi_e = 0x0E

abbrev pub kvk_ansi_r : ℕ
kvk_ansi_r = 0x0F

abbrev pub kvk_ansi_y : ℕ
kvk_ansi_y = 0x10

abbrev pub kvk_ansi_t : ℕ
kvk_ansi_t = 0x11

abbrev pub kvk_ansi_1 : ℕ
kvk_ansi_1 = 0x12

abbrev pub kvk_ansi_2 : ℕ
kvk_ansi_2 = 0x13

abbrev pub kvk_ansi_3 : ℕ
kvk_ansi_3 = 0x14

abbrev pub kvk_ansi_4 : ℕ
kvk_ansi_4 = 0x15

abbrev pub kvk_ansi_6 : ℕ
kvk_ansi_6 = 0x16

abbrev pub kvk_ansi_5 : ℕ
kvk_ansi_5 = 0x17

abbrev pub kvk_ansi_equal : ℕ
kvk_ansi_equal = 0x18

abbrev pub kvk_ansi_9 : ℕ
kvk_ansi_9 = 0x19

abbrev pub kvk_ansi_7 : ℕ
kvk_ansi_7 = 0x1A

abbrev pub kvk_ansi_minus : ℕ
kvk_ansi_minus = 0x1B

abbrev pub kvk_ansi_8 : ℕ
kvk_ansi_8 = 0x1C

abbrev pub kvk_ansi_0 : ℕ
kvk_ansi_0 = 0x1D

abbrev pub kvk_ansi_rightbracket : ℕ
kvk_ansi_rightbracket = 0x1E

abbrev pub kvk_ansi_o : ℕ
kvk_ansi_o = 0x1F

abbrev pub kvk_ansi_u : ℕ
kvk_ansi_u = 0x20

abbrev pub kvk_ansi_leftbracket : ℕ
kvk_ansi_leftbracket = 0x21

abbrev pub kvk_ansi_i : ℕ
kvk_ansi_i = 0x22

abbrev pub kvk_ansi_p : ℕ
kvk_ansi_p = 0x23

abbrev pub kvk_return : ℕ
kvk_return = 0x24

abbrev pub kvk_ansi_l : ℕ
kvk_ansi_l = 0x25

abbrev pub kvk_ansi_j : ℕ
kvk_ansi_j = 0x26

abbrev pub kvk_ansi_quote : ℕ
kvk_ansi_quote = 0x27

abbrev pub kvk_ansi_k : ℕ
kvk_ansi_k = 0x28

abbrev pub kvk_ansi_semicolon : ℕ
kvk_ansi_semicolon = 0x29

abbrev pub kvk_ansi_backslash : ℕ
kvk_ansi_backslash = 0x2A

abbrev pub kvk_ansi_comma : ℕ
kvk_ansi_comma = 0x2B

abbrev pub kvk_ansi_slash : ℕ
kvk_ansi_slash = 0x2C

abbrev pub kvk_ansi_n : ℕ
kvk_ansi_n = 0x2D

abbrev pub kvk_ansi_m : ℕ
kvk_ansi_m = 0x2E

abbrev pub kvk_ansi_period : ℕ
kvk_ansi_period = 0x2F

abbrev pub kvk_tab : ℕ
kvk_tab = 0x30

abbrev pub kvk_space : ℕ
kvk_space = 0x31

abbrev pub kvk_ansi_grave : ℕ
kvk_ansi_grave = 0x32

abbrev pub kvk_delete : ℕ
kvk_delete = 0x33

abbrev pub kvk_escape : ℕ
kvk_escape = 0x35

abbrev pub kvk_rightcommand : ℕ
kvk_rightcommand = 0x36

abbrev pub kvk_command : ℕ
kvk_command = 0x37

abbrev pub kvk_shift : ℕ
kvk_shift = 0x38

abbrev pub kvk_capslock : ℕ
kvk_capslock = 0x39

abbrev pub kvk_option : ℕ
kvk_option = 0x3A

abbrev pub kvk_control : ℕ
kvk_control = 0x3B

abbrev pub kvk_rightshift : ℕ
kvk_rightshift = 0x3C

abbrev pub kvk_rightoption : ℕ
kvk_rightoption = 0x3D

abbrev pub kvk_rightcontrol : ℕ
kvk_rightcontrol = 0x3E
