-- ===== src/Event/KeyCodes/Typing.antt =====
-- Virtual key codes of include/uiohook.h: the function keys and the alphanumeric zone.
use libuiohook.Prelude.{ℕ}

abbrev pub vc_escape : ℕ
vc_escape = 0x0001

abbrev pub vc_f1 : ℕ
vc_f1 = 0x003B

abbrev pub vc_f2 : ℕ
vc_f2 = 0x003C

abbrev pub vc_f3 : ℕ
vc_f3 = 0x003D

abbrev pub vc_f4 : ℕ
vc_f4 = 0x003E

abbrev pub vc_f5 : ℕ
vc_f5 = 0x003F

abbrev pub vc_f6 : ℕ
vc_f6 = 0x0040

abbrev pub vc_f7 : ℕ
vc_f7 = 0x0041

abbrev pub vc_f8 : ℕ
vc_f8 = 0x0042

abbrev pub vc_f9 : ℕ
vc_f9 = 0x0043

abbrev pub vc_f10 : ℕ
vc_f10 = 0x0044

abbrev pub vc_f11 : ℕ
vc_f11 = 0x0057

abbrev pub vc_f12 : ℕ
vc_f12 = 0x0058

abbrev pub vc_f13 : ℕ
vc_f13 = 0x005B

abbrev pub vc_f14 : ℕ
vc_f14 = 0x005C

abbrev pub vc_f15 : ℕ
vc_f15 = 0x005D

abbrev pub vc_f16 : ℕ
vc_f16 = 0x0063

abbrev pub vc_f17 : ℕ
vc_f17 = 0x0064

abbrev pub vc_f18 : ℕ
vc_f18 = 0x0065

abbrev pub vc_f19 : ℕ
vc_f19 = 0x0066

abbrev pub vc_f20 : ℕ
vc_f20 = 0x0067

abbrev pub vc_f21 : ℕ
vc_f21 = 0x0068

abbrev pub vc_f22 : ℕ
vc_f22 = 0x0069

abbrev pub vc_f23 : ℕ
vc_f23 = 0x006A

abbrev pub vc_f24 : ℕ
vc_f24 = 0x006B

abbrev pub vc_backquote : ℕ
vc_backquote = 0x0029

abbrev pub vc_1 : ℕ
vc_1 = 0x0002

abbrev pub vc_2 : ℕ
vc_2 = 0x0003

abbrev pub vc_3 : ℕ
vc_3 = 0x0004

abbrev pub vc_4 : ℕ
vc_4 = 0x0005

abbrev pub vc_5 : ℕ
vc_5 = 0x0006

abbrev pub vc_6 : ℕ
vc_6 = 0x0007

abbrev pub vc_7 : ℕ
vc_7 = 0x0008

abbrev pub vc_8 : ℕ
vc_8 = 0x0009

abbrev pub vc_9 : ℕ
vc_9 = 0x000A

abbrev pub vc_0 : ℕ
vc_0 = 0x000B

abbrev pub vc_minus : ℕ
vc_minus = 0x000C

abbrev pub vc_equals : ℕ
vc_equals = 0x000D

abbrev pub vc_backspace : ℕ
vc_backspace = 0x000E

abbrev pub vc_tab : ℕ
vc_tab = 0x000F

abbrev pub vc_caps_lock : ℕ
vc_caps_lock = 0x003A

abbrev pub vc_a : ℕ
vc_a = 0x001E

abbrev pub vc_b : ℕ
vc_b = 0x0030

abbrev pub vc_c : ℕ
vc_c = 0x002E

abbrev pub vc_d : ℕ
vc_d = 0x0020

abbrev pub vc_e : ℕ
vc_e = 0x0012

abbrev pub vc_f : ℕ
vc_f = 0x0021

abbrev pub vc_g : ℕ
vc_g = 0x0022

abbrev pub vc_h : ℕ
vc_h = 0x0023

abbrev pub vc_i : ℕ
vc_i = 0x0017

abbrev pub vc_j : ℕ
vc_j = 0x0024

abbrev pub vc_k : ℕ
vc_k = 0x0025

abbrev pub vc_l : ℕ
vc_l = 0x0026

abbrev pub vc_m : ℕ
vc_m = 0x0032

abbrev pub vc_n : ℕ
vc_n = 0x0031

abbrev pub vc_o : ℕ
vc_o = 0x0018

abbrev pub vc_p : ℕ
vc_p = 0x0019

abbrev pub vc_q : ℕ
vc_q = 0x0010

abbrev pub vc_r : ℕ
vc_r = 0x0013

abbrev pub vc_s : ℕ
vc_s = 0x001F

abbrev pub vc_t : ℕ
vc_t = 0x0014

abbrev pub vc_u : ℕ
vc_u = 0x0016

abbrev pub vc_v : ℕ
vc_v = 0x002F

abbrev pub vc_w : ℕ
vc_w = 0x0011

abbrev pub vc_x : ℕ
vc_x = 0x002D

abbrev pub vc_y : ℕ
vc_y = 0x0015

abbrev pub vc_z : ℕ
vc_z = 0x002C

abbrev pub vc_open_bracket : ℕ
vc_open_bracket = 0x001A

abbrev pub vc_close_bracket : ℕ
vc_close_bracket = 0x001B
