-- ===== src/X11/Keysym/Others.antt =====
-- `keysym_unicode_table` of src/x11/input_helper.c: keysyms with their characters, in parts of the
-- source's order.
use libuiohook.Prelude.{ℕ, List, [], ◌∷◌}

abbrev pub fourth_rows : List (ℕ × ℕ)
fourth_rows =
    (0x07F4, 0x03C4)
    ∷ (0x07F5, 0x03C5)
    ∷ (0x07F6, 0x03C6)
    ∷ (0x07F7, 0x03C7)
    ∷ (0x07F8, 0x03C8)
    ∷ (0x07F9, 0x03C9)
    ∷ (0x08A1, 0x23B7)
    ∷ (0x08A2, 0x250C)
    ∷ (0x08A3, 0x2500)
    ∷ (0x08A4, 0x2320)
    ∷ (0x08A5, 0x2321)
    ∷ (0x08A6, 0x2502)
    ∷ (0x08A7, 0x23A1)
    ∷ (0x08A8, 0x23A3)
    ∷ (0x08A9, 0x23A4)
    ∷ (0x08AA, 0x23A6)
    ∷ (0x08AB, 0x239B)
    ∷ (0x08AC, 0x239D)
    ∷ (0x08AD, 0x239E)
    ∷ (0x08AE, 0x23A0)
    ∷ (0x08AF, 0x23A8)
    ∷ (0x08B0, 0x23AC)
    ∷ (0x08BC, 0x2264)
    ∷ (0x08BD, 0x2260)
    ∷ (0x08BE, 0x2265)
    ∷ (0x08BF, 0x222B)
    ∷ (0x08C0, 0x2234)
    ∷ (0x08C1, 0x221D)
    ∷ (0x08C2, 0x221E)
    ∷ (0x08C5, 0x2207)
    ∷ (0x08C8, 0x223C)
    ∷ (0x08C9, 0x2243)
    ∷ (0x08CD, 0x21D4)
    ∷ (0x08CE, 0x21D2)
    ∷ (0x08CF, 0x2261)
    ∷ (0x08D6, 0x221A)
    ∷ (0x08DA, 0x2282)
    ∷ (0x08DB, 0x2283)
    ∷ (0x08DC, 0x2229)
    ∷ (0x08DD, 0x222A)
    ∷ (0x08DE, 0x2227)
    ∷ (0x08DF, 0x2228)
    ∷ (0x08EF, 0x2202)
    ∷ (0x08F6, 0x0192)
    ∷ (0x08FB, 0x2190)
    ∷ (0x08FC, 0x2191)
    ∷ (0x08FD, 0x2192)
    ∷ (0x08FE, 0x2193)
    ∷ (0x09E0, 0x25C6)
    ∷ (0x09E1, 0x2592)
    ∷ (0x09E2, 0x2409)
    ∷ (0x09E3, 0x240C)
    ∷ (0x09E4, 0x240D)
    ∷ (0x09E5, 0x240A)
    ∷ (0x09E8, 0x2424)
    ∷ (0x09E9, 0x240B)
    ∷ (0x09EA, 0x2518)
    ∷ (0x09EB, 0x2510)
    ∷ (0x09EC, 0x250C)
    ∷ (0x09ED, 0x2514)
    ∷ (0x09EE, 0x253C)
    ∷ (0x09EF, 0x23BA)
    ∷ (0x09F0, 0x23BB)
    ∷ (0x09F1, 0x2500)
    ∷ (0x09F2, 0x23BC)
    ∷ (0x09F3, 0x23BD)
    ∷ (0x09F4, 0x251C)
    ∷ (0x09F5, 0x2524)
    ∷ (0x09F6, 0x2534)
    ∷ (0x09F7, 0x252C)
    ∷ (0x09F8, 0x2502)
    ∷ (0x0AA1, 0x2003)
    ∷ (0x0AA2, 0x2002)
    ∷ (0x0AA3, 0x2004)
    ∷ (0x0AA4, 0x2005)
    ∷ (0x0AA5, 0x2007)
    ∷ (0x0AA6, 0x2008)
    ∷ (0x0AA7, 0x2009)
    ∷ (0x0AA8, 0x200A)
    ∷ (0x0AA9, 0x2014)
    ∷ (0x0AAA, 0x2013)
    ∷ (0x0AAE, 0x2026)
    ∷ (0x0AAF, 0x2025)
    ∷ (0x0AB0, 0x2153)
    ∷ (0x0AB1, 0x2154)
    ∷ (0x0AB2, 0x2155)
    ∷ (0x0AB3, 0x2156)
    ∷ (0x0AB4, 0x2157)
    ∷ (0x0AB5, 0x2158)
    ∷ (0x0AB6, 0x2159)
    ∷ (0x0AB7, 0x215A)
    ∷ (0x0AB8, 0x2105)
    ∷ (0x0ABB, 0x2012)
    ∷ (0x0ABC, 0x2329)
    ∷ (0x0ABE, 0x232A)
    ∷ (0x0AC3, 0x215B)
    ∷ (0x0AC4, 0x215C)
    ∷ (0x0AC5, 0x215D)
    ∷ (0x0AC6, 0x215E)
    ∷ (0x0AC9, 0x2122)
    ∷ (0x0ACA, 0x2613)
    ∷ (0x0ACC, 0x25C1)
    ∷ (0x0ACD, 0x25B7)
    ∷ (0x0ACE, 0x25CB)
    ∷ (0x0ACF, 0x25AF)
    ∷ (0x0AD0, 0x2018)
    ∷ (0x0AD1, 0x2019)
    ∷ (0x0AD2, 0x201C)
    ∷ (0x0AD3, 0x201D)
    ∷ (0x0AD4, 0x211E)
    ∷ (0x0AD6, 0x2032)
    ∷ (0x0AD7, 0x2033)
    ∷ (0x0AD9, 0x271D)
    ∷ (0x0ADB, 0x25AC)
    ∷ (0x0ADC, 0x25C0)
    ∷ []

abbrev pub fifth_rows : List (ℕ × ℕ)
fifth_rows =
    (0x0ADD, 0x25B6)
    ∷ (0x0ADE, 0x25CF)
    ∷ (0x0ADF, 0x25AE)
    ∷ (0x0AE0, 0x25E6)
    ∷ (0x0AE1, 0x25AB)
    ∷ (0x0AE2, 0x25AD)
    ∷ (0x0AE3, 0x25B3)
    ∷ (0x0AE4, 0x25BD)
    ∷ (0x0AE5, 0x2606)
    ∷ (0x0AE6, 0x2022)
    ∷ (0x0AE7, 0x25AA)
    ∷ (0x0AE8, 0x25B2)
    ∷ (0x0AE9, 0x25BC)
    ∷ (0x0AEA, 0x261C)
    ∷ (0x0AEB, 0x261E)
    ∷ (0x0AEC, 0x2663)
    ∷ (0x0AED, 0x2666)
    ∷ (0x0AEE, 0x2665)
    ∷ (0x0AF0, 0x2720)
    ∷ (0x0AF1, 0x2020)
    ∷ (0x0AF2, 0x2021)
    ∷ (0x0AF3, 0x2713)
    ∷ (0x0AF4, 0x2717)
    ∷ (0x0AF5, 0x266F)
    ∷ (0x0AF6, 0x266D)
    ∷ (0x0AF7, 0x2642)
    ∷ (0x0AF8, 0x2640)
    ∷ (0x0AF9, 0x260E)
    ∷ (0x0AFA, 0x2315)
    ∷ (0x0AFB, 0x2117)
    ∷ (0x0AFC, 0x2038)
    ∷ (0x0AFD, 0x201A)
    ∷ (0x0AFE, 0x201E)
    ∷ (0x0BA3, 0x003C)
    ∷ (0x0BA6, 0x003E)
    ∷ (0x0BA8, 0x2228)
    ∷ (0x0BA9, 0x2227)
    ∷ (0x0BC0, 0x00AF)
    ∷ (0x0BC2, 0x22A5)
    ∷ (0x0BC3, 0x2229)
    ∷ (0x0BC4, 0x230A)
    ∷ (0x0BC6, 0x005F)
    ∷ (0x0BCA, 0x2218)
    ∷ (0x0BCC, 0x2395)
    ∷ (0x0BCE, 0x22A4)
    ∷ (0x0BCF, 0x25CB)
    ∷ (0x0BD3, 0x2308)
    ∷ (0x0BD6, 0x222A)
    ∷ (0x0BD8, 0x2283)
    ∷ (0x0BDA, 0x2282)
    ∷ (0x0BDC, 0x22A2)
    ∷ (0x0BFC, 0x22A3)
    ∷ (0x0CDF, 0x2017)
    ∷ (0x0CE0, 0x05D0)
    ∷ (0x0CE1, 0x05D1)
    ∷ (0x0CE2, 0x05D2)
    ∷ (0x0CE3, 0x05D3)
    ∷ (0x0CE4, 0x05D4)
    ∷ (0x0CE5, 0x05D5)
    ∷ (0x0CE6, 0x05D6)
    ∷ (0x0CE7, 0x05D7)
    ∷ (0x0CE8, 0x05D8)
    ∷ (0x0CE9, 0x05D9)
    ∷ (0x0CEA, 0x05DA)
    ∷ (0x0CEB, 0x05DB)
    ∷ (0x0CEC, 0x05DC)
    ∷ (0x0CED, 0x05DD)
    ∷ (0x0CEE, 0x05DE)
    ∷ (0x0CEF, 0x05DF)
    ∷ (0x0CF0, 0x05E0)
    ∷ (0x0CF1, 0x05E1)
    ∷ (0x0CF2, 0x05E2)
    ∷ (0x0CF3, 0x05E3)
    ∷ (0x0CF4, 0x05E4)
    ∷ (0x0CF5, 0x05E5)
    ∷ (0x0CF6, 0x05E6)
    ∷ (0x0CF7, 0x05E7)
    ∷ (0x0CF8, 0x05E8)
    ∷ (0x0CF9, 0x05E9)
    ∷ (0x0CFA, 0x05EA)
    ∷ (0x0DA1, 0x0E01)
    ∷ (0x0DA2, 0x0E02)
    ∷ (0x0DA3, 0x0E03)
    ∷ (0x0DA4, 0x0E04)
    ∷ (0x0DA5, 0x0E05)
    ∷ (0x0DA6, 0x0E06)
    ∷ (0x0DA7, 0x0E07)
    ∷ (0x0DA8, 0x0E08)
    ∷ (0x0DA9, 0x0E09)
    ∷ (0x0DAA, 0x0E0A)
    ∷ (0x0DAB, 0x0E0B)
    ∷ (0x0DAC, 0x0E0C)
    ∷ (0x0DAD, 0x0E0D)
    ∷ (0x0DAE, 0x0E0E)
    ∷ (0x0DAF, 0x0E0F)
    ∷ (0x0DB0, 0x0E10)
    ∷ (0x0DB1, 0x0E11)
    ∷ (0x0DB2, 0x0E12)
    ∷ (0x0DB3, 0x0E13)
    ∷ (0x0DB4, 0x0E14)
    ∷ (0x0DB5, 0x0E15)
    ∷ (0x0DB6, 0x0E16)
    ∷ (0x0DB7, 0x0E17)
    ∷ (0x0DB8, 0x0E18)
    ∷ (0x0DB9, 0x0E19)
    ∷ (0x0DBA, 0x0E1A)
    ∷ (0x0DBB, 0x0E1B)
    ∷ (0x0DBC, 0x0E1C)
    ∷ (0x0DBD, 0x0E1D)
    ∷ (0x0DBE, 0x0E1E)
    ∷ (0x0DBF, 0x0E1F)
    ∷ (0x0DC0, 0x0E20)
    ∷ (0x0DC1, 0x0E21)
    ∷ (0x0DC2, 0x0E22)
    ∷ (0x0DC3, 0x0E23)
    ∷ (0x0DC4, 0x0E24)
    ∷ (0x0DC5, 0x0E25)
    ∷ (0x0DC6, 0x0E26)
    ∷ (0x0DC7, 0x0E27)
    ∷ (0x0DC8, 0x0E28)
    ∷ (0x0DC9, 0x0E29)
    ∷ (0x0DCA, 0x0E2A)
    ∷ (0x0DCB, 0x0E2B)
    ∷ (0x0DCC, 0x0E2C)
    ∷ (0x0DCD, 0x0E2D)
    ∷ (0x0DCE, 0x0E2E)
    ∷ (0x0DCF, 0x0E2F)
    ∷ []

abbrev pub sixth_rows : List (ℕ × ℕ)
sixth_rows =
    (0x0DD0, 0x0E30)
    ∷ (0x0DD1, 0x0E31)
    ∷ (0x0DD2, 0x0E32)
    ∷ (0x0DD3, 0x0E33)
    ∷ (0x0DD4, 0x0E34)
    ∷ (0x0DD5, 0x0E35)
    ∷ (0x0DD6, 0x0E36)
    ∷ (0x0DD7, 0x0E37)
    ∷ (0x0DD8, 0x0E38)
    ∷ (0x0DD9, 0x0E39)
    ∷ (0x0DDA, 0x0E3A)
    ∷ (0x0DDF, 0x0E3F)
    ∷ (0x0DE0, 0x0E40)
    ∷ (0x0DE1, 0x0E41)
    ∷ (0x0DE2, 0x0E42)
    ∷ (0x0DE3, 0x0E43)
    ∷ (0x0DE4, 0x0E44)
    ∷ (0x0DE5, 0x0E45)
    ∷ (0x0DE6, 0x0E46)
    ∷ (0x0DE7, 0x0E47)
    ∷ (0x0DE8, 0x0E48)
    ∷ (0x0DE9, 0x0E49)
    ∷ (0x0DEA, 0x0E4A)
    ∷ (0x0DEB, 0x0E4B)
    ∷ (0x0DEC, 0x0E4C)
    ∷ (0x0DED, 0x0E4D)
    ∷ (0x0DF0, 0x0E50)
    ∷ (0x0DF1, 0x0E51)
    ∷ (0x0DF2, 0x0E52)
    ∷ (0x0DF3, 0x0E53)
    ∷ (0x0DF4, 0x0E54)
    ∷ (0x0DF5, 0x0E55)
    ∷ (0x0DF6, 0x0E56)
    ∷ (0x0DF7, 0x0E57)
    ∷ (0x0DF8, 0x0E58)
    ∷ (0x0DF9, 0x0E59)
    ∷ (0x0EA1, 0x3131)
    ∷ (0x0EA2, 0x3132)
    ∷ (0x0EA3, 0x3133)
    ∷ (0x0EA4, 0x3134)
    ∷ (0x0EA5, 0x3135)
    ∷ (0x0EA6, 0x3136)
    ∷ (0x0EA7, 0x3137)
    ∷ (0x0EA8, 0x3138)
    ∷ (0x0EA9, 0x3139)
    ∷ (0x0EAA, 0x313A)
    ∷ (0x0EAB, 0x313B)
    ∷ (0x0EAC, 0x313C)
    ∷ (0x0EAD, 0x313D)
    ∷ (0x0EAE, 0x313E)
    ∷ (0x0EAF, 0x313F)
    ∷ (0x0EB0, 0x3140)
    ∷ (0x0EB1, 0x3141)
    ∷ (0x0EB2, 0x3142)
    ∷ (0x0EB3, 0x3143)
    ∷ (0x0EB4, 0x3144)
    ∷ (0x0EB5, 0x3145)
    ∷ (0x0EB6, 0x3146)
    ∷ (0x0EB7, 0x3147)
    ∷ (0x0EB8, 0x3148)
    ∷ (0x0EB9, 0x3149)
    ∷ (0x0EBA, 0x314A)
    ∷ (0x0EBB, 0x314B)
    ∷ (0x0EBC, 0x314C)
    ∷ (0x0EBD, 0x314D)
    ∷ (0x0EBE, 0x314E)
    ∷ (0x0EBF, 0x314F)
    ∷ (0x0EC0, 0x3150)
    ∷ (0x0EC1, 0x3151)
    ∷ (0x0EC2, 0x3152)
    ∷ (0x0EC3, 0x3153)
    ∷ (0x0EC4, 0x3154)
    ∷ (0x0EC5, 0x3155)
    ∷ (0x0EC6, 0x3156)
    ∷ (0x0EC7, 0x3157)
    ∷ (0x0EC8, 0x3158)
    ∷ (0x0EC9, 0x3159)
    ∷ (0x0ECA, 0x315A)
    ∷ (0x0ECB, 0x315B)
    ∷ (0x0ECC, 0x315C)
    ∷ (0x0ECD, 0x315D)
    ∷ (0x0ECE, 0x315E)
    ∷ (0x0ECF, 0x315F)
    ∷ (0x0ED0, 0x3160)
    ∷ (0x0ED1, 0x3161)
    ∷ (0x0ED2, 0x3162)
    ∷ (0x0ED3, 0x3163)
    ∷ (0x0ED4, 0x11A8)
    ∷ (0x0ED5, 0x11A9)
    ∷ (0x0ED6, 0x11AA)
    ∷ (0x0ED7, 0x11AB)
    ∷ (0x0ED8, 0x11AC)
    ∷ (0x0ED9, 0x11AD)
    ∷ (0x0EDA, 0x11AE)
    ∷ (0x0EDB, 0x11AF)
    ∷ (0x0EDC, 0x11B0)
    ∷ (0x0EDD, 0x11B1)
    ∷ (0x0EDE, 0x11B2)
    ∷ (0x0EDF, 0x11B3)
    ∷ (0x0EE0, 0x11B4)
    ∷ (0x0EE1, 0x11B5)
    ∷ (0x0EE2, 0x11B6)
    ∷ (0x0EE3, 0x11B7)
    ∷ (0x0EE4, 0x11B8)
    ∷ (0x0EE5, 0x11B9)
    ∷ (0x0EE6, 0x11BA)
    ∷ (0x0EE7, 0x11BB)
    ∷ (0x0EE8, 0x11BC)
    ∷ (0x0EE9, 0x11BD)
    ∷ (0x0EEA, 0x11BE)
    ∷ (0x0EEB, 0x11BF)
    ∷ (0x0EEC, 0x11C0)
    ∷ (0x0EED, 0x11C1)
    ∷ (0x0EEE, 0x11C2)
    ∷ (0x0EEF, 0x316D)
    ∷ (0x0EF0, 0x3171)
    ∷ (0x0EF1, 0x3178)
    ∷ (0x0EF2, 0x317F)
    ∷ (0x0EF3, 0x3181)
    ∷ (0x0EF4, 0x3184)
    ∷ (0x0EF5, 0x3186)
    ∷ (0x0EF6, 0x318D)
    ∷ (0x0EF7, 0x318E)
    ∷ (0x0EF8, 0x11EB)
    ∷ (0x0EF9, 0x11F0)
    ∷ (0x0EFA, 0x11F9)
    ∷ (0x0EFF, 0x20A9)
    ∷ []

abbrev pub seventh_rows : List (ℕ × ℕ)
seventh_rows =
    (0x13A4, 0x20AC)
    ∷ (0x13BC, 0x0152)
    ∷ (0x13BD, 0x0153)
    ∷ (0x13BE, 0x0178)
    ∷ (0x20AC, 0x20AC)
    ∷ []
