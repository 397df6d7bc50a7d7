-- ===== src/X11/Examples/Keysyms.antt =====
-- Keysyms at concrete inputs.
use libuiohook.Prelude.{◌≡◌, ◌≢◌, [], ◌∷◌, arith}
use libuiohook.X11.Keysym.{
  keysym_unicode_table, unicode_of, unicode_to_keysym, put_unit, keysym_to_unicode,
}
use libuiohook.X11.Keysym.Search.{search, out_of_rounds}
use libuiohook.X11.Keysym.Laws.{character_of, keysym_to_unicode-character_of, search_ends}
use libuiohook.X11.Keysym.RoundTrip.{keysym_to_unicode-unicode_to_keysym}

-- The keysym of the Polish letter Ą.
keysym_to_unicode-character_of_example : keysym_to_unicode 0x01A1 1 ≡ 0x0104 ∷ []
unfolding character_of libuiohook.X11.Keysym.is_latin1 libuiohook.X11.Keysym.Laws.scan put_unit
keysym_to_unicode-character_of_example = keysym_to_unicode-character_of 0x01A1 1

search_ends_example : search keysym_unicode_table unicode_of 0x0104 11 0 758 ≢ out_of_rounds
search_ends_example = search_ends keysym_unicode_table unicode_of 0x0104 10 (omega arith)

-- The euro sign.
keysym_to_unicode-unicode_to_keysym_example :
    keysym_to_unicode (unicode_to_keysym 0x20AC) 1 ≡ 0x20AC ∷ []
unfolding put_unit
keysym_to_unicode-unicode_to_keysym_example =
    keysym_to_unicode-unicode_to_keysym 0x20AC 1 (omega arith) (omega arith)
