-- ===== src/X11/Helper/Text.antt =====
-- `keycode_to_unicode` of src/x11/input_helper.c with libxkbcommon, and the inverse it should have.
use libuiohook.Prelude.{
  ℕ, ◌+◌, ◌-◌, ◌*◌, ◌/◌, Bool, ◌&&◌, ◌||◌, List, [], ◌∷◌, Option, none, some, leb, if◌then◌else◌,
  bit_and, bit_or, u16,
}

-- The units written to `buffer`, as many as `count` says. `state` is whether the xkb state is not
-- null, and `unicode` what `xkb_state_key_get_utf32` returns. The second branch writes two units
-- whatever the length is.
unfoldable pub keycode_to_unicode : Bool → ℕ → ℕ → List ℕ
keycode_to_unicode state unicode length =
    if state && leb unicode 0x10FFFF
    then (if (leb unicode 0xD7FF || (leb 0xE000 unicode && leb unicode 0xFFFF)) && leb 1 length
        then u16 unicode ∷ []
        else if leb 0x10000 unicode
        then u16 (bit_or 0xD800 ((unicode - 0x10000) / 1024))
          ∷ u16 (bit_or 0xDC00 (bit_and (unicode - 0x10000) 0x3FF))
          ∷ []
        else [])
    else []

-- The code point that a sequence of UTF-16 units stands for.
unfoldable pub decode_utf16 : List ℕ → Option ℕ
decode_utf16 [] = none
decode_utf16 (u ∷ []) = some u
decode_utf16 (h ∷ l ∷ []) = some (0x10000 + (h - 0xD800) * 0x400 + (l - 0xDC00))
decode_utf16 (h ∷ l ∷ _ ∷ _) = none
