-- ===== src/X11/Keysym.antt =====
-- src/x11/input_helper.c: `unicode_to_keysym` and `keysym_to_unicode`, as they are compiled where
-- X11/keysym.h names the Latin 1 keysyms and those past them.
mod Latin
mod Others
pub mod Search
pub mod Laws
pub mod RoundTrip
use libuiohook.Prelude.{
  ℕ, Bool, ◌&&◌, ◌||◌, List, [], ◌∷◌, ◌++◌, ltb, leb, ◌==◌, if◌then◌else◌, length, get_or, bit_and,
  bit_or, u16,
}
use Latin.*
use Others.*
use Search.{Outcome, hit, miss, out_of_rounds, search}

abbrev pub keysym_unicode_table : List (ℕ × ℕ)
keysym_unicode_table =
    first_rows ++ second_rows ++ third_rows ++ fourth_rows ++ fifth_rows ++ sixth_rows
    ++ seventh_rows

abbrev pub keysym_of : ℕ × ℕ → ℕ
keysym_of (keysym, unicode) = keysym

abbrev pub unicode_of : ℕ × ℕ → ℕ
unicode_of (keysym, unicode) = unicode

abbrev pub empty_row : ℕ × ℕ
empty_row = (0, 0)

unfoldable pub is_latin1 : ℕ → Bool
is_latin1 n = (leb 0x0020 n && leb n 0x007E) || (leb 0x00A0 n && leb n 0x00FF)

-- The loops may take `rounds` rounds.
abbrev pub rounds : ℕ
rounds = 11

-- The count of rounds is no result of the source; `out_of_rounds` is given back as no keysym.
unfoldable pub unicode_to_keysym : ℕ → ℕ
unicode_to_keysym unicode =
    if is_latin1 unicode
    then unicode
    else elim (search keysym_unicode_table unicode_of unicode rounds 0
        (length keysym_unicode_table)) [
          | hit row ↦ keysym_of (get_or keysym_unicode_table row empty_row)
          | miss ↦ bit_or unicode 0x01000000
          | out_of_rounds ↦ 0
        ]

-- `if (count < size) buffer[count++] = unit`, with `count` 0: the units written.
unfoldable pub put_unit : ℕ → ℕ → List ℕ
put_unit unit size = if ltb 0 size then u16 unit ∷ [] else []

unfoldable pub keysym_to_unicode : ℕ → ℕ → List ℕ
keysym_to_unicode keysym size =
    if is_latin1 keysym
    then put_unit keysym size
    else if bit_and keysym 0xFF000000 == 0x01000000
    then put_unit (bit_and keysym 0x00FFFFFF) size
    else elim (search keysym_unicode_table keysym_of keysym rounds 0
        (length keysym_unicode_table)) [
          | hit row ↦ put_unit (unicode_of (get_or keysym_unicode_table row empty_row)) size
          | miss ↦ []
          | out_of_rounds ↦ []
        ]
