-- ===== src/X11/Keysym/RoundTrip.antt =====
-- src/x11/input_helper.c: `unicode_to_keysym` followed by `keysym_to_unicode`.
use libuiohook.Prelude.{
  u16, lt→ltb, [], ◌∷◌, ℕ, ◌+◌, ◌-◌, ◌*◌, ◌^◌, ◌<◌, ◌≡◌, refl, ◌∙◌, ap, inl, inr, Bool, true, some,
  arith, not, ◌||◌, ◌==◌, get_or, bit_and, bit_or, Bool-cases, holds_below, holds_below-at,
  bit_or-pow, bit_and-low, bit_and-high,
}
use libuiohook.X11.Keysym.{
  keysym_unicode_table, keysym_of, unicode_of, empty_row, is_latin1, put_unit, keysym_to_unicode,
  unicode_to_keysym,
}
use libuiohook.X11.Keysym.Search.{Outcome, hit, miss, out_of_rounds, Tells, search-Tells}
use libuiohook.X11.Keysym.Laws.{
  scan, scan-some, keysym_at, masked_character_of, put_coded, keysym_to_unicode-masked_character_of,
  keysym_unicode_table-IsAscending,
}

-- Neither Latin 1 nor a character with the mark of a direct encoding.
abbrev is_listed : ℕ → Bool
is_listed keysym = not (is_latin1 keysym || bit_and keysym 0xFF000000 == 0x01000000)

abbrev row_is_listed : ℕ → Bool
row_is_listed row = is_listed (keysym_at keysym_unicode_table row)

table_is_listed : holds_below row_is_listed 758 ≡ true
unfolding holds_below is_latin1
table_is_listed = refl

listed_scan :
    (keysym : ℕ)
    → is_listed keysym ≡ true
    → masked_character_of keysym ≡ scan keysym_unicode_table keysym
unfolding masked_character_of
listed_scan keysym h = ground arith

-- The character of the keysym of a row is the character of the row.
row_character :
    (row : ℕ)
    → row < 758
    → masked_character_of (keysym_at keysym_unicode_table row)
      ≡ some (unicode_of (get_or keysym_unicode_table row empty_row))
row_character row h =
    listed_scan _ (holds_below-at row_is_listed 758 row table_is_listed h)
    ∙ scan-some keysym_unicode_table _ row h refl
        (λ i l e. omega (arith, keysym_unicode_table-IsAscending i row l h, e))

direct_mark : (u : ℕ) → u < 2 ^ 24 → bit_and (1 * 2 ^ 24 + u) (255 * 2 ^ 24) ≡ 0x01000000
direct_mark u h = bit_and-high 24 1 u 255 h

direct_character : (u : ℕ) → u < 2 ^ 24 → masked_character_of (bit_or u 0x01000000) ≡ some u
unfolding masked_character_of is_latin1
direct_character u h = ground (
  arith,
  bit_or-pow 24 u h,
  ap (λ (t : ℕ). bit_and t (255 * 2 ^ 24)) (sum u),
  direct_mark u h,
  ap (λ (t : ℕ). bit_and t (2 ^ 24 - 1)) (sum u),
  bit_and-low 24 1 u h,
)
  where
    sum : (u : ℕ) → u + 2 ^ 24 ≡ 1 * 2 ^ 24 + u
    sum u = omega arith

latin1_character : (u : ℕ) → is_latin1 u ≡ true → masked_character_of u ≡ some u
unfolding masked_character_of
latin1_character u h = ground arith

found_character :
    (u : ℕ) (o : Outcome)
    → u < 2 ^ 24
    → Tells keysym_unicode_table unicode_of u 0 758 0 o
    → masked_character_of (elim o as (λ o. ℕ) [
      | hit row ↦ keysym_of (get_or keysym_unicode_table row empty_row)
      | miss ↦ bit_or u 0x01000000
      | out_of_rounds ↦ 0
    ])
      ≡ some u
found_character u (hit row) h (lo, hi, same) = row_character row hi ∙ ap some same
found_character u miss h t = direct_character u h
found_character u out_of_rounds h t = absurd t

keysym_character : (u : ℕ) → u < 2 ^ 24 → masked_character_of (unicode_to_keysym u) ≡ some u
unfolding unicode_to_keysym
keysym_character u h = elim (Bool-cases (is_latin1 u)) [
  | inl e ↦ rw e (latin1_character u e)
  | inr e ↦ rw e (
      found_character u _ h
        (search-Tells keysym_unicode_table unicode_of u 10 0 758 0 (omega arith)))
]

unit_fits : (u : ℕ) → u < 65536 → u16 u ≡ u
unit_fits u h = omega arith

-- For every 16-bit character, `unicode_to_keysym` gives a keysym for which `keysym_to_unicode` writes
-- that character, if there is room for one unit.
pub keysym_to_unicode-unicode_to_keysym :
    (unicode size : ℕ)
    → unicode < 65536
    → 0 < size
    → keysym_to_unicode (unicode_to_keysym unicode) size ≡ unicode ∷ []
unfolding put_unit
keysym_to_unicode-unicode_to_keysym unicode size h room =
    keysym_to_unicode-masked_character_of (unicode_to_keysym unicode) size
    ∙ ap (put_coded size) (keysym_character unicode (omega arith))
    ∙ rw (lt→ltb 0 size room) (ap (λ (u : ℕ). u ∷ []) (unit_fits unicode h))
