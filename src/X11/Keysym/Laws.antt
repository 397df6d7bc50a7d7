-- ===== src/X11/Keysym/Laws.antt =====
-- src/x11/input_helper.c: `keysym_to_unicode` against a scan of the table from its start, and what
-- `unicode_to_keysym` finds.
use libuiohook.Prelude.{
  ℕ, zero, suc, ◌+◌, ◌-◌, ◌*◌, ◌/◌, ◌%◌, ◌^◌, ◌<◌, ◌≡◌, ◌≢◌, refl, sym, ◌∙◌, ap, inl, inr, Bool,
  true, false, List, [], ◌∷◌, Option, none, some, arith, ltb, ltb→lt, ◌==◌, ◌&&◌, ◌||◌, bit_and-low,
  bit_and-high, if◌then◌else◌, length, get_or, bit_and, Bool-cases, holds_below, holds_below-at,
}
use libuiohook.X11.Keysym.{
  keysym_unicode_table, keysym_of, unicode_of, empty_row, is_latin1, put_unit, keysym_to_unicode,
  rounds,
}
use libuiohook.X11.Keysym.Search.{
  Outcome, hit, miss, out_of_rounds, search, IsAscending, Tells, search-Tells,
}

-- The character of the first row with the keysym.
unfoldable pub scan : List (ℕ × ℕ) → ℕ → Option ℕ
scan [] keysym = none
scan (row ∷ rows) keysym =
    let later = scan rows keysym in if keysym_of row == keysym then some (unicode_of row) else later

abbrev pub keysym_at : List (ℕ × ℕ) → ℕ → ℕ
keysym_at rows i = keysym_of (get_or rows i empty_row)

pub scan-some :
    (rows : List (ℕ × ℕ)) (keysym p : ℕ)
    → p < length rows
    → keysym_at rows p ≡ keysym
    → ((i : ℕ) → i < p → keysym_at rows i ≢ keysym)
    → scan rows keysym ≡ some (unicode_of (get_or rows p empty_row))
unfolding scan
scan-some [] keysym p h e before = absurd (omega arith)
scan-some (row ∷ rows) keysym zero h e before = ground arith
scan-some (row ∷ rows) keysym (suc p) h e before = ground (
  arith,
  before 0 (omega arith),
  scan-some rows keysym p (omega arith) e (λ i l. before (suc i) (omega arith)),
)

scan-none :
    (rows : List (ℕ × ℕ)) (keysym : ℕ)
    → ((i : ℕ) → i < length rows → keysym_at rows i ≢ keysym)
    → scan rows keysym ≡ none
unfolding scan
scan-none [] keysym absent = refl
scan-none (row ∷ rows) keysym absent =
    ground
      (arith, absent 0 (omega arith), scan-none rows keysym (λ i l. absent (suc i) (omega arith)))

-- A function that rises at each step below a bound rises.
rising :
    (f : ℕ → ℕ) (n : ℕ)
    → ((k : ℕ) → suc k < n → f k < f (suc k))
    → (i j : ℕ) → i < j
    → j < n
    → f i < f j
rising f n step i zero h l = absurd (omega arith)
rising f n step i (suc j) h l =
    let last : f j < f (suc j) = step j l in
    elim (Bool-cases (ltb i j)) [
      | inl e ↦ omega (arith, rising f n step i j (ground arith) (omega arith), last)
      | inr e ↦ let same : i ≡ j = ground arith in omega (arith, ap f same, last)
    ]

abbrev rises_after : ℕ → Bool
rises_after k = ltb (keysym_at keysym_unicode_table k) (keysym_at keysym_unicode_table (suc k))

rises_table : holds_below rises_after 757 ≡ true
unfolding holds_below
rises_table = refl

-- The table is sorted by keysym.
pub keysym_unicode_table-IsAscending : IsAscending keysym_unicode_table keysym_of 0
keysym_unicode_table-IsAscending =
    rising (keysym_at keysym_unicode_table) 758
      (λ k l. ltb→lt _ _ (holds_below-at rises_after 757 k rises_table (omega arith)))

-- The rows that the search by keysym may find, against the scan.
search-scan :
    (keysym : ℕ)
    → (elim (search keysym_unicode_table keysym_of keysym rounds 0 758) as (λ o. Option ℕ) [
      | hit row ↦ some (unicode_of (get_or keysym_unicode_table row empty_row))
      | miss ↦ none
      | out_of_rounds ↦ none
    ])
      ≡ scan keysym_unicode_table keysym
search-scan keysym =
    agrees _ (λ i. search-Tells keysym_unicode_table keysym_of keysym 10 0 758 i (omega arith))
  where
    agrees :
        (o : Outcome)
        → ((i : ℕ) → Tells keysym_unicode_table keysym_of keysym 0 758 i o)
        → (elim o as (λ o. Option ℕ) [
          | hit row ↦ some (unicode_of (get_or keysym_unicode_table row empty_row))
          | miss ↦ none
          | out_of_rounds ↦ none
        ])
          ≡ scan keysym_unicode_table keysym
    agrees (hit row) tells =
        let (lo, hi, same) = tells 0 in
        sym (
          scan-some keysym_unicode_table keysym row hi same
            (λ i l e. omega (arith, keysym_unicode_table-IsAscending i row l hi, e, same)))
    agrees miss tells = sym (
        scan-none keysym_unicode_table keysym
          (λ i l. tells i keysym_unicode_table-IsAscending (omega arith) (omega arith) l))
    agrees out_of_rounds tells = absurd (tells 0)

-- The search ends for a table of any length, sorted or not: one round more than the table can be halved
-- is enough, and so are the 11 rounds that are given for the 758 rows.
pub search_ends :
    (table : List (ℕ × ℕ)) (field : ℕ × ℕ → ℕ) (key halvings : ℕ)
    → length table < 2 ^ halvings
    → search table field key (suc halvings) 0 (length table) ≢ out_of_rounds
search_ends table field key halvings small e =
    let told = search-Tells table field key halvings 0 (length table) 0 (omega arith) in
    rw e at told

-- The character of a keysym with the tests and masks of the code, and a scan of the table.
unfoldable pub masked_character_of : ℕ → Option ℕ
masked_character_of keysym =
    if is_latin1 keysym
    then some keysym
    else if bit_and keysym 0xFF000000 == 0x01000000
    then some (bit_and keysym 0x00FFFFFF)
    else scan keysym_unicode_table keysym

abbrev pub put_coded : ℕ → Option ℕ → List ℕ
put_coded size none = []
put_coded size (some unicode) = put_unit unicode size

put_found :
    (size : ℕ) (o : Outcome)
    → (elim o as (λ o. List ℕ) [
      | hit row ↦ put_unit (unicode_of (get_or keysym_unicode_table row empty_row)) size
      | miss ↦ []
      | out_of_rounds ↦ []
    ])
      ≡ put_coded size (elim o as (λ o. Option ℕ) [
        | hit row ↦ some (unicode_of (get_or keysym_unicode_table row empty_row))
        | miss ↦ none
        | out_of_rounds ↦ none
      ])
put_found size (hit row) = refl
put_found size miss = refl
put_found size out_of_rounds = refl

if_map :
    (b c : Bool) (size : ℕ) (x y o : Option ℕ) (z : List ℕ)
    → z ≡ put_coded size o
    → (if b then put_coded size x else if c then put_coded size y else z)
      ≡ put_coded size (if b then x else if c then y else o)
if_map true c size x y o z e = refl
if_map false true size x y o z e = refl
if_map false false size x y o z e = e

pub keysym_to_unicode-masked_character_of :
    (keysym size : ℕ) → keysym_to_unicode keysym size ≡ put_coded size (masked_character_of keysym)
unfolding keysym_to_unicode masked_character_of
keysym_to_unicode-masked_character_of keysym size =
    if_map (is_latin1 keysym) (bit_and keysym 0xFF000000 == 0x01000000) size (some keysym)
      (some (bit_and keysym 0x00FFFFFF)) (scan keysym_unicode_table keysym) _
      (put_found size _ ∙ ap (put_coded size) (search-scan keysym))

-- The character that a keysym stands for: itself in the two ranges of Latin 1, its lowest 24 bits if the
-- 8 bits above them are 1, and else the one of the first row of the table with the keysym.
unfoldable pub character_of : ℕ → Option ℕ
character_of keysym =
    if (ltb 31 keysym && ltb keysym 127) || (ltb 159 keysym && ltb keysym 256)
    then some keysym
    else if keysym / 16777216 % 256 == 1
    then some (keysym % 16777216)
    else scan keysym_unicode_table keysym

-- One unit of 16 bits, if there is room.
abbrev pub put_character : ℕ → Option ℕ → List ℕ
put_character size none = []
put_character zero (some unicode) = []
put_character (suc size) (some unicode) = unicode % 65536 ∷ []

put_coded-put_character : (size : ℕ) (o : Option ℕ) → put_coded size o ≡ put_character size o
unfolding put_unit
put_coded-put_character size none = refl
put_coded-put_character zero (some unicode) = refl
put_coded-put_character (suc size) (some unicode) = ground arith

above_24 : (x : ℕ) → x ≡ x / 2 ^ 24 * 2 ^ 24 + x % 2 ^ 24
above_24 x = omega arith

above_8 : (x : ℕ) → x ≡ x / 2 ^ 8 * 2 ^ 8 + x % 2 ^ 8
above_8 x = omega arith

low_character : (keysym : ℕ) → bit_and keysym 0x00FFFFFF ≡ keysym % 16777216
low_character keysym =
    ap (λ (x : ℕ). bit_and x (2 ^ 24 - 1)) (above_24 keysym)
    ∙ bit_and-low 24 (keysym / 2 ^ 24) (keysym % 2 ^ 24) (omega arith)

mark_byte : (q : ℕ) → bit_and q 255 ≡ q % 256
mark_byte q =
    ap (λ (x : ℕ). bit_and x (2 ^ 8 - 1)) (above_8 q)
    ∙ bit_and-low 8 (q / 2 ^ 8) (q % 2 ^ 8) (omega arith)

mark : (keysym : ℕ) → bit_and keysym 0xFF000000 ≡ keysym / 16777216 % 256 * 16777216
mark keysym =
    ap (λ (x : ℕ). bit_and x (255 * 2 ^ 24)) (above_24 keysym)
    ∙ bit_and-high 24 (keysym / 2 ^ 24) (keysym % 2 ^ 24) 255 (omega arith)
    ∙ ap (λ (x : ℕ). x * 2 ^ 24) (mark_byte (keysym / 2 ^ 24))

masked_character_of-character_of : (keysym : ℕ) → masked_character_of keysym ≡ character_of keysym
unfolding masked_character_of character_of is_latin1
masked_character_of-character_of keysym =
    ground (arith, mark keysym, ap some (low_character keysym))

-- For every keysym and size, `keysym_to_unicode` writes nothing if there is no room. Else, for a Latin 1
-- keysym it writes the keysym; for one whose bits from 24 to 31 are 1, the lowest 16 of its lowest 24 bits,
-- so that a character above U+FFFF is cut; for any other, the character of the first row of the
-- table that has the keysym, as a scan from the start finds it, and nothing if there is none.
pub keysym_to_unicode-character_of :
    (keysym size : ℕ) → keysym_to_unicode keysym size ≡ put_character size (character_of keysym)
keysym_to_unicode-character_of keysym size =
    keysym_to_unicode-masked_character_of keysym size
    ∙ put_coded-put_character size _
    ∙ ap (put_character size) (masked_character_of-character_of keysym)
