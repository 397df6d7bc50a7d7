-- ===== src/Windows/Layout/Unicode.antt =====
-- src/windows/input_helper.c: `keycode_to_unicode`.
use libuiohook.Prelude.{
  ℕ, ◌+◌, ◌-◌, ◌*◌, ◌%◌, Bool, false, ◌&&◌, ◌||◌, not, List, [], ◌∷◌, Option, none, some, ltb, leb,
  ◌==◌, if◌then◌else◌, get_or,
}
use libuiohook.Windows.Layout.{WcharRow, WcharTable, DeadKey, Locale, Locales}
use libuiohook.Windows.Layout.Cache.{LayoutAnswers, refresh_locale_list}

abbrev pub wch_none : ℕ
wch_none = 0xF000

abbrev pub wch_dead : ℕ
wch_dead = 0xF001

abbrev pub caplok : ℕ
caplok = 0x01

-- A key with the answers for it: the layout of the window in focus, whether caps lock is on and each key
-- is down, and what is refreshed if that layout is not in the cache.
pub record KeyAnswers : Type 0 where
  pub locale_id : ℕ
  pub caps_lock : Bool
  pub is_down : ℕ → Bool
  pub layouts : LayoutAnswers

-- The two units of the buffer, how many are written, the modification and `deadChar`.
pub record Typed : Type 0 where
  pub buffer0 : ℕ
  pub buffer1 : ℕ
  pub count : ℕ
  pub modification : ℕ
  pub dead_char : ℕ

unfoldable pub find_locale : ℕ → List Locale → Option Locale
find_locale id [] = none
find_locale id (l ∷ ls) = let rest = find_locale id ls in if l.id == id then some l else rest

-- Whether a modifier of the layout is down: `VK_SHIFT`, `VK_CONTROL` or `VK_MENU`.
unfoldable pub modifier_down : ℕ → List ℕ → (ℕ → Bool) → Bool
modifier_down vk [] is_down = false
modifier_down vk (k ∷ ks) is_down =
    let rest = modifier_down vk ks is_down in (k == vk && is_down k) || rest

unfoldable pub is_shift : Locale → KeyAnswers → Bool
is_shift l a = modifier_down 0x10 l.vk_to_bit a.is_down

unfoldable pub first_mod : Locale → KeyAnswers → ℕ
first_mod l a =
    let alt_gr =
      modifier_down 0x11 l.vk_to_bit a.is_down && modifier_down 0x12 l.vk_to_bit a.is_down in
    (if is_shift l a then 1 else 0) + (if alt_gr then 3 else 0)

-- Caps lock moves the modification of a key that heeds it.
unfoldable pub caps_mod : KeyAnswers → Bool → WcharRow → ℕ → ℕ
caps_mod a shift row modification =
    if row.attributes == caplok && a.caps_lock
    then (if shift && ltb 0 modification then modification - 1 else modification + 1)
    else modification

-- `memset(buffer, c, 2)` and `memset(buffer, c, 1)` fill bytes, with the low byte of `c`.
unfoldable pub fill_two : ℕ → ℕ
fill_two c = c % 256 * 256 + c % 256

unfoldable pub fill_one : ℕ → ℕ → ℕ
fill_one c old = old - old % 256 + c % 256

-- The row of the key is found: `next` is the row behind it, where a dead key has its character.
unfoldable pub type_row : KeyAnswers → Bool → ℕ → WcharRow → WcharRow → Typed → Typed
type_row a shift size row next t =
    let modification = caps_mod a shift row t.modification in
    let unicode = get_or row.wch modification row.beyond in
    let moved : Typed = record t { modification = modification } in
    if unicode == wch_dead
    then (if t.dead_char == wch_none
        then record moved { dead_char = get_or next.wch modification next.beyond }
        else if leb 2 size
        then record moved { buffer0 = fill_two t.dead_char; dead_char = wch_none; count = 2 }
        else moved)
    else if not (unicode == wch_none) && leb 1 size
    then record moved { buffer0 = unicode; count = 1 }
    else moved

unfoldable pub next_row : List WcharRow → WcharRow → WcharRow
next_row [] ending = ending
next_row (row ∷ rows) ending = row

-- The loop over the rows ends at the key.
unfoldable pub type_rows : KeyAnswers → Bool → ℕ → ℕ → List WcharRow → WcharRow → Typed → Typed
type_rows a shift size keycode [] ending t = t
type_rows a shift size keycode (row ∷ rows) ending t =
    let rest = type_rows a shift size keycode rows ending t in
    if row.virtual_key == keycode then type_row a shift size row (next_row rows ending) t else rest

-- The loop over the tables goes on to the last one.
unfoldable pub type_tables : KeyAnswers → Bool → ℕ → ℕ → List WcharTable → Typed → Typed
type_tables a shift size keycode [] t = t
type_tables a shift size keycode (table ∷ tables) t = type_tables a shift size keycode tables (
    if table.has_rows && ltb t.modification table.count
    then type_rows a shift size keycode table.rows table.ending t
    else t)

-- The last `memset`, of as many bytes as there are units.
unfoldable pub compose : ℕ → Typed → Typed
compose composed t =
    if t.count == 1
    then record t { buffer0 = fill_one composed t.buffer0 }
    else if t.count == 2
    then record t { buffer0 = fill_two composed }
    else t

-- The loop over the dead keys of the layout.
unfoldable pub apply_dead_keys : ℕ → List DeadKey → Typed → Typed
apply_dead_keys size [] t = t
apply_dead_keys size (d ∷ ds) t = apply_dead_keys size ds (
    if leb 1 size && d.base == t.buffer0 && d.diacritic == t.dead_char
    then (let reset : Typed = record t { dead_char = wch_none } in
        if leb t.count size then compose d.composed reset else reset)
    else t)

-- From the current locale on; `stale` is what the buffer holds before.
unfoldable pub type_key : KeyAnswers → Locale → ℕ → ℕ → ℕ × ℕ → ℕ → Typed
type_key a l keycode size stale dead_char =
    let start : Typed = record {
      buffer0 = stale.0;
      buffer1 = stale.1;
      count = 0;
      modification = first_mod l a;
      dead_char = dead_char;
    } in
    let t = type_tables a (is_shift l a) size keycode l.vk_to_wchar_table start in
    if t.dead_char == wch_none then t else apply_dead_keys size l.dead_keys t

-- The units that are written, of those in the buffer.
unfoldable pub units_of : Typed → List ℕ
units_of t =
    if t.count == 0 then [] else if t.count == 1 then t.buffer0 ∷ [] else t.buffer0 ∷ t.buffer1 ∷ []

-- The state with the locale that is switched to, `none` where refreshing the list fails.
unfoldable pub switch_locale : KeyAnswers → Locales → Option Locales
switch_locale a s = elim (find_locale a.locale_id s.cached) [
  | some l ↦ some (record s { current = some a.locale_id; dead_char = wch_none })
  | none ↦ elim (refresh_locale_list a.layouts (record s { current = none })) [
    | none ↦ none
    | some r ↦ some r.0
  ]
]

unfoldable pub is_current : ℕ → Option ℕ → Bool
is_current id none = false
is_current id (some c) = c == id

-- The locale that `locale_current` points to.
unfoldable pub current_locale : Locales → Option Locale
current_locale s = elim s.current [ none ↦ none | some id ↦ find_locale id s.cached ]

unfoldable pub keycode_to_unicode : KeyAnswers → ℕ → ℕ → ℕ × ℕ → Locales → Option (Locales × List ℕ)
keycode_to_unicode a keycode size stale s =
    elim (if is_current a.locale_id s.current then some s else switch_locale a s)
      as (λ o. Option (Locales × List ℕ)) [
        | none ↦ none
        | some s1 ↦ elim (current_locale s1) as (λ o. Option (Locales × List ℕ)) [
          | none ↦ some (s1, [])
          | some l ↦
              let t = type_key a l keycode size stale s1.dead_char in
              some (record s1 { dead_char = t.dead_char }, units_of t)
        ]
      ]
