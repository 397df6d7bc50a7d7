-- ===== src/Windows/Examples/Layouts.antt =====
-- Keyboard layouts on Windows at concrete inputs.
use libuiohook.Prelude.{
  ℕ, ◌≡◌, refl, false, List, [], ◌∷◌, ◌==◌, Option, none, some, arith, if◌then◌else◌,
}
use libuiohook.Windows.Layout.{DeadKey, Locale, Locales}
use libuiohook.Windows.Layout.Cache.{LayoutAnswers, refresh_locale_list}
use libuiohook.Windows.Layout.Unicode.{Typed, wch_none, compose, apply_dead_keys}
use libuiohook.Windows.Layout.Links.{is_some, refresh_locale_list-is_some}
use libuiohook.Windows.Layout.DeadKeys.{apply_dead_keys-find_dead}

abbrev locale : ℕ → Locale
locale id = record { id = id; vk_to_bit = 0x10 ∷ []; vk_to_wchar_table = []; dead_keys = [] }

-- Layouts 7 and 9 are cached, and 9 is current.
abbrev locales : Locales
locales = record { cached = locale 7 ∷ locale 9 ∷ []; current = some 9; dead_char = wch_none }

abbrev load : ℕ → Option Locale
load h = if h == 11 then some (locale 0) else none

abbrev answers : List ℕ → LayoutAnswers
answers layouts = record { layouts = layouts; focus = 7; load = load }

refresh_locale_list-is_some_example :
    is_some (refresh_locale_list (answers (9 ∷ 11 ∷ [])) locales) ≡ false
refresh_locale_list-is_some_example = refresh_locale_list-is_some (answers (9 ∷ 11 ∷ [])) locales

-- Layout 9 is removed, 11 is new and 12 cannot be loaded.
abbrev refreshed : Locales
refreshed = record { cached = locale 7 ∷ locale 11 ∷ []; current = some 7; dead_char = wch_none }

-- The acute accent was kept and the letter e is typed.
abbrev typed : Typed
typed = record { buffer0 = 0x65; buffer1 = 0; count = 1; modification = 0; dead_char = 0xB4 }

abbrev accents : List DeadKey
accents =
    record { base = 0x61; diacritic = 0xB4; composed = 0xE1 }
    ∷ record { base = 0x65; diacritic = 0xB4; composed = 0xE9 }
    ∷ []

apply_dead_keys-find_dead_example :
    apply_dead_keys 4 accents typed
    ≡ record { buffer0 = 0xE9; buffer1 = 0; count = 1; modification = 0; dead_char = wch_none }
unfolding compose libuiohook.Windows.Layout.DeadKeys.find_dead
    libuiohook.Windows.Layout.Unicode.fill_one
apply_dead_keys-find_dead_example =
    apply_dead_keys-find_dead 4 accents typed refl (omega arith) (omega arith)
