-- ===== src/Windows/Layout.antt =====
-- src/windows/input_helper.c: the cache of keyboard layouts and the characters of a key. The tables
-- that the layout libraries hold are lists here, and what Windows answers is an argument.
pub mod Cache
pub mod Unicode
pub mod Links
pub mod Pruning
pub mod Current
pub mod DeadKeys
use libuiohook.Prelude.{ℕ, Bool, List, Option}

-- `VK_TO_WCHARS`: a key, its attributes and its characters by modification, with what the memory
-- behind them reads.
pub record WcharRow : Type 0 where
  pub virtual_key : ℕ
  pub attributes : ℕ
  pub wch : List ℕ
  pub beyond : ℕ

-- `VK_TO_WCHAR_TABLE`: whether `pVkToWchars` is not NULL, how many characters a row has, and the rows,
-- with the row of key 0 that ends them.
pub record WcharTable : Type 0 where
  pub has_rows : Bool
  pub count : ℕ
  pub rows : List WcharRow
  pub ending : WcharRow

-- `DEADKEY`, with the two halves of `dwBoth`.
pub record DeadKey : Type 0 where
  pub base : ℕ
  pub diacritic : ℕ
  pub composed : ℕ

-- `KeyboardLocale`: the handle of the layout and its three tables.
pub record Locale : Type 0 where
  pub id : ℕ
  pub vk_to_bit : List ℕ
  pub vk_to_wchar_table : List WcharTable
  pub dead_keys : List DeadKey

-- The list from `locale_first` on, the handle of `locale_current`, and `deadChar`. The handles in the
-- list are distinct, so one names its locale.
pub record Locales : Type 0 where
  pub cached : List Locale
  pub current : Option ℕ
  pub dead_char : ℕ
