-- ===== src/Screens.antt =====
-- The block of screens that `hook_create_screen_info` fills on each platform (the type is
-- `screen_data` of include/uiohook.h). A cell that was allocated and not written is `none`.
use libuiohook.Prelude.{
  ℕ, zero, suc, ◌-◌, ◌%◌, ◌≡◌, ◌≤◌, refl, ap, ◌∙◌, List, [], ◌∷◌, ◌++◌, Option, none, some, length,
  replicate, length-append, arith, ℤ, pos, negsuc, u16,
}
use mathlib.Core.List.{append_assoc}
use libuiohook.Event.{ScreenData}

abbrev pub Block : Type 0
Block = List (Option ScreenData)

-- What a caller gets: `*count`, the array or NULL, and how many blocks stay allocated, those of the
-- system included.
pub record Screens : Type 0 where
  pub count : ℕ
  pub cells : Option Block
  pub blocks : ℕ

abbrev pub no_screens : Screens
no_screens = record { count = 0; cells = none; blocks = 0 }

-- An `int` cut to 16 bits.
unfoldable pub word16 : ℤ → ℕ
word16 (pos n) = u16 n
word16 (negsuc n) = 65535 - n % 65536

-- The compound literal that is stored, with each member cut to its type.
unfoldable pub screen : ℕ → ℤ → ℤ → ℤ → ℤ → ScreenData
screen number x y width height = record {
  number = number % 256;
  x = word16 x;
  y = word16 y;
  width = word16 width;
  height = word16 height;
}

keep_cell : Option ScreenData → Option Block → Option Block
keep_cell c none = none
keep_cell c (some cells) = some (c ∷ cells)

-- `data[i] = s`; outside the block the result is `none`.
unfoldable pub store : ℕ → ScreenData → Block → Option Block
unfolding keep_cell
store i s [] = none
store zero s (c ∷ cells) = some (some s ∷ cells)
store (suc i) s (c ∷ cells) = keep_cell c (store i s cells)

-- `realloc` to `n` cells, whose first ones keep what they hold.
unfoldable pub resize : ℕ → Block → Block
resize zero cells = []
resize (suc n) [] = none ∷ resize n []
resize (suc n) (c ∷ cells) = c ∷ resize n cells

-- `malloc` of `n` cells.
abbrev pub fresh : ℕ → Block
fresh n = replicate n none

-- The loop over what the system answered: entry `i` goes to cell `i`, and an entry that there is not
-- leaves its cell as it is.
store_entry : ℕ → Option ScreenData → Block → Option Block
store_entry i none cells = some cells
store_entry i (some s) cells = store i s cells

unfoldable pub store_all : ℕ → List (Option ScreenData) → Block → Option Block
unfolding store_entry
store_all i [] cells = some cells
store_all i (e ∷ es) cells = elim (store_entry i e cells) [
  | none ↦ none
  | some written ↦ store_all (suc i) es written
]

-- A write to the cell behind those in front.
store-append :
    (done rest : Block) (c : Option ScreenData) (s : ScreenData)
    → store (length done) s (done ++ c ∷ rest) ≡ some (done ++ some s ∷ rest)
unfolding store
store-append [] rest c s = refl
store-append (d ∷ done) rest c s = ap (keep_cell d) (store-append done rest c s)

-- One more cell, and the write to it.
resize-append : (cells : Block) → resize (suc (length cells)) cells ≡ cells ++ none ∷ []
unfolding resize
resize-append [] = refl
resize-append (c ∷ cells) = ap (λ (r : Block). c ∷ r) (resize-append cells)

pub store-resize :
    (cells : Block) (s : ScreenData)
    → store (length cells) s (resize (suc (length cells)) cells) ≡ some (cells ++ some s ∷ [])
store-resize cells s =
    ap (store (length cells) s) (resize-append cells) ∙ store-append cells [] none s

pub store-short :
    (i : ℕ) (s : ScreenData) (cells : Block) → length cells ≤ i → store i s cells ≡ none
unfolding store
store-short i s [] h = refl
store-short zero s (c ∷ cells) h = absurd (omega arith)
store-short (suc i) s (c ∷ cells) h = ap (keep_cell c) (store-short i s cells (omega arith))

store_entry-append :
    (done rest : Block) (e : Option ScreenData)
    → store_entry (length done) e (done ++ none ∷ rest) ≡ some (done ++ e ∷ rest)
unfolding store_entry
store_entry-append done rest none = refl
store_entry-append done rest (some s) = store-append done rest none s

store_all-append :
    (done es : Block) → store_all (length done) es (done ++ fresh (length es)) ≡ some (done ++ es)
unfolding store_all
store_all-append done [] = refl
store_all-append done (e ∷ es) =
    rw (store_all, store_entry-append done (fresh (length es)) e)
      (rw (← append_assoc done (e ∷ []) (fresh (length es)), ← append_assoc done (e ∷ []) es)
        (ap (λ (i : ℕ). store_all i es ((done ++ e ∷ []) ++ fresh (length es))) grown
          ∙ store_all-append (done ++ e ∷ []) es))
  where
    grown : suc (length done) ≡ length (done ++ e ∷ [])
    grown = omega (arith, length-append done (e ∷ []))

-- A fresh block of as many cells ends up with the entries, and no write leaves it.
pub store_all-fresh : (es : Block) → store_all 0 es (fresh (length es)) ≡ some es
store_all-fresh es = store_all-append [] es
