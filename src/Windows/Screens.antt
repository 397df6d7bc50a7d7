-- ===== src/Windows/Screens.antt =====
-- src/windows/system_properties.c: `hook_create_screen_info` with `monitor_enum_proc`.
mod Cells
pub mod Laws
use libuiohook.Prelude.{
  ℕ, suc, ◌+◌, ◌%◌, Bool, ◌&&◌, ◌||◌, not, List, [], ◌∷◌, Option, none, some, ◌==◌, ℤ, pos, ◌+ℤ◌,
  neg, ltb_ℤ, if◌then◌else◌,
}
use libuiohook.Screens.{Block, Screens, no_screens, fresh, resize, store, screen}

-- A monitor as `EnumDisplayMonitors` hands it to the callback, and whether the memory that the callback
-- asks for is there.
pub record Monitor : Type 0 where
  pub left : ℤ
  pub top : ℤ
  pub right : ℤ
  pub bottom : ℤ
  pub granted : Bool

unfoldable pub width_of : Monitor → ℤ
width_of m = m.right +ℤ neg m.left

unfoldable pub height_of : Monitor → ℤ
height_of m = m.bottom +ℤ neg m.top

unfoldable pub has_area : ℤ → ℤ → Bool
has_area width height = ltb_ℤ (pos 0) width && ltb_ℤ (pos 0) height

-- `malloc` of one cell for NULL, else `realloc` to `count` cells. NULL where there is no memory: the old
-- block then stays.
unfoldable pub grow : Bool → ℕ → Screens → Screens
grow granted count s = elim s.cells [
  | none ↦
      if granted
      then record { count = count; cells = some (fresh 1); blocks = s.blocks + 1 }
      else record s { count = count }
  | some cells ↦
      if granted
      then record { count = count; cells = some (resize count cells); blocks = s.blocks }
      else record s { count = count; cells = none }
]

unfoldable pub numbered : ℕ → Monitor → Option Block → Option Block
numbered current m none = none
numbered current m (some cells) =
    store current (screen ((current + 1) % 256) m.left m.top (width_of m) (height_of m)) cells

unfoldable pub with_cells : Screens → Option Block → Option Screens
with_cells s none = none
with_cells s (some cells) = some (record s { cells = some cells })

-- The callback, whose count has 8 bits. A write through NULL or outside the block is `none`.
unfoldable pub monitor_enum_proc : Monitor → Screens → Option Screens
unfolding with_cells
monitor_enum_proc m s =
    if has_area (width_of m) (height_of m)
    then (let grown = grow m.granted ((s.count + 1) % 256) s in
        with_cells grown (numbered s.count m grown.cells))
    else some s

unfoldable pub enumerate : List Monitor → Screens → Option Screens
enumerate [] s = some s
enumerate (m ∷ ms) s = elim (monitor_enum_proc m s) [ none ↦ none | some s' ↦ enumerate ms s' ]

-- The monitors that `EnumDisplayMonitors` goes through with what it returns, and for the fallback the
-- two sizes of `GetSystemMetrics` and whether `malloc` has memory.
pub record ScreenAnswers : Type 0 where
  pub monitors : List Monitor
  pub status : Bool
  pub width : ℤ
  pub height : ℤ
  pub granted : Bool

-- The fallback stores its block over the one that the callbacks made.
unfoldable pub fall_back : ScreenAnswers → Screens → Screens
fall_back a s =
    if has_area a.width a.height
    then (if a.granted
        then record {
          count = 1;
          cells = some (some (screen 1 (pos 0) (pos 0) a.width a.height) ∷ []);
          blocks = s.blocks + 1;
        }
        else record s { count = 0; cells = none })
    else record s { count = 0 }

unfoldable pub finish : ScreenAnswers → Screens → Screens
finish a s = if not a.status || s.count == 0 then fall_back a s else s

unfoldable pub hook_create_screen_info : ScreenAnswers → Option Screens
hook_create_screen_info a = elim (enumerate a.monitors no_screens) [
  | none ↦ none
  | some s ↦ some (finish a s)
]
