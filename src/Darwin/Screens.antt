-- ===== src/Darwin/Screens.antt =====
-- src/darwin/system_properties.c: `hook_create_screen_info`. A coordinate is in 65536ths of a point.
pub mod Laws
use libuiohook.Prelude.{
  ℕ, zero, suc, ◌+◌, ◌-◌, ◌/◌, ◌%◌, Bool, ◌&&◌, List, [], ◌∷◌, Option, none, some, ltb, ℤ, pos,
  negsuc, neg, ltb_ℤ, if◌then◌else◌,
}
use libuiohook.Event.{ScreenData}
use libuiohook.Screens.{Block, Screens, fresh, store_all, screen}

-- `CGDisplayBounds`.
pub record Bounds : Type 0 where
  pub x : ℤ
  pub y : ℤ
  pub width : ℤ
  pub height : ℤ

-- The conversion of a floating-point number to an integer, towards 0.
unfoldable pub truncate : ℤ → ℤ
truncate (pos n) = pos (n / 65536)
truncate (negsuc n) = neg (pos (suc n / 65536))

-- What `CGGetActiveDisplayList` stores through its pointer to a 32-bit count, if it stores anything, and
-- whether it succeeds; the bounds of the displays by their index; the sizes of the main display in
-- pixels; and whether there is memory for the ids and for the screens.
pub record ScreenAnswers : Type 0 where
  pub written : Option ℕ
  pub success : Bool
  pub bounds : ℕ → Bounds
  pub width : ℕ
  pub height : ℕ
  pub ids_granted : Bool
  pub granted : Bool

-- What the caller has afterwards: the screens, and the three bytes behind its `count`.
pub record Answered : Type 0 where
  pub screens : Screens
  pub behind : List ℕ

-- The lowest byte of a 32-bit number in memory, and the three that follow.
unfoldable pub low_byte : ℕ → ℕ
low_byte n = n % 256

unfoldable pub high_bytes : ℕ → List ℕ
high_bytes n = n / 256 % 256 ∷ n / 65536 % 256 ∷ n / 16777216 % 256 ∷ []

unfoldable pub display_entry : ℕ → Bounds → Option ScreenData
display_entry i b =
    if ltb_ℤ (pos 0) b.width && ltb_ℤ (pos 0) b.height
    then some (screen (i + 1) (truncate b.x) (truncate b.y) (truncate b.width) (truncate b.height))
    else none

-- The screens of the displays from `i` on, `n` of them.
unfoldable pub display_entries : (ℕ → Bounds) → ℕ → ℕ → Block
display_entries bounds i zero = []
display_entries bounds i (suc n) = display_entry i (bounds i) ∷ display_entries bounds (suc i) n

unfoldable pub stored : ℕ → Option Block → Option Screens
stored count none = none
stored count (some cells) = some (record { count = count; cells = some cells; blocks = 1 })

-- `malloc` and the loop over the displays.
unfoldable pub list_displays : Bool → (ℕ → Bounds) → ℕ → Option Screens
unfolding stored
list_displays granted bounds count =
    if granted
    then stored count (store_all 0 (display_entries bounds 0 count) (fresh count))
    else some (record { count = count; cells = none; blocks = 0 })

-- The main display, if it has a size and there is memory; else the count stays.
unfoldable pub fall_back : ScreenAnswers → ℕ → Screens
fall_back a count =
    if ltb 0 a.width && ltb 0 a.height && a.granted
    then record {
      count = 1;
      cells = some (some (screen 1 (pos 0) (pos 0) (pos a.width) (pos a.height)) ∷ []);
      blocks = 1;
    }
    else record { count = count; cells = none; blocks = 0 }

-- With `*count` after the call.
unfoldable pub query : ScreenAnswers → ℕ → Option Screens
query a count =
    if a.success && ltb 0 count
    then list_displays a.granted a.bounds count
    else some (fall_back a count)

-- `malloc` and `free` of the ids around the rest.
unfoldable pub with_ids : List ℕ → Option Screens → Option Answered
with_ids behind none = none
with_ids behind (some s) =
    some (record { screens = record s { blocks = s.blocks + 1 - 1 }; behind = behind })

-- The count and what follows, where the system stored a number or did not.
unfoldable pub with_count : ScreenAnswers → List ℕ → Option ℕ → Option Answered
unfolding with_ids
with_count a behind none = with_ids behind (query a 0)
with_count a behind (some n) = with_ids (high_bytes n) (query a (low_byte n))

unfoldable pub no_answer : List ℕ → Answered
no_answer behind = record {
  screens = record { count = 0; cells = none; blocks = 0 };
  behind = behind;
}

-- `behind` is what the three bytes hold before.
unfoldable pub hook_create_screen_info : ScreenAnswers → List ℕ → Option Answered
hook_create_screen_info a behind =
    if a.ids_granted then with_count a behind a.written else some (no_answer behind)
