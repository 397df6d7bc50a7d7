-- ===== src/X11/Screens.antt =====
-- src/x11/system_properties.c: `hook_create_screen_info` in the builds with Xinerama, with XRandR and
-- with neither.
pub mod Laws
use libuiohook.Prelude.{
  ℕ, suc, ◌+◌, ◌-◌, Bool, ◌&&◌, List, [], ◌∷◌, map, Option, none, some, length, ltb, ℤ, pos, ltb_ℤ,
  if◌then◌else◌,
}
use libuiohook.Event.{ScreenData}
use libuiohook.Screens.{Block, Screens, no_screens, fresh, store_all, screen}

-- `XineramaScreenInfo`, the `XRRCrtcInfo` of a controller, or the default screen.
pub record Area : Type 0 where
  pub number : ℕ
  pub x : ℤ
  pub y : ℤ
  pub width : ℤ
  pub height : ℤ

-- The build, with what it is answered: the screens of `XineramaQueryScreens`, none if it is not active
-- and none inside if it returns NULL; the information on each controller, none if
-- `xrandr_resources` is NULL; or the default screen.
pub data Source : Type 0 where
  xinerama : Option (Option (List Area)) → Source
  xrandr : Option (List (Option Area)) → Source
  default : Area → Source

pub record ScreenAnswers : Type 0 where
  -- Whether `helper_disp` is not NULL.
  pub has_display : Bool
  pub source : Source
  -- Whether `malloc` has memory.
  pub granted : Bool

-- The number of screens, held at UINT8_MAX.
unfoldable pub bounded : ℕ → ℕ
bounded n = if ltb 255 n then 255 else n

unfoldable pub xinerama_entry : Area → Option ScreenData
xinerama_entry a = some (screen a.number a.x a.y a.width a.height)

-- The controllers are numbered from 1 on; of one that there is no information on, nothing is stored.
unfoldable pub crtc_entries : ℕ → List (Option Area) → Block
crtc_entries i [] = []
crtc_entries i (none ∷ cs) = none ∷ crtc_entries (suc i) cs
crtc_entries i (some a ∷ cs) =
    some (screen (i + 1) a.x a.y a.width a.height) ∷ crtc_entries (suc i) cs

filled : ℕ → Option Block → Option Screens
filled count none = none
filled count (some cells) = some (record { count = count; cells = some cells; blocks = 1 })

-- `malloc` of a cell for each of the entries, and the loop that stores them; the count is set before.
unfoldable pub allocate : Bool → Block → Option Screens
unfolding filled
allocate granted entries =
    if granted
    then filled (bounded (length entries)) (store_all 0 entries (fresh (length entries)))
    else some (record no_screens { count = bounded (length entries) })

-- `XFree` of the list from Xinerama, which was allocated for it.
unfoldable pub x_free : Option Screens → Option Screens
x_free none = none
x_free (some s) = some (record s { blocks = s.blocks + 1 - 1 })

unfoldable pub default_screen : Bool → Area → Screens
default_screen granted a =
    if ltb_ℤ (pos 0) a.width && ltb_ℤ (pos 0) a.height && granted
    then record {
      count = 1;
      cells = some (some (screen 1 (pos 0) (pos 0) a.width a.height) ∷ []);
      blocks = 1;
    }
    else no_screens

unfoldable pub from_source : Bool → Source → Option Screens
from_source granted (xinerama none) = some no_screens
from_source granted (xinerama (some none)) = some no_screens
from_source granted (xinerama (some (some areas))) =
    x_free (allocate granted (map xinerama_entry areas))
from_source granted (xrandr none) = some no_screens
from_source granted (xrandr (some crtcs)) = allocate granted (crtc_entries 0 crtcs)
from_source granted (default a) = some (default_screen granted a)

unfoldable pub hook_create_screen_info : ScreenAnswers → Option Screens
hook_create_screen_info a =
    if a.has_display then from_source a.granted a.source else some no_screens
