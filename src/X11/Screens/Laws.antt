-- ===== src/X11/Screens/Laws.antt =====
-- src/x11/system_properties.c: what a caller of `hook_create_screen_info` reads.
use libuiohook.Prelude.{min, Bool, map, Option, none, some, length, if◌then◌else◌}
use libuiohook.Screens.{Block, Screens}
use libuiohook.X11.Screens.{Source, xinerama, xrandr, default, xinerama_entry, crtc_entries}

-- The screens that the system names, if it was asked for a list and gave one. A controller that there
-- is no information on keeps its place.
abbrev pub entries_of : Source → Option Block
entries_of (xinerama none) = none
entries_of (xinerama (some none)) = none
entries_of (xinerama (some (some areas))) = some (map xinerama_entry areas)
entries_of (xrandr none) = none
entries_of (xrandr (some crtcs)) = some (crtc_entries 0 crtcs)
entries_of (default a) = none

-- What is expected for these entries.
abbrev pub screens_of : Bool → Block → Screens
screens_of granted entries = record {
  count = min (length entries) 255;
  cells = if granted then some entries else none;
  blocks = if granted then 1 else 0;
}

abbrev answered : Bool → Option Block → Option Screens
answered granted none = none
answered granted (some entries) = some (screens_of granted entries)
