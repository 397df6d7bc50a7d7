-- ===== src/X11/Settings.antt =====
-- src/x11/system_properties.c: loading and unloading the library, with the X Toolkit, and the thread
-- that follows the screens in the build with XRandR.
pub mod Laws
use libuiohook.Prelude.{ℕ, ◌+◌, ◌-◌, Bool, true, false, List, [], ◌∷◌, ◌==◌, if◌then◌else◌}
use libuiohook.X11.Helper.State.{Helper, unload_input_helper}

-- The statics, with how many displays are open and how many screen resources are allocated.
pub record Settings : Type 0 where
  pub helper : Helper
  pub has_toolkit : Bool
  pub has_resources : Bool
  pub displays : ℕ
  pub resources : ℕ

unfoldable pub open_display : Bool → Settings → Settings
open_display opens s = if opens then record s { displays = s.displays + 1 } else s

unfoldable pub close_display : Bool → Settings → Settings
close_display is_open s = if is_open then record s { displays = s.displays - 1 } else s

-- `XRRFreeScreenResources`, where there are some.
unfoldable pub free_resources : Settings → Settings
free_resources s = if s.has_resources then record s { resources = s.resources - 1 } else s

-- `xrandr_resources` after `XRRGetScreenResources`.
unfoldable pub get_resources : Bool → Settings → Settings
get_resources found s = record s {
  has_resources = found;
  resources = if found then s.resources + 1 else s.resources;
}

-- `settings_cleanup_proc`, with whether the mutex is free.
unfoldable pub settings_cleanup_proc : Bool → Settings → Settings
settings_cleanup_proc is_free s =
    if is_free then close_display true (record (free_resources s) { has_resources = false }) else s

-- An event by its type, counted from `event_base` on, and whether there are resources then.
pub record SettingsEvent : Type 0 where
  pub offset : ℕ
  pub found : Bool

-- The type is compared with `RRScreenChangeNotifyMask`, which the header gives as 1.
unfoldable pub settings_event : SettingsEvent → Settings → Settings
settings_event e s = if e.offset == 1 then get_resources e.found (free_resources s) else s

unfoldable pub settings_events : List SettingsEvent → Settings → Settings
settings_events [] s = s
settings_events (e ∷ es) s = settings_events es (settings_event e s)

-- `settings_thread_proc` until it is cancelled: whether the display opens and has the extension, the
-- events until then, and whether the mutex is free.
pub record ThreadAnswers : Type 0 where
  pub opens : Bool
  pub has_extension : Bool
  pub events : List SettingsEvent
  pub is_free : Bool

unfoldable pub settings_thread_proc : ThreadAnswers → Settings → Settings
settings_thread_proc a s =
    if a.opens
    then (let opened = open_display true s in
        settings_cleanup_proc a.is_free
          (if a.has_extension then settings_events a.events opened else opened))
    else s

-- `helper_disp` and `xt_disp` are stored as they open.
unfoldable pub on_library_load : Bool → Bool → Settings → Settings
on_library_load opens toolkit_opens s = open_display toolkit_opens (
    open_display opens (record s {
      helper = record (s.helper) { helper_disp = opens };
      has_toolkit = toolkit_opens;
    }))

-- `xt_disp` is not set to NULL.
unfoldable pub on_library_unload : Settings → Settings
on_library_unload s =
    let unloaded : Settings = record s { helper = unload_input_helper s.helper } in
    let closed = close_display unloaded.helper.helper_disp (close_display s.has_toolkit unloaded) in
    record closed { helper = record (closed.helper) { helper_disp = false } }
