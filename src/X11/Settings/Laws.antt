-- ===== src/X11/Settings/Laws.antt =====
-- src/x11/system_properties.c: the displays and the screen resources that are given back.
use libuiohook.Prelude.{ℕ, ◌+◌, ◌≡◌, refl, Bool, true, List, [], ◌∷◌, arith, if◌then◌else◌, if_both}
use libuiohook.X11.Helper.State.{unload_input_helper}
use libuiohook.X11.Settings.{
  Settings, open_display, close_display, free_resources, get_resources, settings_cleanup_proc,
  SettingsEvent, settings_event, settings_events, ThreadAnswers, settings_thread_proc,
  on_library_load, on_library_unload,
}

-- Beside `n` of others, the resources that the static points to are allocated.
abbrev pub Beside : ℕ → Settings → Type 0
Beside n s = s.resources ≡ (if s.has_resources then n + 1 else n)

-- What a run of events keeps.
pub record Keeps (n d : ℕ) (s : Settings) : Type 0 where
  pub resources : Beside n s
  pub displays : s.displays ≡ d

event-Keeps :
    (n d : ℕ) (e : SettingsEvent) (s : Settings) → Keeps n d s → Keeps n d (settings_event e s)
unfolding settings_event get_resources free_resources
event-Keeps n d e s k = record { resources = ground arith; displays = ground arith }

events-Keeps :
    (n d : ℕ) (es : List SettingsEvent) (s : Settings)
    → Keeps n d s
    → Keeps n d (settings_events es s)
unfolding settings_events
events-Keeps n d [] s k = k
events-Keeps n d (e ∷ es) s k = events-Keeps n d es _ (event-Keeps n d e s k)

cleanup-Keeps :
    (n d : ℕ) (s : Settings)
    → Keeps n (d + 1) s
    → ((settings_cleanup_proc true s).resources ≡ n) × ((settings_cleanup_proc true s).displays ≡ d)
unfolding settings_cleanup_proc close_display free_resources
cleanup-Keeps n d s k = ground arith

-- In the build with XRandR, whatever screen changes come, the thread that follows them gives back when
-- it ends its display and the screen resources, those it found included, if the mutex is free then.
pub settings_thread_proc_released :
    (n : ℕ) (a : ThreadAnswers) (s : Settings)
    → a.opens ≡ true
    → a.is_free ≡ true
    → s.resources ≡ (if s.has_resources then n + 1 else n)
    → ((settings_thread_proc a s).resources ≡ n)
      × ((settings_thread_proc a s).displays ≡ s.displays)
unfolding settings_thread_proc open_display
settings_thread_proc_released n a s opens free owns =
    simp (opens, free)
      (cleanup-Keeps n s.displays _ (
        if_both (Keeps n (s.displays + 1)) a.has_extension (events-Keeps n _ a.events _ start)
          start))
  where
    start : Keeps n (s.displays + 1) (record s { displays = s.displays + 1 })
    start = record { resources = owns; displays = refl }

-- Loading and unloading the library closes the displays that were opened, whichever of them open.
pub on_library_unload_displays :
    (opens toolkit_opens : Bool) (s : Settings)
    → (on_library_unload (on_library_load opens toolkit_opens s)).displays ≡ s.displays
unfolding on_library_unload on_library_load open_display close_display unload_input_helper
on_library_unload_displays opens toolkit_opens s = ground arith
