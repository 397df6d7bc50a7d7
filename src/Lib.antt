-- ===== src/Lib.antt =====
-- libuiohook: a hook on the keyboard and the mouse, and the posting of their events.
--
-- The parts. An application sets a callback with `hook_set_dispatch_proc` and calls `hook_run`, which
-- blocks. The platform's hook turns each native event into virtual events and hands them to the
-- callback, through one static `event`, which the callback may change: `reserved` set to 1 consumes
-- the event. `hook_post_event` goes the other way. Both use the platform's input helper, which has the
-- tables between native key codes and virtual ones.
--
-- The files.
--   Prelude: the native numbers, integers in two parts, machine words and bits, and library names.
--   Event (include/uiohook.h): event types, `uiohook_event`, key codes, masks, buttons and status
--     codes. An `intN_t` coordinate is its bit pattern; a rotation is a signed integer.
--   Dispatch (src/x11/input_hook.c): the static event, the callback, and `dispatch_event`. A Session
--     keeps every event handed to the callback, newest first; what a callback does may depend on them.
--   X11.Keymap, X11.Helper (src/x11/input_helper.c, input_helper.h): the evdev and xfree86 tables,
--     `keycode_to_scancode`, `scancode_to_keycode`, `button_map_lookup`, `keycode_to_unicode`, and
--     `load_input_helper` with `unload_input_helper`.
--   X11.Keysym (src/x11/input_helper.c): `unicode_to_keysym` and `keysym_to_unicode` with their table
--     and their binary search, which belong to the build without libxkbcommon.
--   X11.Hook (src/x11/input_hook.c): `hook_event_proc`. Hook.State has the fields of `hook_info`, Fire
--     the filling of an event, Keys and Buttons the branches of the handler, Proc the handler and the
--     loop over what is recorded, Startup `initialize_modifiers`. The others are about them:
--     KeyMasks, ButtonMasks and StartMask about the modifier mask, KeyEvents, ButtonEvents and Drag
--     about what the callback receives, Clicks about the click count, Invariant about bounds.
--   X11.Run (src/x11/input_hook.c): `hook_run` down to `xrecord_block`, and `hook_stop`.
--   X11.Xkb (src/x11/input_hook.c, src/x11/input_helper.c): the context of libxkbcommon that
--     `xrecord_start` makes, `create_xkb_state` and `destroy_xkb_state`, as counts of references.
--   X11.Screens, X11.Properties, X11.Settings (src/x11/system_properties.c): `hook_create_screen_info`
--     in its three builds; the queries of the other `hook_get_` functions; loading and unloading the
--     library, and the thread that follows the screens with XRandR.
--   X11.Post (src/x11/post_event.c): `hook_post_event` as the list of calls that XTest gets.
--   Windows.Keymap, Windows.Wheel (src/windows/input_helper.c): the table and its translations, and
--     `get_scroll_wheel_rotation`. Windows.VirtualKeys are the codes of the Windows headers.
--   Windows.Layout (src/windows/input_helper.c): `refresh_locale_list` in Cache, where a write through
--     a null pointer is the result `none`, and `keycode_to_unicode` in Unicode. Links and Current are
--     about the list of layouts, DeadKeys about the dead keys.
--   Windows.Typing (src/windows/input_hook.c): `process_key_pressed` together with the layouts, for the
--     hook of Windows.Hook, which takes the units of a key as an argument. Linked is about the list.
--   Windows.Screens, Windows.Properties (src/windows/system_properties.c): `hook_create_screen_info`
--     with `monitor_enum_proc`, the other queries, and `DllMain`.
--   Windows.Hook (src/windows/input_hook.c): the low-level keyboard and mouse hooks. Hook.State has the
--     statics of the file, the mask, and the statics of the wheel (src/windows/input_helper.c), Keys and
--     Mouse the `process_` functions, Proc the two hook procedures, whose answer says whether the native event goes on or is consumed. KeyMasks and
--     Extra are about the mask, Events about the callback and the answer, Invariant about bounds.
--   Windows.Run (src/windows/input_hook.c): `hook_run`, `win_hook_event_proc`,
--     `unregister_running_hooks` and `hook_stop`. Each handle has the count of the hooks of its kind.
--   Windows.Post (src/windows/post_event.c): `hook_post_event` as the list of inputs that `SendInput`
--     gets, and the type that it leaves in the caller's event.
--   Darwin.Keymap (src/darwin/input_helper.c): the table for macOS and its translations.
--     Darwin.VirtualKeys are the codes of input_helper.h and of the system's headers.
--   Darwin.Text (src/darwin/input_helper.c): `keycode_to_unicode` with the dead key state and the
--     references to input sources, and `is_accessibility_enabled`.
--   Darwin.Screens, Darwin.Properties (src/darwin/system_properties.c): `hook_create_screen_info` with
--     the memory of its caller, and the other queries.
--   Darwin.Hook (src/darwin/input_hook.c): the event tap. Hook.State has the statics of the file, Keys
--     and Mouse the `process_` functions, Proc `hook_event_proc` and `hook_status_proc`. Steps and
--     Invariant are about all events, ModifierBits about the mask, Sent and Pointer about the callback.
--   Darwin.Run (src/darwin/input_hook.c): `hook_run` with the structures it creates and destroys, and
--     `hook_stop`. Memory, ports, sources and observers are counted.
--   Darwin.Post (src/darwin/post_event.c): `hook_post_event` as the native event that is posted.
--   Screens: the array of screens as cells, a cell that was never written being `none`.
--   Demo.Async (demo/demo_hook_async.c): `hook_enable` and the thread of the hook, as a schedule of
--     their calls on two mutexes and a condition. Outcomes is about what it returns, Wakeups about the
--     signal.
--   Startup: the steps of a `hook_run` with their errors, for X11.Run and Darwin.Run.
--   X11.Examples, Windows.Examples, Darwin.Examples, Demo.Examples: the theorems at concrete inputs.
--
-- The build that is modelled is the default one of CMakeLists.txt: libxkbcommon, evdev, XTest and
-- Xinerama on, the asynchronous XRecord off, and XRandR off but for the screens; ApplicationServices,
-- IOKit and Objective-C on for macOS. What X11, libxkbcommon, `malloc`, Windows and macOS answer is an
-- argument: a field of the input that the handler gets. The binary search of X11.Keysym has 11 rounds for its fuel, since 2 ^ 10 is
-- above the 758 rows; every other loop of the source runs over a list or a table.
--
-- A number of macOS with a fraction is in 65536ths, and what the source computes in floating point is
-- computed exactly.
--
-- Not modelled: the search for the libraries of keyboard layouts on Windows; the builds with Carbon,
-- with XF86Misc and with asynchronous XRecord; logger.c, which only prints; and the other demos, which
-- use the library. The units of a key are an argument of the hook for macOS.
pub mod Prelude
pub mod Event
pub mod Dispatch
pub mod Startup
pub mod Screens
pub mod X11
pub mod Windows
pub mod Darwin
pub mod Demo
