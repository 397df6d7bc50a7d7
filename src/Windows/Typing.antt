-- ===== src/Windows/Typing.antt =====
-- src/windows/input_hook.c with src/windows/input_helper.c: the keys of the hook together with the
-- keyboard layouts that their characters come from.
pub mod Linked
use libuiohook.Prelude.{ℕ, List, [], ◌∷◌, Option, none, some, if◌then◌else◌}
use libuiohook.Event.{key_pressed, keyboard}
use libuiohook.Windows.Hook.State.{HookState, fire, not_consumed}
use libuiohook.Windows.Hook.Keys.{
  KeyInput, set_key_modifier, key_data, fire_typed, process_key_released,
}
use libuiohook.Windows.Hook.Proc.{hook_start_proc, hook_stop_proc}
use libuiohook.Windows.Layout.{Locales}
use libuiohook.Windows.Layout.Cache.{LayoutAnswers, load_input_helper, unload_input_helper}
use libuiohook.Windows.Layout.Unicode.{KeyAnswers, keycode_to_unicode}

-- The statics of both files.
pub record Typist : Type 0 where
  pub locales : Locales
  pub hook : HookState

-- A key that goes down, what Windows answers the lookup, and what the buffer of two units holds before.
-- The units of the key itself are not read.
pub record KeyDown : Type 0 where
  pub key : KeyInput
  pub answers : KeyAnswers
  pub stale : ℕ × ℕ

-- The loop over the units that the lookup wrote.
unfoldable pub type_units : KeyDown → HookState → Option (Locales × List ℕ) → Option Typist
type_units d s none = none
type_units d s (some (locales, units)) =
    some (record { locales = locales; hook = fire_typed d.key units s })

-- `process_key_pressed`: the lookup takes place after the pressed event, unless it was consumed. The
-- size of the buffer is given in bytes.
unfoldable pub process_key_pressed : KeyDown → Typist → Option Typist
process_key_pressed d t =
    let s1 = set_key_modifier d.key.vk_code t.hook in
    let s2 = fire key_pressed d.key.time (keyboard (key_data d.key)) s1 in
    if not_consumed s2
    then type_units d s2 (keycode_to_unicode d.answers d.key.vk_code 4 d.stale t.locales)
    else some (record t { hook = s2 })

-- What the hook does with the layouts: the keys, and loading and unloading at its start and stop, with
-- the times of those events.
pub data KeyStep : Type 0 where
  pressed : KeyDown → KeyStep
  released : KeyInput → KeyStep
  started : LayoutAnswers → ℕ → KeyStep
  stopped : ℕ → KeyStep

-- `hook_start_proc` after the layouts are loaded.
unfoldable pub start_with : ℕ → Typist → Option (Locales × ℕ) → Option Typist
start_with time t none = none
start_with time t (some (locales, n)) =
    some (record { locales = locales; hook = hook_start_proc time t.hook })

unfoldable pub run_step : KeyStep → Typist → Option Typist
run_step (pressed d) t = process_key_pressed d t
run_step (released k) t = some (record t { hook = process_key_released k t.hook })
run_step (started a time) t = start_with time t (load_input_helper a t.locales)
run_step (stopped time) t =
    some (record { locales = (unload_input_helper t.locales).0; hook = hook_stop_proc time t.hook })

unfoldable pub run_steps : List KeyStep → Typist → Option Typist
run_steps [] t = some t
run_steps (k ∷ ks) t = elim (run_step k t) [ none ↦ none | some t' ↦ run_steps ks t' ]
