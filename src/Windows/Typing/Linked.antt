-- ===== src/Windows/Typing/Linked.antt =====
-- src/windows/input_hook.c with src/windows/input_helper.c: where `locale_current`
-- points while keys are typed.
use mathlib.Core.Path.{subst}
use libuiohook.Prelude.{ℕ, ◌≡◌, refl, true, List, [], ◌∷◌, Option, none, some, arith, if_both}
use libuiohook.Event.{key_pressed, keyboard}
use libuiohook.Windows.Hook.State.{HookState, fire, not_consumed}
use libuiohook.Windows.Hook.Keys.{set_key_modifier, key_data}
use libuiohook.Windows.Layout.{Locale, Locales}
use libuiohook.Windows.Layout.Cache.{load_input_helper, unload_input_helper, refresh_locale_list}
use libuiohook.Windows.Layout.Unicode.{
  KeyAnswers, wch_none, find_locale, switch_locale, is_current, current_locale, type_key, units_of,
  keycode_to_unicode,
}
use libuiohook.Windows.Layout.Pruning.{cached_id, nowhere}
use libuiohook.Windows.Layout.Current.{IsLinked, refresh_locale_list-IsLinked}
use libuiohook.Windows.Typing.{
  Typist, KeyDown, type_units, process_key_pressed, KeyStep, pressed, released, started, stopped,
  start_with, run_step, run_steps,
}

-- A result that is some keeps the property.
abbrev AllSome {ℓ} : {A : Type ℓ} → (A → Type 0) → Option A → Type 0
AllSome P none = Unit {0}
AllSome P (some a) = P a

find_locale-cached :
    (id : ℕ) (ls : List Locale) (l : Locale)
    → find_locale id ls ≡ some l
    → cached_id nowhere ls id ≡ true
unfolding find_locale
find_locale-cached id [] l e = cc
find_locale-cached id (m ∷ ls) l e = ground (arith, find_locale-cached id ls l)

-- With an equation for the result in place of the result.
AllSome-of {ℓ} :
    {A : Type ℓ} (P : A → Type 0) (o : Option A) → ((a : A) → o ≡ some a → P a) → AllSome P o
AllSome-of P none h = tt
AllSome-of P (some a) h = h a refl

AllSome-some {ℓ} :
    {A : Type ℓ} (P : A → Type 0) (o : Option A) (a : A) → AllSome P o → o ≡ some a → P a
AllSome-some P o a h e = subst (AllSome P) e h

switch_locale-IsLinked : (a : KeyAnswers) (s : Locales) → AllSome IsLinked (switch_locale a s)
unfolding switch_locale
switch_locale-IsLinked a s =
    by_found (find_locale a.locale_id s.cached) (find_locale-cached a.locale_id s.cached)
  where
    by_refreshed :
        (o : Option (Locales × ℕ))
        → AllSome (λ (r : Locales × ℕ). IsLinked r.0) o
        → AllSome IsLinked (elim o as (λ o. Option Locales) [ none ↦ none | some r ↦ some r.0 ])
    by_refreshed none h = tt
    by_refreshed (some r) h = h

    by_found :
        (o : Option Locale)
        → ((l : Locale) → o ≡ some l → cached_id nowhere s.cached a.locale_id ≡ true)
        → AllSome IsLinked (elim o as (λ o. Option Locales) [
          | some l ↦ some (record s { current = some a.locale_id; dead_char = wch_none })
          | none ↦
              elim (refresh_locale_list a.layouts (record s { current = none }))
                as (λ o. Option Locales) [ none ↦ none | some r ↦ some r.0 ]
        ])
    by_found none found = by_refreshed _ (
        AllSome-of (λ (r : Locales × ℕ). IsLinked r.0) _
          λ r e.
            (refresh_locale_list-IsLinked a.layouts (record s { current = none }) r.0 r.1 refl e).0)
    by_found (some l) found = found l refl

-- The lookup of a key, whatever it writes.
keycode_to_unicode-IsLinked :
    (a : KeyAnswers) (keycode size : ℕ) (stale : ℕ × ℕ) (s : Locales)
    → IsLinked s
    → AllSome (λ (r : Locales × List ℕ). IsLinked r.0) (keycode_to_unicode a keycode size stale s)
unfolding keycode_to_unicode
keycode_to_unicode-IsLinked a keycode size stale s linked = by_switched _ (
    if_both (AllSome IsLinked) (is_current a.locale_id s.current) linked
      (switch_locale-IsLinked a s))
  where
    by_current :
        (s1 : Locales) (o : Option Locale)
        → IsLinked s1
        → AllSome
            (λ (r : Locales × List ℕ). IsLinked r.0)
            (elim o as (λ o. Option (Locales × List ℕ)) [
              | none ↦ some (s1, [])
              | some l ↦
                  let t = type_key a l keycode size stale s1.dead_char in
                  some (record s1 { dead_char = t.dead_char }, units_of t)
            ])
    by_current s1 none h = h
    by_current s1 (some l) h = h

    by_switched :
        (o : Option Locales)
        → AllSome IsLinked o
        → AllSome
            (λ (r : Locales × List ℕ). IsLinked r.0)
            (elim o as (λ o. Option (Locales × List ℕ)) [
              | none ↦ none
              | some s1 ↦ elim (current_locale s1) as (λ o. Option (Locales × List ℕ)) [
                | none ↦ some (s1, [])
                | some l ↦
                    let t = type_key a l keycode size stale s1.dead_char in
                    some (record s1 { dead_char = t.dead_char }, units_of t)
              ]
            ])
    by_switched none h = tt
    by_switched (some s1) h = by_current s1 (current_locale s1) h

Linked : Typist → Type 0
Linked t = IsLinked t.locales

type_units-Linked :
    (d : KeyDown) (s : HookState) (o : Option (Locales × List ℕ))
    → AllSome (λ (r : Locales × List ℕ). IsLinked r.0) o
    → AllSome Linked (type_units d s o)
unfolding type_units Linked
type_units-Linked d s none h = tt
type_units-Linked d s (some r) h = h

press-Linked : (d : KeyDown) (t : Typist) → Linked t → AllSome Linked (process_key_pressed d t)
unfolding process_key_pressed Linked
press-Linked d t linked =
    if_both (AllSome Linked) (not_consumed s2) {y = some (record t { hook = s2 })}
      (type_units-Linked d s2 _
        (keycode_to_unicode-IsLinked d.answers d.key.vk_code 4 d.stale t.locales linked))
      linked
  where
    s2 : HookState
    s2 =
        fire key_pressed d.key.time (keyboard (key_data d.key))
          (set_key_modifier d.key.vk_code t.hook)

start_with-Linked :
    (time : ℕ) (t : Typist) (o : Option (Locales × ℕ))
    → AllSome (λ (r : Locales × ℕ). IsLinked r.0) o
    → AllSome Linked (start_with time t o)
unfolding start_with Linked
start_with-Linked time t none h = tt
start_with-Linked time t (some r) h = h

step-Linked : (k : KeyStep) (t : Typist) → Linked t → AllSome Linked (run_step k t)
unfolding run_step load_input_helper unload_input_helper Linked
step-Linked (pressed d) t linked = press-Linked d t linked
step-Linked (released k) t linked = linked
step-Linked (started a time) t linked = start_with-Linked time t _ (
    AllSome-of (λ (r : Locales × ℕ). IsLinked r.0) _
      λ r e. (refresh_locale_list-IsLinked a t.locales r.0 r.1 linked e).0)
step-Linked (stopped time) t linked = refl

steps-Linked : (ks : List KeyStep) (t : Typist) → Linked t → AllSome Linked (run_steps ks t)
unfolding run_steps
steps-Linked [] t linked = linked
steps-Linked (k ∷ ks) t linked =
    by_step (λ t' h. steps-Linked ks t' h) (run_step k t) (step-Linked k t linked)
  where
    by_step :
        ((t' : Typist) → Linked t' → AllSome Linked (run_steps ks t'))
        → (o : Option Typist) → AllSome Linked o
        → AllSome Linked
            (elim o as (λ o. Option Typist) [ none ↦ none | some t' ↦ run_steps ks t' ])
    by_step rest none h = tt
    by_step rest (some t') h = rest t' h

-- Over any sequence of keys pressed and released and of starts and stops of the hook, from a state in
-- which `locale_current` is NULL or points into the list of layouts, that stays so, where no step
-- writes through NULL: `locale_current` never points to a layout that was freed.
pub run_steps-IsLinked :
    (ks : List KeyStep) (t t' : Typist)
    → IsLinked t.locales
    → run_steps ks t ≡ some t'
    → IsLinked t'.locales
unfolding Linked
run_steps-IsLinked ks t t' linked e =
    AllSome-some Linked (run_steps ks t) t' (steps-Linked ks t linked) e
