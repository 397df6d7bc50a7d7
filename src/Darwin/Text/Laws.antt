-- ===== src/Darwin/Text/Laws.antt =====
-- src/darwin/input_helper.c: the references to input sources, dead keys, and the units dropped.
use libuiohook.Prelude.{
  ℕ, ◌+◌, ◌≡◌, refl, ap, true, false, ◌&&◌, List, [], ◌∷◌, Option, none, some, arith, if◌then◌else◌,
  if_both, Bool-cases, inl, inr,
}
use libuiohook.Darwin.Text.{
  InputSource, KeyAnswers, TextState, has_changed, forget_dead, copy_source, release_prev,
  keep_source, switch_source, translate_key, drop_invalid, look_up, keycode_to_unicode,
  unload_input_helper, run_keys,
}

abbrev pub held : Option ℕ → ℕ
held none = 0
held (some p) = 1

-- One reference is held for the previous layout, and no other, beside `n` of others.
abbrev pub Balanced : ℕ → TextState → Type 0
Balanced n s = s.references ≡ held s.prev + n

switch_source-Balanced :
    (n : ℕ) (source : Option InputSource) (s : TextState)
    → Balanced n s
    → Balanced n (switch_source source s)
unfolding switch_source forget_dead copy_source release_prev keep_source
switch_source-Balanced n none s b = ground arith
switch_source-Balanced n (some l) s b = ground arith

look_up-Balanced :
    (n : ℕ) (a : KeyAnswers) (source : Option InputSource) (s : TextState)
    → Balanced n s
    → Balanced n (look_up a source s).0
unfolding look_up translate_key
look_up-Balanced n a none s b = b
look_up-Balanced n a (some l) s b =
    if_both (λ (r : TextState × List ℕ). Balanced n r.0)
      (l.is_source && l.has_layout && l.has_bytes) b b

keycode_to_unicode-Balanced :
    (n : ℕ) (a : KeyAnswers) (s : TextState) → Balanced n s → Balanced n (keycode_to_unicode a s).0
unfolding keycode_to_unicode
keycode_to_unicode-Balanced n a s b =
    if_both (λ (r : TextState × List ℕ). Balanced n r.0) a.is_main
      (look_up-Balanced n a a.source _ (switch_source-Balanced n a.source s b)) b

run_keys-Balanced :
    (n : ℕ) (keys : List KeyAnswers) (s : TextState) → Balanced n s → Balanced n (run_keys keys s)
unfolding run_keys
run_keys-Balanced n [] s b = b
run_keys-Balanced n (a ∷ keys) s b =
    run_keys-Balanced n keys _ (keycode_to_unicode-Balanced n a s b)

unload-released : (n : ℕ) (s : TextState) → Balanced n s → (unload_input_helper s).references ≡ n
unfolding unload_input_helper release_prev
unload-released n s b = ground arith

-- On macOS, after any sequence of keys looked up, on whichever run loop and with whichever layouts,
-- unloading the helper gives back every reference to an input source that was handed over, where at
-- most the one for the previous layout was held before.
pub run_keys_released :
    (n : ℕ) (keys : List KeyAnswers) (s : TextState)
    → s.references ≡ held s.prev + n
    → (unload_input_helper (run_keys keys s)).references ≡ n
run_keys_released n keys s b = unload-released n _ (run_keys-Balanced n keys s b)

has_changed-none : (p : Option ℕ) → has_changed p none ≡ false
unfolding has_changed
has_changed-none none = refl
has_changed-none (some p) = refl

switch_source_dead :
    (source : Option InputSource) (s : TextState) (d : ℕ)
    → has_changed s.prev source ≡ true
    → switch_source source s ≡ switch_source source (record s { deadkey_state = d })
unfolding switch_source forget_dead copy_source
switch_source_dead none s d changed = cc
switch_source_dead (some l) s d changed = simp changed

-- On macOS, where the layout of a key is another one than that of the key before, the key is looked up
-- on the main run loop as if no dead key had been typed: whatever dead key state `d` was kept, the
-- units and the state are the same. On another run loop it writes no unit and changes nothing, so
-- the dead key state is kept for the next key.
pub keycode_to_unicode_forgets :
    (a : KeyAnswers) (s : TextState) (d : ℕ)
    → has_changed s.prev a.source ≡ true
    → keycode_to_unicode a s
      ≡ (if a.is_main then keycode_to_unicode a (record s { deadkey_state = d }) else (s, []))
unfolding keycode_to_unicode
keycode_to_unicode_forgets a s d changed = elim (Bool-cases a.is_main) [
  | inl main ↦ simp main (
      ap (λ (s1 : TextState). let (s2, units) = look_up a a.source s1 in (s2, drop_invalid units))
        (switch_source_dead a.source s d changed))
  | inr other ↦ simp other
]
