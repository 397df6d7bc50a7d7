-- ===== src/Windows/Layout/DeadKeys.antt =====
-- src/windows/input_helper.c: the loop over the dead keys at the end of `keycode_to_unicode`.
use libuiohook.Prelude.{
  ℕ, ◌≤◌, ◌≡◌, refl, Bool, true, ◌&&◌, not, List, [], ◌∷◌, Option, none, some, arith, ◌==◌,
  if◌then◌else◌,
}
use libuiohook.Windows.Layout.{DeadKey}
use libuiohook.Windows.Layout.Unicode.{Typed, wch_none, compose, apply_dead_keys}

-- The first composed character for a base and a diacritic.
unfoldable pub find_dead : List DeadKey → ℕ → ℕ → Option ℕ
find_dead [] base diacritic = none
find_dead (d ∷ ds) base diacritic =
    let rest = find_dead ds base diacritic in
    if d.base == base && d.diacritic == diacritic then some d.composed else rest

-- No row is for the mark that stands for no dead key.
abbrev pub all_marked : List DeadKey → Bool
all_marked [] = true
all_marked (d ∷ ds) = not (d.diacritic == wch_none) && all_marked ds

-- The unit typed, combined with the dead key that was kept.
abbrev pub combined : Typed → Option ℕ → Typed
combined t none = t
combined t (some c) = compose c (record t { dead_char = wch_none })

without_dead :
    (size : ℕ) (ds : List DeadKey) (t : Typed)
    → all_marked ds ≡ true
    → t.dead_char ≡ wch_none
    → apply_dead_keys size ds t ≡ t
unfolding apply_dead_keys
without_dead size [] t h e = refl
without_dead size (d ∷ ds) t h e = ground (arith, without_dead size ds t (ground arith) e)

compose-dead_char : (c : ℕ) (t : Typed) → (compose c t).dead_char ≡ t.dead_char
unfolding compose
compose-dead_char c t = ground arith

-- For a layout of which no row for dead keys has WCH_NONE (0xF000) as its diacritic, and where
-- there is room for at least one unit and for the units written, the loop over the rows for dead
-- keys combines the first unit of the buffer with the first row for that unit and that dead key, if
-- there is one, and forgets the dead key then; and else it changes nothing, so that a dead key that
-- was kept stays.
pub apply_dead_keys-find_dead :
    (size : ℕ) (ds : List DeadKey) (t : Typed)
    → all_marked ds ≡ true
    → 1 ≤ size
    → t.count ≤ size
    → apply_dead_keys size ds t ≡ combined t (find_dead ds t.buffer0 t.dead_char)
unfolding apply_dead_keys find_dead
apply_dead_keys-find_dead size [] t h room fits = refl
apply_dead_keys-find_dead size (d ∷ ds) t h room fits =
    let composed : Typed = compose d.composed (record t { dead_char = wch_none }) in
    ground (
      arith,
      apply_dead_keys-find_dead size ds t (ground arith) room fits,
      without_dead size ds composed (ground arith) (compose-dead_char d.composed _),
    )
