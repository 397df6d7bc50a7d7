-- ===== src/Windows/Layout/Pruning.antt =====
-- src/windows/input_helper.c: where `locale_current` points while cached layouts are removed.
use libuiohook.Prelude.{
  ℕ, ◌≡◌, refl, sym, ◌∙◌, inl, inr, Bool, true, false, ◌||◌, List, [], ◌∷◌, Option, none, some,
  arith, ◌==◌, length, Bool-cases, ==_refl,
}
use libuiohook.Windows.Layout.{Locale}
use libuiohook.Windows.Layout.Cache.{
  LayoutAnswers, mark, Pruned, keep_locale, focus_on, forget, prune,
}
use libuiohook.Windows.Layout.Links.{prune_kept, prune_removed, prune_fails}

-- Whether a handle is one of a list of locales or passes a test on those before them.
abbrev pub cached_id : (ℕ → Bool) → List Locale → ℕ → Bool
cached_id before [] id = before id
cached_id before (l ∷ ls) id = l.id == id || cached_id before ls id

-- `locale_current` is NULL or such a handle.
abbrev pub is_linked : (ℕ → Bool) → List Locale → Option ℕ → Bool
is_linked before ls none = true
is_linked before ls (some id) = cached_id before ls id

abbrev pub nowhere : ℕ → Bool
nowhere id = false

-- The test that a locale before the list passes too.
abbrev pub also : Locale → (ℕ → Bool) → ℕ → Bool
also l before id = l.id == id || before id

pub move :
    (before : ℕ → Bool) (l : Locale) (ls : List Locale) (id : ℕ)
    → cached_id (also l before) ls id ≡ cached_id before (l ∷ ls) id
move before l [] id = refl
move before l (m ∷ ls) id = ground (arith, move before l ls id)

pub move_linked :
    (before : ℕ → Bool) (l : Locale) (ls : List Locale) (c : Option ℕ)
    → is_linked (also l before) ls c ≡ is_linked before (l ∷ ls) c
move_linked before l ls none = refl
move_linked before l ls (some id) = move before l ls id

pub focus-is_linked :
    (a : LayoutAnswers) (before : ℕ → Bool) (l : Locale) (ls : List Locale) (c : Option ℕ)
    → is_linked before (l ∷ ls) c ≡ true
    → is_linked before (l ∷ ls) (focus_on a l c) ≡ true
unfolding focus_on
focus-is_linked a before l ls c h = elim (Bool-cases (l.id == a.focus)) [
  | inl e ↦ ground (arith, ==_refl l.id)
  | inr e ↦ rw (e, focus_on) h
]

forget-is_linked :
    (before : ℕ → Bool) (l : Locale) (ls : List Locale) (c : Option ℕ)
    → is_linked before (l ∷ ls) c ≡ true
    → is_linked before ls (forget l c) ≡ true
unfolding forget
forget-is_linked before l ls none h = refl
forget-is_linked before l ls (some id) h = ground arith

-- What the first loop leaves is linked, and counted.
abbrev pub Fine : (ℕ → Bool) → Option Pruned → Type 0
Fine before none = Unit
Fine before (some p) = (is_linked before p.kept p.current ≡ true) × (p.count ≡ length p.kept)

keep-Fine :
    (before : ℕ → Bool) (l : Locale) (o : Option Pruned)
    → Fine (also l before) o
    → Fine before (keep_locale l o)
unfolding keep_locale
keep-Fine before l none f = f
keep-Fine before l (some p) (linked, counted) =
    (sym (move_linked before l p.kept p.current) ∙ linked, omega (arith, counted))

pub prune-Fine :
    (a : LayoutAnswers) (before : ℕ → Bool) (ls : List Locale) (b : Bool) (hs : List ℕ)
    → (c : Option ℕ) → is_linked before ls c ≡ true
    → Fine before (prune a ls b hs c)
unfolding prune
prune-Fine a before [] b hs c h = (h, refl)
prune-Fine a before (l ∷ ls) true hs c h = elim (Bool-cases (mark l.id hs).1) [
  | inl e ↦ rw (prune_kept a l ls true hs c e) (
      keep-Fine before l _ (
        prune-Fine a (also l before) ls true (mark l.id hs).0 (focus_on a l c)
          (move_linked before l ls _ ∙ focus-is_linked a before l ls c h)))
  | inr e ↦
      rw (prune_removed a l ls hs c e)
        (prune-Fine a before ls true hs (forget l c) (forget-is_linked before l ls c h))
]
prune-Fine a before (l ∷ ls) false hs c h = elim (Bool-cases (mark l.id hs).1) [
  | inl e ↦ rw (prune_kept a l ls false hs c e) (
      keep-Fine before l _ (
        prune-Fine a (also l before) ls true (mark l.id hs).0 (focus_on a l c)
          (move_linked before l ls _ ∙ focus-is_linked a before l ls c h)))
  | inr e ↦ rw (prune_fails a l ls hs c e) tt
]
