-- ===== src/Windows/Layout/Links.antt =====
-- src/windows/input_helper.c: when refreshing the list of layouts returns, and where `locale_current`
-- points then.
use libuiohook.Prelude.{
  ℕ, ◌≡◌, refl, sym, ◌∙◌, ap, inl, inr, Bool, true, false, ◌||◌, List, [], ◌∷◌, Option, none, some,
  arith, ◌==◌, Bool-cases,
}
use libuiohook.Windows.Layout.{Locale, Locales}
use libuiohook.Windows.Layout.Cache.{
  LayoutAnswers, mark, Pruned, keep_locale, focus_on, forget, prune, refill, refresh_locale_list,
}

abbrev pub is_some : {A : Type 0} → Option A → Bool
is_some none = false
is_some (some a) = true

abbrev pub has : ℕ → List ℕ → Bool
has id [] = false
has id (h ∷ hs) = id == h || has id hs

-- No handle is cached, or the first one is still among the layouts.
abbrev pub first_stays : List Locale → List ℕ → Bool
first_stays [] handles = true
first_stays (l ∷ ls) handles = has l.id handles

abbrev pub is_empty : List ℕ → Bool
is_empty [] = true
is_empty (h ∷ hs) = false

mark_found : (id : ℕ) (hs : List ℕ) → (mark id hs).1 ≡ has id hs
unfolding mark
mark_found id [] = refl
mark_found id (h ∷ hs) = ground (arith, mark_found id hs)

keep-is_some : (l : Locale) (o : Option Pruned) → is_some (keep_locale l o) ≡ is_some o
unfolding keep_locale
keep-is_some l none = refl
keep-is_some l (some p) = refl

pub prune_kept :
    (a : LayoutAnswers) (l : Locale) (ls : List Locale) (b : Bool) (hs : List ℕ)
    (current : Option ℕ)
    → (mark l.id hs).1 ≡ true
    → prune a (l ∷ ls) b hs current
      ≡ keep_locale l (prune a ls true (mark l.id hs).0 (focus_on a l current))
unfolding prune
prune_kept a l ls b hs current e = rw (e, prune) refl

pub prune_removed :
    (a : LayoutAnswers) (l : Locale) (ls : List Locale) (hs : List ℕ) (current : Option ℕ)
    → (mark l.id hs).1 ≡ false
    → prune a (l ∷ ls) true hs current ≡ prune a ls true hs (forget l current)
unfolding prune
prune_removed a l ls hs current e = rw (e, prune) refl

pub prune_fails :
    (a : LayoutAnswers) (l : Locale) (ls : List Locale) (hs : List ℕ) (current : Option ℕ)
    → (mark l.id hs).1 ≡ false
    → prune a (l ∷ ls) false hs current ≡ none
unfolding prune
prune_fails a l ls hs current e = rw (e, prune) refl

prune-is_some :
    (a : LayoutAnswers) (ls : List Locale) (hs : List ℕ) (current : Option ℕ)
    → is_some (prune a ls true hs current) ≡ true
unfolding prune
prune-is_some a [] hs current = refl
prune-is_some a (l ∷ ls) hs current = elim (Bool-cases (mark l.id hs).1) [
  | inl e ↦
      ap is_some (prune_kept a l ls true hs current e)
      ∙ keep-is_some l _
      ∙ prune-is_some a ls (mark l.id hs).0 (focus_on a l current)
  | inr e ↦
      ap is_some (prune_removed a l ls hs current e) ∙ prune-is_some a ls hs (forget l current)
]

first-is_some :
    (a : LayoutAnswers) (ls : List Locale) (hs : List ℕ) (current : Option ℕ)
    → is_some (prune a ls false hs current) ≡ first_stays ls hs
unfolding prune
first-is_some a [] hs current = refl
first-is_some a (l ∷ ls) hs current = elim (Bool-cases (mark l.id hs).1) [
  | inl e ↦
      ap is_some (prune_kept a l ls false hs current e)
      ∙ keep-is_some l _
      ∙ prune-is_some a ls (mark l.id hs).0 (focus_on a l current)
      ∙ sym e
      ∙ mark_found l.id hs
  | inr e ↦ ap is_some (prune_fails a l ls hs current e) ∙ sym e ∙ mark_found l.id hs
]

refill-is_some :
    (a : LayoutAnswers) (s : Locales) (o : Option Pruned)
    → is_some (elim o as (λ o. Option (Locales × ℕ)) [ none ↦ none | some p ↦ some (refill a p s) ])
      ≡ is_some o
refill-is_some a s none = refl
refill-is_some a s (some p) = refl

-- Refreshing the cache of layouts returns exactly if Windows lists no layout, nothing is cached, or the
-- first cached layout is still listed; else it writes through a null pointer.
pub refresh_locale_list-is_some :
    (a : LayoutAnswers) (s : Locales)
    → is_some (refresh_locale_list a s) ≡ (is_empty a.layouts || first_stays s.cached a.layouts)
unfolding refresh_locale_list
refresh_locale_list-is_some a s = by_layouts a.layouts
  where
    by_layouts :
        (hs : List ℕ)
        → is_some (elim hs as (λ hs. Option (Locales × ℕ)) [
          | [] ↦ some (s, 0)
          | h ∷ rest ↦ elim (prune a s.cached false hs s.current) [
            | none ↦ none
            | some p ↦ some (refill a p s)
          ]
        ])
          ≡ (is_empty hs || first_stays s.cached hs)
    by_layouts [] = refl
    by_layouts (h ∷ hs) =
        refill-is_some a s (prune a s.cached false (h ∷ hs) s.current)
        ∙ first-is_some a s.cached (h ∷ hs) s.current
