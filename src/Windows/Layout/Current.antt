-- ===== src/Windows/Layout/Current.antt =====
-- src/windows/input_helper.c: where `locale_current` points when the list of layouts is refreshed, and
-- the count that is returned.
use mathlib.Core.Path.{subst}
use libuiohook.Prelude.{
  ℕ, ◌≡◌, refl, sym, ◌∙◌, ap, inl, inr, Bool, true, false, ◌||◌, List, [], ◌∷◌, ◌++◌, Option, none,
  some, arith, ◌==◌, if◌then◌else◌, length, length-append, Option-cases,
}
use libuiohook.Windows.Layout.{Locale, Locales}
use libuiohook.Windows.Layout.Cache.{
  LayoutAnswers, Pruned, focus_on, prune, insert, refill, refresh_locale_list,
}
use libuiohook.Windows.Layout.Pruning.{
  cached_id, is_linked, nowhere, also, move, move_linked, focus-is_linked, Fine, prune-Fine,
}
use libuiohook.Windows.Layout.Links.{is_empty}

weaken :
    (before : ℕ → Bool) (l : Locale) (c : Option ℕ)
    → is_linked before [] c ≡ true
    → is_linked before (l ∷ []) c ≡ true
weaken before l none e = refl
weaken before l (some id) e = ground arith

-- What the second loop adds for the first handle, from what it loads.
added : LayoutAnswers → ℕ → List ℕ → Option ℕ → Option Locale → List Locale × Option ℕ
added a h hs c none = insert a hs c
added a h hs c (some l) =
    let rest = insert a hs (focus_on a (record l { id = h }) c) in
    (record l { id = h } ∷ rest.0, rest.1)

insert_lem :
    (a : LayoutAnswers) (h : ℕ) (hs : List ℕ) (c : Option ℕ)
    → insert a (h ∷ hs) c ≡ added a h hs c (if h == 0 then none else a.load h)
unfolding insert added
insert_lem a h hs c = by_load (if h == 0 then none else a.load h)
  where
    by_load :
        (o : Option Locale)
        → (elim o as (λ o. List Locale × Option ℕ) [
          | none ↦ insert a hs c
          | some l ↦
              let (ls, last) = insert a hs (focus_on a (record l { id = h }) c) in
              (record l { id = h } ∷ ls, last)
        ])
          ≡ added a h hs c o
    by_load none = refl
    by_load (some l) = refl

-- The same of the second loop.
insert-is_linked :
    (a : LayoutAnswers) (before : ℕ → Bool) (hs : List ℕ) (c : Option ℕ)
    → is_linked before [] c ≡ true
    → is_linked before (insert a hs c).0 (insert a hs c).1 ≡ true
unfolding added
insert-is_linked a before [] c linked = unfold insert in linked
insert-is_linked a before (h ∷ hs) c linked =
    elim (Option-cases (if h == 0 then none else a.load h)) [
      | inl e ↦ rw (insert_lem a h hs c, e) (insert-is_linked a before hs c linked)
      | inr (l, e) ↦
          let new : Locale = record l { id = h } in
          rw (insert_lem a h hs c, e)
            (sym (move_linked before new _ _)
              ∙ insert-is_linked a (also new before) hs (focus_on a new c) (
                  move_linked before new [] _
                  ∙ focus-is_linked a before new [] c (weaken before new c linked)))
    ]

append_cached :
    (before : ℕ → Bool) (ls new : List Locale) (id : ℕ)
    → cached_id (cached_id before ls) new id ≡ cached_id before (ls ++ new) id
append_cached before [] new id = refl
append_cached before (l ∷ ls) new id =
    move (cached_id before ls) l new id
    ∙ ap (λ (b : Bool). l.id == id || b) (append_cached before ls new id)

append_linked :
    (ls new : List Locale) (c : Option ℕ)
    → is_linked (cached_id nowhere ls) new c ≡ is_linked nowhere (ls ++ new) c
append_linked ls new none = refl
append_linked ls new (some id) = append_cached nowhere ls new id

-- `locale_current` is NULL or points to a locale of the list.
abbrev pub IsLinked : Locales → Type 0
IsLinked s = is_linked nowhere s.cached s.current ≡ true

refill-IsLinked :
    (a : LayoutAnswers) (p : Pruned) (s : Locales)
    → Fine nowhere (some p)
    → IsLinked (refill a p s).0 × ((refill a p s).1 ≡ length (refill a p s).0.cached)
unfolding refill
refill-IsLinked a p s (linked, counted) = (
  sym (append_linked p.kept _ _)
      ∙ insert-is_linked a (cached_id nowhere p.kept) p.handles p.current
          (before_linked p.kept p.current ∙ linked),
  omega (arith, counted, length-append p.kept (insert a p.handles p.current).0),
)
  where
    before_linked :
        (ls : List Locale) (c : Option ℕ)
        → is_linked (cached_id nowhere ls) [] c ≡ is_linked nowhere ls c
    before_linked ls none = refl
    before_linked ls (some id) = refl

-- What holds of the state and the count that refreshing returns, if it does, and if layouts are listed.
Refreshed : Locales → List ℕ → Option (Locales × ℕ) → Type 0
Refreshed s hs none = Unit
Refreshed s [] (some (t, n)) = (t ≡ s) × (n ≡ 0)
Refreshed s (h ∷ hs) (some (t, n)) = IsLinked t × (n ≡ length t.cached)

refresh-Refreshed :
    (a : LayoutAnswers) (s : Locales) → IsLinked s → Refreshed s a.layouts (refresh_locale_list a s)
unfolding refresh_locale_list Refreshed
refresh-Refreshed a s linked = by_layouts a.layouts
  where
    by_pruned :
        (h : ℕ) (hs : List ℕ) (o : Option Pruned)
        → Fine nowhere o
        → Refreshed s
            (h ∷ hs)
            (elim o as (λ o. Option (Locales × ℕ)) [ none ↦ none | some p ↦ some (refill a p s) ])
    by_pruned h hs none f = tt
    by_pruned h hs (some p) f = refill-IsLinked a p s f

    by_layouts :
        (hs : List ℕ)
        → Refreshed s hs (elim hs as (λ hs. Option (Locales × ℕ)) [
          | [] ↦ some (s, 0)
          | h ∷ rest ↦ elim (prune a s.cached false hs s.current) [
            | none ↦ none
            | some p ↦ some (refill a p s)
          ]
        ])
    by_layouts [] = (refl, refl)
    by_layouts (h ∷ hs) =
        by_pruned h hs _ (prune-Fine a nowhere s.cached false (h ∷ hs) s.current linked)

-- If `locale_current` is NULL or points into the list, then so it is after the list of layouts is
-- refreshed, where that returns: it never points to a locale that was freed. And the count returned
-- is the length of the list where Windows lists some layout, and else 0 with nothing changed.
pub refresh_locale_list-IsLinked :
    (a : LayoutAnswers) (s t : Locales) (n : ℕ)
    → IsLinked s
    → refresh_locale_list a s ≡ some (t, n)
    → IsLinked t × (n ≡ (if is_empty a.layouts then 0 else length t.cached))
unfolding Refreshed
refresh_locale_list-IsLinked a s t n linked e =
    by_layouts a.layouts (subst (Refreshed s a.layouts) e (refresh-Refreshed a s linked))
  where
    by_layouts :
        (hs : List ℕ)
        → Refreshed s hs (some (t, n))
        → IsLinked t × (n ≡ (if is_empty hs then 0 else length t.cached))
    by_layouts [] (same, zero_count) = (rw same linked, zero_count)
    by_layouts (h ∷ hs) r = r
