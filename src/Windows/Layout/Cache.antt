-- ===== src/Windows/Layout/Cache.antt =====
-- src/windows/input_helper.c: `refresh_locale_list`, `load_input_helper` and `unload_input_helper`.
use libuiohook.Prelude.{
  ℕ, ◌+◌, Bool, true, false, List, [], ◌∷◌, ◌++◌, Option, none, some, ◌==◌, if◌then◌else◌, length,
}
use libuiohook.Windows.Layout.{Locale, Locales}

-- The handles of `GetKeyboardLayoutList`, none of them if either call fails; the layout of the window
-- in focus; and what is loaded for a handle, with any `id`, unless a step of loading it fails.
pub record LayoutAnswers : Type 0 where
  pub layouts : List ℕ
  pub focus : ℕ
  pub load : ℕ → Option Locale

-- The search for a cached handle in the list of handles: its entry is set to NULL.
unfoldable pub mark : ℕ → List ℕ → List ℕ × Bool
mark id [] = ([], false)
mark id (h ∷ hs) =
    let (rest, found) = mark id hs in if id == h then (0 ∷ hs, true) else (h ∷ rest, found)

-- What the first loop leaves: the kept locales, the current one, the handles left, and the count.
pub record Pruned : Type 0 where
  pub kept : List Locale
  pub current : Option ℕ
  pub handles : List ℕ
  pub count : ℕ

unfoldable pub keep_locale : Locale → Option Pruned → Option Pruned
keep_locale l none = none
keep_locale l (some p) = some (record p { kept = l ∷ p.kept; count = p.count + 1 })

-- `locale_current` where the locale is the one in focus.
unfoldable pub focus_on : LayoutAnswers → Locale → Option ℕ → Option ℕ
focus_on a l current = if l.id == a.focus then some l.id else current

-- `locale_current` where the locale is removed.
unfoldable pub forget : Locale → Option ℕ → Option ℕ
forget l none = none
forget l (some id) = if id == l.id then none else some id

-- The first loop. `has_previous` is that `locale_previous` is not NULL: if it is, removing a locale writes
-- through it, for which the result is `none`.
unfoldable pub prune :
    LayoutAnswers → List Locale → (has_previous : Bool) → List ℕ → Option ℕ → Option Pruned
prune a [] has_previous handles current =
    some (record { kept = []; current = current; handles = handles; count = 0 })
prune a (l ∷ ls) has_previous handles current =
    let (marked, found) = mark l.id handles in
    elim found [
      | true ↦ keep_locale l (prune a ls true marked (focus_on a l current))
      | false ↦ elim has_previous [
        | true ↦ prune a ls true handles (forget l current)
        | false ↦ none
      ]
    ]

-- The second loop: the locales that are loaded for the handles left, and the current one.
unfoldable pub insert : LayoutAnswers → List ℕ → Option ℕ → List Locale × Option ℕ
insert a [] current = ([], current)
insert a (h ∷ hs) current =
    elim (if h == 0 then none else a.load h) as (λ o. List Locale × Option ℕ) [
      | none ↦ insert a hs current
      | some l ↦
          let (ls, last) = insert a hs (focus_on a (record l { id = h }) current) in
          (record l { id = h } ∷ ls, last)
    ]

unfoldable pub refill : LayoutAnswers → Pruned → Locales → Locales × ℕ
refill a p s =
    let (added, current) = insert a p.handles p.current in
    (record s { cached = p.kept ++ added; current = current }, p.count + length added)

unfoldable pub refresh_locale_list : LayoutAnswers → Locales → Option (Locales × ℕ)
refresh_locale_list a s = elim a.layouts [
  | [] ↦ some (s, 0)
  | h ∷ hs ↦ elim (prune a s.cached false a.layouts s.current) [
    | none ↦ none
    | some p ↦ some (refill a p s)
  ]
]

-- The two statics of the wheel are reset apart, by `reset_rotation`.
unfoldable pub load_input_helper : LayoutAnswers → Locales → Option (Locales × ℕ)
load_input_helper a s = refresh_locale_list a s

unfoldable pub unload_input_helper : Locales → Locales × ℕ
unload_input_helper s = (record s { cached = []; current = none }, length s.cached)
