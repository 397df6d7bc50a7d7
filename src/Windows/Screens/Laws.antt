-- ===== src/Windows/Screens/Laws.antt =====
-- src/windows/system_properties.c: what the enumeration of monitors makes of them.
use libuiohook.Prelude.{
  ℕ, suc, ◌+◌, ◌≡◌, ◌≤◌, ◌<◌, refl, ap, sym, ◌∙◌, true, false, List, [], ◌∷◌, ◌++◌, map, Option,
  none, some, length, length-append, arith, pos, leb, ltb, ltb→lt, if◌then◌else◌, Bool-cases,
  ==_of_ne, inl, inr,
}
use mathlib.Core.List.{append_assoc, append-nil}
use libuiohook.Event.{ScreenData}
use libuiohook.Screens.{Screens, no_screens, screen}
use libuiohook.Windows.Screens.{
  Monitor, width_of, height_of, has_area, enumerate, ScreenAnswers, fall_back, finish,
  hook_create_screen_info,
}
use libuiohook.Windows.Screens.Cells.{
  visible, screens_from, AllGranted, listed, screen_of, monitor_enum_proc-listed,
  monitor_enum_proc-hidden,
}

le→leb : (a b : ℕ) → a ≤ b → leb a b ≡ true
le→leb a b h = ground arith

too_many : (n k : ℕ) → ltb n 255 ≡ false → leb (n + suc k) 255 ≡ false
too_many n k h = ground arith

-- What is listed after those in `ds` and `vs`, of which the first have the number `n`.
outcome : ℕ → ℕ → List ScreenData → Option Screens
outcome n k ds = if leb (n + k) 255 then some (listed ds) else none

-- The screens so far, one more, and the others, whose enumeration is known.
outcome-snoc :
    (ds : List ScreenData) (e : ScreenData) (vs : List Monitor)
    → outcome
        (length (ds ++ e ∷ []))
        (length vs)
        ((ds ++ e ∷ []) ++ screens_from (length (ds ++ e ∷ [])) vs)
      ≡ outcome (length ds) (suc (length vs)) (ds ++ e ∷ screens_from (suc (length ds)) vs)
unfolding outcome
outcome-snoc ds e vs =
    ap (λ (n : ℕ). outcome n (length vs) ((ds ++ e ∷ []) ++ screens_from n vs)) longer
    ∙ ap (outcome (suc (length ds)) (length vs))
        (append_assoc ds (e ∷ []) (screens_from (suc (length ds)) vs))
    ∙ ap
        (λ (n : ℕ).
          if leb n 255 then some (listed (ds ++ e ∷ screens_from (suc (length ds)) vs)) else none)
        (omega arith)
  where
    longer : length (ds ++ e ∷ []) ≡ suc (length ds)
    longer = omega (arith, length-append ds (e ∷ []))

-- From the screens of the monitors before.
enumerate-listed :
    (ms : List Monitor) (ds : List ScreenData)
    → AllGranted ms
    → length ds ≤ 255
    → enumerate ms (listed ds)
      ≡ outcome (length ds) (length (visible ms)) (ds ++ screens_from (length ds) (visible ms))
unfolding enumerate outcome
enumerate-listed [] ds granted le =
    rw (le→leb (length ds + 0) 255 (omega arith))
      (ap (λ (r : List ScreenData). some (listed r)) (sym (append-nil ds)))
enumerate-listed (m ∷ ms) ds granted le = elim (Bool-cases (has_area (width_of m) (height_of m))) [
  | inr hidden ↦
      rw (hidden, enumerate, monitor_enum_proc-hidden m (listed ds) hidden)
        (enumerate-listed ms ds granted.1 le)
  | inl shown ↦
      rw (shown, enumerate, monitor_enum_proc-listed m ds shown granted.0 le)
        elim (Bool-cases (ltb (length ds) 255)) [
          | inl room ↦ rw room (
              enumerate-listed ms (ds ++ screen_of (length ds) m ∷ []) granted.1
                (omega (arith, length-append ds (screen_of (length ds) m ∷ []), ltb→lt _ _ room))
              ∙ outcome-snoc ds (screen_of (length ds) m) (visible ms))
          | inr full ↦ rw (full, too_many (length ds) (length (visible ms)) full) refl
        ]
]

-- What the enumeration makes of all monitors.
enumerate-outcome :
    (ms : List Monitor)
    → AllGranted ms
    → enumerate ms no_screens ≡ (
        if leb (length (visible ms)) 255 then some (listed (screens_from 0 (visible ms))) else none)
unfolding outcome
enumerate-outcome ms granted =
    enumerate-listed ms [] granted (omega arith)
    ∙ ap (λ (n : ℕ). if leb n 255 then some (listed (screens_from 0 (visible ms))) else none)
        (omega arith)

length-screens_from : (n : ℕ) (vs : List Monitor) → length (screens_from n vs) ≡ length vs
length-screens_from n [] = refl
length-screens_from n (v ∷ vs) = ap suc (length-screens_from (suc n) vs)

-- `listed` where there is a screen.
listed-some :
    (vs : List Monitor)
    → 0 < length vs
    → listed (screens_from 0 vs)
      ≡ record { count = length vs; cells = some (map some (screens_from 0 vs)); blocks = 1 }
listed-some [] h = absurd (omega arith)
listed-some (v ∷ vs) h = rw (length-screens_from 1 vs) refl

abbrev whole : List Monitor → Screens
whole vs = record { count = length vs; cells = some (map some (screens_from 0 vs)); blocks = 1 }

-- What `hook_create_screen_info` makes of the enumeration.
hook_create_screen_info-finish :
    (a : ScreenAnswers)
    → AllGranted a.monitors
    → 0 < length (visible a.monitors)
    → hook_create_screen_info a ≡ (
        if leb (length (visible a.monitors)) 255
        then some (finish a (whole (visible a.monitors)))
        else none)
unfolding hook_create_screen_info
hook_create_screen_info-finish a granted shown =
    rw (hook_create_screen_info, enumerate-outcome a.monitors granted)
      elim (Bool-cases (leb (length (visible a.monitors)) 255)) [
        | inl few ↦ rw (few, listed-some (visible a.monitors) shown) refl
        | inr many ↦ rw many refl
      ]

finish-whole :
    (a : ScreenAnswers) (vs : List Monitor)
    → a.status ≡ true
    → 0 < length vs
    → finish a (whole vs) ≡ whole vs
unfolding finish
finish-whole a vs ok shown = simp (ok, ==_of_ne (length vs) 0 (λ e. omega (arith, e)))

-- If `EnumDisplayMonitors` succeeds and there is memory, up to 255 monitors with an area give an array
-- of one block that lists them in order, numbered from 1 on, and their count. With more of them the
-- count of 8 bits comes back to 0 and the callback writes outside the block.
pub hook_create_screen_info-numbered :
    (a : ScreenAnswers)
    → AllGranted a.monitors
    → a.status ≡ true
    → 0 < length (visible a.monitors)
    → hook_create_screen_info a ≡ (
        if leb (length (visible a.monitors)) 255
        then some (record {
          count = length (visible a.monitors);
          cells = some (map some (screens_from 0 (visible a.monitors)));
          blocks = 1;
        })
        else none)
hook_create_screen_info-numbered a granted ok shown =
    hook_create_screen_info-finish a granted shown
    ∙ ap (λ (s : Screens). if leb (length (visible a.monitors)) 255 then some s else none)
        (finish-whole a (visible a.monitors) ok shown)

-- If `EnumDisplayMonitors` fails after it went through 1 to 255 monitors with an area, and there is
-- memory and the primary screen has an area, that screen alone is returned, and the array of the
-- monitors stays allocated with nothing that points to it: two blocks are left.
pub hook_create_screen_info_lost :
    (a : ScreenAnswers)
    → AllGranted a.monitors
    → a.status ≡ false
    → 0 < length (visible a.monitors)
    → length (visible a.monitors) ≤ 255
    → a.granted ≡ true
    → has_area a.width a.height ≡ true
    → hook_create_screen_info a
      ≡ some (record {
        count = 1;
        cells = some (some (screen 1 (pos 0) (pos 0) a.width a.height) ∷ []);
        blocks = 2;
      })
unfolding finish fall_back
hook_create_screen_info_lost a granted failed shown few memory area =
    hook_create_screen_info-finish a granted shown
    ∙ rw (le→leb _ _ few) (simp (failed, memory, area))
