-- ===== src/Windows/Screens/Cells.antt =====
-- src/windows/system_properties.c: one call of `monitor_enum_proc`, from the screens before it.
use libuiohook.Prelude.{
  ℕ, suc, ◌+◌, ◌%◌, ◌≡◌, ◌≤◌, ◌<◌, refl, ap, sym, ◌∙◌, true, false, List, [], ◌∷◌, ◌++◌, map,
  Option, none, some, length, length-append, length-map, arith, ltb, ltb→lt, if◌then◌else◌,
  Bool-cases, inl, inr,
}
use libuiohook.Event.{ScreenData}
use libuiohook.Screens.{Block, Screens, no_screens, resize, store, screen, store-resize}
use libuiohook.Windows.Screens.{
  Monitor, with_cells, width_of, height_of, has_area, grow, numbered, monitor_enum_proc,
}

-- The monitors with an area.
abbrev pub visible : List Monitor → List Monitor
visible [] = []
visible (m ∷ ms) = if has_area (width_of m) (height_of m) then m ∷ visible ms else visible ms

-- Their screens, numbered from `n + 1` on.
abbrev pub screens_from : ℕ → List Monitor → List ScreenData
screens_from n [] = []
screens_from n (m ∷ ms) =
    screen (suc n) m.left m.top (width_of m) (height_of m) ∷ screens_from (suc n) ms

abbrev pub AllGranted : List Monitor → Type 0
AllGranted [] = Unit {0}
AllGranted (m ∷ ms) = (m.granted ≡ true) × AllGranted ms

-- The screens written so far.
abbrev pub listed : List ScreenData → Screens
listed [] = no_screens
listed (d ∷ ds) = record { count = suc (length ds); cells = some (map some (d ∷ ds)); blocks = 1 }

abbrev pub screen_of : ℕ → Monitor → ScreenData
screen_of n m = screen (suc n) m.left m.top (width_of m) (height_of m)

-- A monitor with an area and with memory, in two steps.
next_cell : Monitor → Screens → Option Screens
next_cell m s =
    let grown = grow true ((s.count + 1) % 256) s in
    with_cells grown (numbered s.count m grown.cells)

monitor_enum_proc-visible :
    (m : Monitor) (s : Screens)
    → has_area (width_of m) (height_of m) ≡ true
    → m.granted ≡ true
    → monitor_enum_proc m s ≡ next_cell m s
unfolding monitor_enum_proc next_cell
monitor_enum_proc-visible m s a g = simp (a, g)

map-snoc :
    (ds : List ScreenData) (e : ScreenData) → map some ds ++ some e ∷ [] ≡ map some (ds ++ e ∷ [])
map-snoc [] e = refl
map-snoc (d ∷ ds) e = ap (λ (r : Block). some d ∷ r) (map-snoc ds e)

-- The write with the index, the count and the size of the block taken apart.
write_at : Monitor → Block → ℕ → ℕ → ℕ → Option Screens
write_at m cells i count size =
    with_cells (record { count = count; cells = some (resize size cells); blocks = 1 })
      (store i (screen count m.left m.top (width_of m) (height_of m)) (resize size cells))

next_cell-write_at :
    (m : Monitor) (d : ScreenData) (ds : List ScreenData)
    → next_cell m (listed (d ∷ ds))
      ≡ write_at m
          (map some (d ∷ ds))
          (suc (length ds))
          ((suc (length ds) + 1) % 256)
          ((suc (length ds) + 1) % 256)
unfolding next_cell grow numbered write_at
next_cell-write_at m d ds = refl

-- The write to the new last cell.
next_cell-room :
    (m : Monitor) (d : ScreenData) (ds : List ScreenData)
    → suc (length ds) < 255
    → next_cell m (listed (d ∷ ds)) ≡ some (listed (d ∷ ds ++ screen_of (suc (length ds)) m ∷ []))
unfolding write_at with_cells
next_cell-room m d ds room =
    next_cell-write_at m d ds
    ∙ ap (λ (c : ℕ). write_at m old n c c) count
    ∙ ap (λ (i : ℕ). write_at m old i (suc n) (suc i)) (sym as_long)
    ∙ ap
        (with_cells
          (record { count = suc n; cells = some (resize (suc (length old)) old); blocks = 1 }))
        (store-resize old (screen_of n m))
    ∙ ap
        (λ (cells : Block).
          some (record { count = suc n; cells = some (some d ∷ cells); blocks = 1 }))
        (map-snoc ds (screen_of n m))
    ∙ ap
        (λ (c : ℕ). some (record {
          count = suc c;
          cells = some (map some (d ∷ ds ++ screen_of n m ∷ []));
          blocks = 1;
        }))
        longer
  where
    n : ℕ
    n = suc (length ds)

    old : Block
    old = map some (d ∷ ds)

    count : (n + 1) % 256 ≡ suc n
    count = omega (arith, room)

    as_long : length old ≡ n
    as_long = length-map (d ∷ ds) some

    longer : n ≡ length (ds ++ screen_of n m ∷ [])
    longer = omega (arith, length-append ds (screen_of n m ∷ []))

-- At 255 the count comes back to 0: the block is shrunk to nothing and the write leaves it.
next_cell-full :
    (m : Monitor) (d : ScreenData) (ds : List ScreenData)
    → suc (length ds) ≡ 255
    → next_cell m (listed (d ∷ ds)) ≡ none
unfolding write_at resize store with_cells
next_cell-full m d ds full =
    next_cell-write_at m d ds
    ∙ ap (λ (n : ℕ). write_at m (map some (d ∷ ds)) n ((n + 1) % 256) ((n + 1) % 256)) full

pub monitor_enum_proc-listed :
    (m : Monitor) (ds : List ScreenData)
    → has_area (width_of m) (height_of m) ≡ true
    → m.granted ≡ true
    → length ds ≤ 255
    → monitor_enum_proc m (listed ds)
      ≡ (if ltb (length ds) 255 then some (listed (ds ++ screen_of (length ds) m ∷ [])) else none)
unfolding next_cell grow numbered store with_cells
monitor_enum_proc-listed m [] a g le = monitor_enum_proc-visible m no_screens a g
monitor_enum_proc-listed m (d ∷ ds) a g le =
    monitor_enum_proc-visible m (listed (d ∷ ds)) a g
    ∙ elim (Bool-cases (ltb (suc (length ds)) 255)) [
      | inl room ↦ rw room (next_cell-room m d ds (ltb→lt _ _ room))
      | inr full ↦ rw full (next_cell-full m d ds (ground arith))
    ]

pub monitor_enum_proc-hidden :
    (m : Monitor) (s : Screens)
    → has_area (width_of m) (height_of m) ≡ false
    → monitor_enum_proc m s ≡ some s
unfolding monitor_enum_proc
monitor_enum_proc-hidden m s h = simp h
