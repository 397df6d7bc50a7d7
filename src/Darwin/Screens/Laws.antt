-- ===== src/Darwin/Screens/Laws.antt =====
-- src/darwin/system_properties.c: the array of screens, and the memory of the caller.
use libuiohook.Prelude.{
  ℕ, zero, suc, ◌+◌, ◌-◌, ◌≡◌, ◌≤◌, refl, ap, sym, ◌∙◌, Bool, true, false, ◌&&◌, List, [], ◌∷◌,
  Option, none, some, length, arith, ltb, Bool-cases, inl, inr, if◌then◌else◌, if_both,
}
use libuiohook.Screens.{Block, Screens, fresh, store_all, store_all-fresh}
use libuiohook.Darwin.Screens.{
  Bounds, ScreenAnswers, Answered, low_byte, high_bytes, display_entries, stored, list_displays,
  fall_back, query, with_ids, with_count, no_answer, hook_create_screen_info,
}

length-display_entries : (b : ℕ → Bounds) (i n : ℕ) → length (display_entries b i n) ≡ n
unfolding display_entries
length-display_entries b i zero = refl
length-display_entries b i (suc n) = ap suc (length-display_entries b (suc i) n)

-- The blocks that are left: the array, if there is one.
abbrev pub owned : Option Block → ℕ
owned none = 0
owned (some cells) = 1

list_displays_lem :
    (granted : Bool) (b : ℕ → Bounds) (n : ℕ)
    → list_displays granted b n
      ≡ some (record {
        count = n;
        cells = if granted then some (display_entries b 0 n) else none;
        blocks = if granted then 1 else 0;
      })
unfolding list_displays stored
list_displays_lem true b n =
    ap (λ (k : ℕ). stored n (store_all 0 (display_entries b 0 n) (fresh k)))
      (sym (length-display_entries b 0 n))
    ∙ ap (stored n) (store_all-fresh (display_entries b 0 n))
list_displays_lem false b n = refl

-- There are screens, and the blocks that are left are their array.
abbrev Owned : Option Screens → Type 0
Owned o = (s : Screens) × (o ≡ some s) × (s.blocks ≡ owned s.cells)

list_displays-Owned : (granted : Bool) (b : ℕ → Bounds) (n : ℕ) → Owned (list_displays granted b n)
list_displays-Owned true b n = (
  record { count = n; cells = some (display_entries b 0 n); blocks = 1 },
  list_displays_lem true b n,
  refl,
)
list_displays-Owned false b n =
    (record { count = n; cells = none; blocks = 0 }, list_displays_lem false b n, refl)

query-Owned : (a : ScreenAnswers) (n : ℕ) → Owned (query a n)
unfolding query fall_back
query-Owned a n =
    if_both Owned (a.success && ltb 0 n) (list_displays-Owned a.granted a.bounds n)
      (fall_back a n, refl, if_both (λ (s : Screens). s.blocks ≡ owned s.cells) main refl refl)
  where
    main : Bool
    main = ltb 0 a.width && ltb 0 a.height && a.granted

-- The caller has an answer, no block but the array is left, and these bytes are behind the count.
abbrev pub Answers : List ℕ → Option Answered → Type 0
Answers behind o =
    (r : Answered) × (o ≡ some r) × (r.screens.blocks ≡ owned r.screens.cells) × (r.behind ≡ behind)

with_ids-Answers :
    (behind : List ℕ) (o : Option Screens) → Owned o → Answers behind (with_ids behind o)
unfolding with_ids
with_ids-Answers behind o (s, e, owns) = (
  record { screens = record s { blocks = s.blocks + 1 - 1 }; behind = behind },
  ap (with_ids behind) e,
  omega (arith, owns),
  refl,
)

-- The bytes behind the count, of which the system stores 32 bits.
abbrev pub behind_written : List ℕ → Option ℕ → List ℕ
behind_written behind none = behind
behind_written behind (some n) = 0 ∷ 0 ∷ 0 ∷ []

abbrev pub AtMost : ℕ → Option ℕ → Type 0
AtMost k none = Unit {0}
AtMost k (some n) = n ≤ k

high_bytes_small : (n : ℕ) → n ≤ 255 → high_bytes n ≡ 0 ∷ 0 ∷ 0 ∷ []
unfolding high_bytes
high_bytes_small n h = ground arith

with_count-Answers :
    (a : ScreenAnswers) (behind : List ℕ) (written : Option ℕ)
    → AtMost 255 written
    → Answers (behind_written behind written) (with_count a behind written)
unfolding with_count
with_count-Answers a behind none few = with_ids-Answers behind (query a 0) (query-Owned a 0)
with_count-Answers a behind (some n) few =
    rw (← high_bytes_small n few)
      (with_ids-Answers (high_bytes n) (query a (low_byte n)) (query-Owned a (low_byte n)))

-- Whatever fails, no write leaves the array and nothing but the array stays allocated. But where the
-- system stores a count of at most 255, the three bytes of the caller's memory behind its count are
-- set to 0.
pub hook_create_screen_info-Answers :
    (a : ScreenAnswers) (behind : List ℕ)
    → AtMost 255 a.written
    → Answers
        (if a.ids_granted then behind_written behind a.written else behind)
        (hook_create_screen_info a behind)
unfolding hook_create_screen_info no_answer
hook_create_screen_info-Answers a behind few = elim (Bool-cases a.ids_granted) [
  | inl granted ↦ simp granted (with_count-Answers a behind a.written few)
  | inr refused ↦ simp refused (no_answer behind, refl, refl, refl)
]
