-- ===== src/X11/Keysym/Search.antt =====
-- The binary search of src/x11/input_helper.c over `keysym_unicode_table`, by one field of the rows.
use libuiohook.Prelude.{
  ℕ, zero, suc, ◌+◌, ◌-◌, ◌/◌, ◌^◌, ◌≤◌, ◌<◌, ◌≡◌, ◌≢◌, ap, inl, inr, Bool-cases, ==→eq, List,
  arith, ltb, ◌==◌, if◌then◌else◌, length, get_or,
}
use native.Mathlib.Nat.{pow-suc}

-- The row found, no row, or no answer in the rounds that are given.
pub data Outcome : Type 0 where
  hit : ℕ → Outcome
  miss out_of_rounds : Outcome

-- What one round finds: the range is empty, or its middle is below, above or equal.
pub data Probe : Type 0 where
  empty below above equal : Probe

abbrev pub middle : ℕ → ℕ → ℕ
middle min stop = (min + stop - 1) / 2

abbrev pub probe : ℕ → ℕ → ℕ → ℕ → Probe
probe key value min stop =
    if ltb min stop
    then (if ltb value key then below else if ltb key value then above else equal)
    else empty

module _ (table : List (ℕ × ℕ)) (field : ℕ × ℕ → ℕ) (key : ℕ) where
  abbrev pub field_at : ℕ → ℕ
  field_at row = field (get_or table row (0, 0))

  -- `stop` is `max + 1`, since `max` may be -1: the test `max >= min` is `min < stop`.
  unfoldable pub search : ℕ → ℕ → ℕ → Outcome
  search zero min stop = out_of_rounds
  search (suc rounds) min stop = elim (probe key (field_at (middle min stop)) min stop) [
    | empty ↦ miss
    | below ↦ search rounds (middle min stop + 1) stop
    | above ↦ search rounds min (middle min stop)
    | equal ↦ hit (middle min stop)
  ]

  abbrev pub IsAscending : Type 0
  IsAscending = (i j : ℕ) → i < j → j < length table → field_at i < field_at j

  -- What an outcome says of the rows from `min` to `stop`, at row `i`.
  abbrev pub Tells : ℕ → ℕ → ℕ → Outcome → Type 0
  Tells min stop i (hit row) = (min ≤ row) × (row < stop) × (field_at row ≡ key)
  Tells min stop i miss = IsAscending → stop ≤ length table → min ≤ i → i < stop → field_at i ≢ key
  Tells min stop i out_of_rounds = ⊥

  -- The middle row is below the key, so only the rows after it matter.
  after_middle :
      (min stop i : ℕ) (o : Outcome)
      → min < stop
      → field_at (middle min stop) < key
      → Tells (middle min stop + 1) stop i o
      → Tells min stop i o
  after_middle min stop i (hit row) h b t = (omega arith, t.1, t.2)
  after_middle min stop i out_of_rounds h b t = t
  after_middle min stop i miss h b t = λ sorted fits lo hi same.
      elim (Bool-cases (ltb (middle min stop) i)) [
        | inl l ↦ t sorted fits (ground arith) hi same
        | inr l ↦ elim (Bool-cases (i == middle min stop)) [
          | inl e ↦ omega (arith, ap field_at (==→eq i (middle min stop) e))
          | inr e ↦ omega (arith, sorted i (middle min stop) (ground arith) (omega arith))
        ]
      ]

  -- The middle row is above the key, so only the rows before it matter.
  before_middle :
      (min stop i : ℕ) (o : Outcome)
      → min < stop
      → key < field_at (middle min stop)
      → Tells min (middle min stop) i o
      → Tells min stop i o
  before_middle min stop i (hit row) h b t = (t.0, omega arith, t.2)
  before_middle min stop i out_of_rounds h b t = t
  before_middle min stop i miss h b t = λ sorted fits lo hi same.
      elim (Bool-cases (ltb i (middle min stop))) [
        | inl l ↦ t sorted (omega arith) lo (ground arith) same
        | inr l ↦ elim (Bool-cases (i == middle min stop)) [
          | inl e ↦ omega (arith, ap field_at (==→eq i (middle min stop) e))
          | inr e ↦ omega (arith, sorted (middle min stop) i (ground arith) (omega arith))
        ]
      ]

  -- What the probe found is so.
  Found : Probe → ℕ → ℕ → ℕ → Type 0
  Found empty value min stop = stop ≤ min
  Found below value min stop = (min < stop) × (value < key)
  Found above value min stop = (min < stop) × (key < value)
  Found equal value min stop = (min < stop) × (value ≡ key)

  probe-Found : (value min stop : ℕ) → Found (probe key value min stop) value min stop
  unfolding Found
  probe-Found value min stop = ground arith

  round-Tells :
      (rounds min stop i : ℕ) (p : Probe)
      → Found p (field_at (middle min stop)) min stop
      → Tells (middle min stop + 1) stop i (search rounds (middle min stop + 1) stop)
      → Tells min (middle min stop) i (search rounds min (middle min stop))
      → Tells min stop i (elim p as (λ p. Outcome) [
        | empty ↦ miss
        | below ↦ search rounds (middle min stop + 1) stop
        | above ↦ search rounds min (middle min stop)
        | equal ↦ hit (middle min stop)
      ])
  unfolding Found
  round-Tells rounds min stop i empty f a b = λ sorted fits lo hi same. omega arith
  round-Tells rounds min stop i below f a b = after_middle min stop i _ f.0 f.1 a
  round-Tells rounds min stop i above f a b = before_middle min stop i _ f.0 f.1 b
  round-Tells rounds min stop i equal f a b = (omega (arith, f.0), omega (arith, f.0), f.1)

  ended-Tells :
      (min stop i : ℕ) (p : Probe)
      → Found p (field_at (middle min stop)) min stop
      → stop ≤ min
      → Tells min stop i (elim p as (λ p. Outcome) [
        | empty ↦ miss
        | below ↦ out_of_rounds
        | above ↦ out_of_rounds
        | equal ↦ hit (middle min stop)
      ])
  unfolding Found
  ended-Tells min stop i empty f h = λ sorted fits lo hi same. omega arith
  ended-Tells min stop i below f h = omega (arith, f.0)
  ended-Tells min stop i above f h = omega (arith, f.0)
  ended-Tells min stop i equal f h = absurd (omega (arith, f.0))

  -- In more rounds than the range can be halved the search ends, and what it says is right.
  pub search-Tells :
      (halvings min stop i : ℕ)
      → stop < min + 2 ^ halvings
      → Tells min stop i (search (suc halvings) min stop)
  unfolding search
  search-Tells zero min stop i small =
      ended-Tells min stop i (probe key (field_at (middle min stop)) min stop)
        (probe-Found (field_at (middle min stop)) min stop) (omega arith)
  search-Tells (suc halvings) min stop i small =
      round-Tells (suc halvings) min stop i (probe key (field_at (middle min stop)) min stop)
        (probe-Found (field_at (middle min stop)) min stop)
        (search-Tells halvings (middle min stop + 1) stop i (omega (arith, pow-suc 2 halvings)))
        (search-Tells halvings min (middle min stop) i (omega (arith, pow-suc 2 halvings)))
