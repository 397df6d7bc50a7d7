-- ===== src/Windows/Wheel/Laws.antt =====
-- src/windows/input_helper.c: what `get_scroll_wheel_rotation` keeps and reports.
use libuiohook.Prelude.{
  ℕ, ◌+◌, ◌*◌, ◌≤◌, ◌<◌, ◌≡◌, List, [], ◌∷◌, arith, ℤ, pos, negsuc, pos_part, neg_part, neg, ◌+ℤ◌,
  +ℤ_parts,
}
use libuiohook.Event.Masks.{wheel_vertical_direction}
use libuiohook.Windows.Wheel.{Rotation, to_int16, quot_delta, rem_delta, get_scroll_wheel_rotation}

-- Less than one notch in either direction.
abbrev pub IsPartial : ℤ → Type 0
IsPartial z = (pos_part z < 120) × (neg_part z < 120)

pub record IsValid (r : Rotation) : Type 0 where
  pub vertical_partial : IsPartial r.vertical
  pub horizontal_partial : IsPartial r.horizontal

rem_delta-IsPartial : (z : ℤ) → IsPartial (rem_delta z)
unfolding rem_delta
rem_delta-IsPartial (pos n) = ground arith
rem_delta-IsPartial (negsuc n) = ground arith

-- Whatever delta comes, in either direction, the kept rotations stay below one notch of 120 if they
-- were below it before.
pub get_scroll_wheel_rotation-IsValid :
    (delta : ℤ) (direction : ℕ) (r : Rotation)
    → IsValid r
    → IsValid (get_scroll_wheel_rotation delta direction r).0
unfolding get_scroll_wheel_rotation
get_scroll_wheel_rotation-IsValid delta direction r v = ground (
  arith,
  rem_delta-IsPartial (to_int16 (r.vertical +ℤ delta)),
  rem_delta-IsPartial (to_int16 (r.horizontal +ℤ delta)),
)

-- A delta that does not overflow when a partial rotation is added: at most 32648 notch units.
abbrev pub IsModest : ℤ → Type 0
IsModest z = (pos_part z ≤ 32648) × (neg_part z ≤ 32648)

to_int16-fits : (z : ℤ) → pos_part z < 32768 → neg_part z ≤ 32768 → to_int16 z ≡ z
unfolding to_int16
to_int16-fits (pos n) h k = ground arith
to_int16-fits (negsuc n) h k = ground arith

quot-rem :
    (z : ℤ)
    → pos_part z + 120 * neg_part (quot_delta z) + neg_part (rem_delta z)
      ≡ neg_part z + 120 * pos_part (quot_delta z) + pos_part (rem_delta z)
unfolding quot_delta rem_delta
quot-rem (pos n) = ground arith
quot-rem (negsuc n) = ground arith

+ℤ_bounds :
    (a b : ℤ)
    → (pos_part (a +ℤ b) ≤ pos_part a + pos_part b) × (neg_part (a +ℤ b) ≤ neg_part a + neg_part b)
unfolding ◌+ℤ◌
+ℤ_bounds a b = ground arith

neg_parts : (a : ℤ) → (pos_part (neg a) ≡ neg_part a) × (neg_part (neg a) ≡ pos_part a)
neg_parts (pos n) = ground arith
neg_parts (negsuc n) = ground arith

sum_fits : (a b : ℤ) → IsPartial a → IsModest b → to_int16 (a +ℤ b) ≡ a +ℤ b
sum_fits a b v m =
    to_int16-fits (a +ℤ b) (omega (arith, (+ℤ_bounds a b).0)) (omega (arith, (+ℤ_bounds a b).1))

-- What is kept and what is reported add up to what was kept before and the delta.
turn_balance :
    (a b : ℤ)
    → IsPartial a
    → IsModest b
    → let t = to_int16 (a +ℤ b) in
      pos_part (rem_delta t) + 120 * pos_part (quot_delta t) + neg_part a + neg_part b
      ≡ neg_part (rem_delta t) + 120 * neg_part (quot_delta t) + pos_part a + pos_part b
turn_balance a b v m = rw (sum_fits a b v m) (omega (arith, quot-rem (a +ℤ b), +ℤ_parts a b))

abbrev pub total : List ℤ → ℤ
total [] = pos 0
total (d ∷ ds) = d +ℤ total ds

abbrev pub AllModest : List ℤ → Type 0
AllModest [] = Unit {0}
AllModest (d ∷ ds) = IsModest d × AllModest ds

-- Several deltas of one direction, newest first: the rotation kept, and the sum of the values.
pub turn_all : ℕ → List ℤ → Rotation → Rotation × ℤ
turn_all direction [] r = (r, pos 0)
turn_all direction (d ∷ ds) r =
    let (r1, reported) = turn_all direction ds r in
    let (r2, value) = get_scroll_wheel_rotation d direction r1 in (r2, value +ℤ reported)

turn_all-IsValid :
    (direction : ℕ) (ds : List ℤ) (r : Rotation) → IsValid r → IsValid (turn_all direction ds r).0
unfolding turn_all
turn_all-IsValid direction [] r v = v
turn_all-IsValid direction (d ∷ ds) r v =
    get_scroll_wheel_rotation-IsValid d direction _ (turn_all-IsValid direction ds r v)

neg_balance :
    (k r a b q : ℤ)
    → pos_part k + 120 * pos_part q + neg_part a + neg_part b
      ≡ neg_part k + 120 * neg_part q + pos_part a + pos_part b
    → pos_part k + 120 * neg_part (neg q +ℤ r) + 120 * pos_part r + neg_part a + neg_part b
      ≡ neg_part k + 120 * pos_part (neg q +ℤ r) + 120 * neg_part r + pos_part a + pos_part b
neg_balance k r a b q h = omega (arith, +ℤ_parts (neg q) r, (neg_parts q).0, (neg_parts q).1)

-- One vertical delta: the rotation kept and what is reported, in the sign of the event.
vertical_step :
    (d : ℤ) (r : Rotation) (reported : ℤ)
    → IsPartial r.vertical
    → IsModest d
    → let (r', value) = get_scroll_wheel_rotation d wheel_vertical_direction r in
      pos_part r'.vertical
        + 120 * neg_part (value +ℤ reported)
        + 120 * pos_part reported
        + neg_part r.vertical
        + neg_part d
      ≡ neg_part r'.vertical
        + 120 * pos_part (value +ℤ reported)
        + 120 * neg_part reported
        + pos_part r.vertical
        + pos_part d
unfolding get_scroll_wheel_rotation
vertical_step d r reported v m =
    neg_balance (rem_delta (to_int16 (r.vertical +ℤ d))) reported r.vertical d
      (quot_delta (to_int16 (r.vertical +ℤ d))) (turn_balance r.vertical d v m)

-- No rotation is lost: over any list of vertical deltas of at most 32648 units, 120 times the
-- values reported, which point the other way, and the rotation kept add up to the rotation kept
-- before and the deltas.
pub turn_all_vertical :
    (ds : List ℤ) (r : Rotation)
    → IsValid r
    → AllModest ds
    → let (r', reported) = turn_all wheel_vertical_direction ds r in
      pos_part r'.vertical + 120 * neg_part reported + neg_part r.vertical + neg_part (total ds)
      ≡ neg_part r'.vertical + 120 * pos_part reported + pos_part r.vertical + pos_part (total ds)
unfolding turn_all
turn_all_vertical [] r v m = omega arith
turn_all_vertical (d ∷ ds) r v m = omega (
  arith,
  vertical_step d (turn_all wheel_vertical_direction ds r).0
      (turn_all wheel_vertical_direction ds r).1
      (turn_all-IsValid wheel_vertical_direction ds r v).vertical_partial m.0,
  turn_all_vertical ds r v m.1,
  +ℤ_parts d (total ds),
)
