-- ===== src/Prelude/Shifts.antt =====
-- Masks of adjacent bits, and `|` of numbers in either order.
use Prim.Native.Nat.{ℕ, zero, suc, ◌+◌, ◌-◌, ◌*◌, ◌/◌, ◌%◌, ◌^◌, ◌≤◌, ◌<◌, bit_and, bit_or}
use mathlib.Core.Path.{◌≡◌, refl, ap, ap₂, ◌∙◌}
use native.Mathlib.Nat.{pow-suc}
use native.Mathlib.Omega.{arith}
use libuiohook.Prelude.Bits.{bit_and_step, bit_or_step, bit_or-add, bit_and-zero}

bit_or-comm_fuel : (n a b : ℕ) → a ≤ n → b ≤ n → bit_or a b ≡ bit_or b a
bit_or-comm_fuel zero zero zero h k = refl
bit_or-comm_fuel zero (suc a) b h k = absurd (omega arith)
bit_or-comm_fuel zero zero (suc b) h k = absurd (omega arith)
bit_or-comm_fuel (suc n) a b h k = omega (
  arith,
  bit_or_step a b,
  bit_or_step b a,
  bit_or-comm_fuel n (a / 2) (b / 2) (omega arith) (omega arith),
)

-- A number below a power of two and that power make their sum.
pub bit_or-pow : (n a : ℕ) → a < 2 ^ n → bit_or a (2 ^ n) ≡ a + 2 ^ n
bit_or-pow n a h =
    bit_or-comm_fuel (2 ^ n) a (2 ^ n) (omega arith) (omega arith)
    ∙ ap (λ (t : ℕ). bit_or t a) one
    ∙ bit_or-add n 1 a h
    ∙ omega arith
  where
    one : 2 ^ n ≡ 1 * 2 ^ n
    one = omega arith

twice : (n q : ℕ) → q * 2 ^ suc n ≡ q * 2 ^ n + q * 2 ^ n
twice n q = omega (arith, ap (λ (t : ℕ). q * t) (pow-suc 2 n))

-- Half of a number that is given by its bits from `n + 1` on and those below.
halve :
    (n q r : ℕ) → ((q * 2 ^ suc n + r) / 2 ≡ q * 2 ^ n + r / 2) × ((q * 2 ^ suc n + r) % 2 ≡ r % 2)
halve n q r = (omega (arith, twice n q), omega (arith, twice n q))

-- The mask of the lowest `n` bits keeps those bits.
pub bit_and-low : (n q r : ℕ) → r < 2 ^ n → bit_and (q * 2 ^ n + r) (2 ^ n - 1) ≡ r
bit_and-low zero q zero h = bit_and-zero (q * 2 ^ 0 + 0)
bit_and-low zero q (suc r) h = absurd (omega arith)
bit_and-low (suc n) q r h = omega (
  arith,
  pow-suc 2 n,
  bit_and_step (q * 2 ^ suc n + r) (2 ^ suc n - 1),
  (halve n q r).1,
  ap₂ bit_and (halve n q r).0 mask,
  bit_and-low n q (r / 2) (omega (arith, pow-suc 2 n)),
)
  where
    mask : (2 ^ suc n - 1) / 2 ≡ 2 ^ n - 1
    mask = omega (arith, pow-suc 2 n)

-- A mask of bits from `n` on masks those bits.
pub bit_and-high :
    (n q r m : ℕ) → r < 2 ^ n → bit_and (q * 2 ^ n + r) (m * 2 ^ n) ≡ bit_and q m * 2 ^ n
bit_and-high zero q zero m h = ap₂ bit_and (the_same q) (mul_one m) ∙ mul_one_sym (bit_and q m)
  where
    the_same : (q : ℕ) → q * 2 ^ 0 + 0 ≡ q
    the_same q = omega arith

    mul_one : (m : ℕ) → m * 2 ^ 0 ≡ m
    mul_one m = omega arith

    mul_one_sym : (m : ℕ) → m ≡ m * 2 ^ 0
    mul_one_sym m = omega arith
bit_and-high zero q (suc r) m h = absurd (omega arith)
bit_and-high (suc n) q r m h = omega (
  arith,
  bit_and_step (q * 2 ^ suc n + r) (m * 2 ^ suc n),
  twice n m,
  twice n (bit_and q m),
  ap₂ bit_and (halve n q r).0 mask,
  bit_and-high n q (r / 2) m (omega (arith, pow-suc 2 n)),
)
  where
    mask : m * 2 ^ suc n / 2 ≡ m * 2 ^ n
    mask = omega (arith, twice n m)

bit_and_odd : (x m : ℕ) → bit_and x (2 * m + 1) ≡ bit_and (x / 2) m * 2 + x % 2
bit_and_odd x m = omega (arith, bit_and_step x (2 * m + 1), ap (bit_and (x / 2)) half)
  where
    half : (2 * m + 1) / 2 ≡ m
    half = omega arith

bit_and_five : (x : ℕ) → bit_and x 31 ≡ x % 32
bit_and_five x = omega (
  arith,
  bit_and_odd x 15,
  bit_and_odd (x / 2) 7,
  bit_and_odd (x / 2 / 2) 3,
  bit_and_odd (x / 2 / 2 / 2) 1,
  bit_and_odd (x / 2 / 2 / 2 / 2) 0,
  bit_and-zero (x / 2 / 2 / 2 / 2 / 2),
)

-- A mask of ten ones keeps the low ten bits.
pub bit_and_ten : (x : ℕ) → bit_and x 0x3FF ≡ x % 1024
bit_and_ten x = omega (
  arith,
  bit_and_odd x 511,
  bit_and_odd (x / 2) 255,
  bit_and_odd (x / 2 / 2) 127,
  bit_and_odd (x / 2 / 2 / 2) 63,
  bit_and_odd (x / 2 / 2 / 2 / 2) 31,
  bit_and_five (x / 2 / 2 / 2 / 2 / 2),
)

bit_and_even : (x m : ℕ) → bit_and x (2 * m) ≡ bit_and (x / 2) m * 2
bit_and_even x m = omega (arith, bit_and_step x (2 * m), ap (bit_and (x / 2)) half)
  where
    half : 2 * m / 2 ≡ m
    half = omega arith

-- The five bits above the low byte.
pub bit_and_buttons : (x : ℕ) → bit_and x 0x1F00 ≡ x / 2 / 2 / 2 / 2 / 2 / 2 / 2 / 2 % 32 * 256
bit_and_buttons x = omega (
  arith,
  bit_and_even x 3968,
  bit_and_even (x / 2) 1984,
  bit_and_even (x / 2 / 2) 992,
  bit_and_even (x / 2 / 2 / 2) 496,
  bit_and_even (x / 2 / 2 / 2 / 2) 248,
  bit_and_even (x / 2 / 2 / 2 / 2 / 2) 124,
  bit_and_even (x / 2 / 2 / 2 / 2 / 2 / 2) 62,
  bit_and_even (x / 2 / 2 / 2 / 2 / 2 / 2 / 2) 31,
  bit_and_five (x / 2 / 2 / 2 / 2 / 2 / 2 / 2 / 2),
)
