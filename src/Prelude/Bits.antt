-- ===== src/Prelude/Bits.antt =====
-- Bits of a number, and how `|`, `&` and `~` act on each of them.
use Prim.Native.Nat.{
  ℕ, zero, suc, ◌+◌, ◌-◌, ◌*◌, ◌/◌, ◌%◌, ◌^◌, ◌≤◌, ◌<◌, min, max, digits, bitwise, bit_and, bit_or,
  bit_and-bitwise, bit_or-bitwise,
}
use mathlib.Core.Path.{◌≡◌, refl, ap, ◌∙◌}
use mathlib.Core.Logic.{inl, inr}
use mathlib.Core.List.{List, [], ◌∷◌}
use mathlib.Core.Bool.{Bool, false}
use mathlib.Core.Option.{Option, none, some}
use native.Mathlib.Nat.{pow-suc}
use native.Mathlib.Omega.{arith}
use libuiohook.Prelude.Tests.{◌==◌, if◌then◌else◌, ltb, Bool-cases}
use libuiohook.Prelude.Words.{not16}

-- Bit `j` of `x`, 0 or 1.
abbrev pub bit : ℕ → ℕ → ℕ
bit x zero = x % 2
bit x (suc j) = bit (x / 2) j

pub bit-le : (x j : ℕ) → bit x j ≤ 1
bit-le x zero = omega arith
bit-le x (suc j) = bit-le (x / 2) j

-- One more unit of fuel than the first number needs makes no difference to `digits`.
digits_more :
    (other : ℕ → ℕ) (join : ℕ → ℕ → ℕ) (fuel x y : ℕ)
    → x ≤ fuel
    → digits other join (suc fuel) x y ≡ digits other join fuel x y
digits_more other join zero zero y h = refl
digits_more other join zero (suc x) y h = absurd (omega arith)
digits_more other join (suc fuel) zero y h = refl
digits_more other join (suc fuel) (suc x) y h =
    ap (λ (t : ℕ). t * 2 + join (suc x % 2) (y % 2))
      (digits_more other join fuel (suc x / 2) (y / 2) (omega arith))

-- So any fuel that is enough gives what `bitwise` gives.
digits-bitwise :
    (other : ℕ → ℕ) (join : ℕ → ℕ → ℕ) (fuel x y : ℕ)
    → x ≤ fuel
    → digits other join fuel x y ≡ bitwise other join x y
digits-bitwise other join zero zero y h = refl
digits-bitwise other join zero (suc x) y h = absurd (omega arith)
digits-bitwise other join (suc fuel) x y h = elim (Bool-cases (ltb fuel x)) [
  | inl more ↦
      let same : suc fuel ≡ x = ground arith in ap (λ (t : ℕ). digits other join t x y) same
  | inr less ↦
      digits_more other join fuel x y (ground arith)
      ∙ digits-bitwise other join fuel x y (ground arith)
]

pub bit_or_step : (x y : ℕ) → bit_or x y ≡ bit_or (x / 2) (y / 2) * 2 + max (x % 2) (y % 2)
bit_or_step zero y = omega (arith, bit_or-bitwise 0 y, bit_or-bitwise 0 (y / 2))
bit_or_step (suc x) y = omega (
  arith,
  bit_or-bitwise (suc x) y,
  bit_or-bitwise (suc x / 2) (y / 2),
  digits-bitwise (λ t. t) max x (suc x / 2) (y / 2) (omega arith),
)

pub bit_and_step : (x y : ℕ) → bit_and x y ≡ bit_and (x / 2) (y / 2) * 2 + min (x % 2) (y % 2)
bit_and_step zero y = omega (arith, bit_and-bitwise 0 y, bit_and-bitwise 0 (y / 2))
bit_and_step (suc x) y = omega (
  arith,
  bit_and-bitwise (suc x) y,
  bit_and-bitwise (suc x / 2) (y / 2),
  digits-bitwise (λ t. 0) min x (suc x / 2) (y / 2) (omega arith),
)

zero-bit_and : (b : ℕ) → bit_and 0 b ≡ 0
zero-bit_and b = bit_and-bitwise 0 b

-- `&` is at most its second number, by halving the first `rounds` times.
bit_and-le_right : (rounds x y : ℕ) → x ≤ rounds → bit_and x y ≤ y
bit_and-le_right zero zero y none_left = omega (arith, zero-bit_and y)
bit_and-le_right zero (suc x) y none_left = absurd (omega arith)
bit_and-le_right (suc rounds) x y enough =
    omega (arith, bit_and_step x y, bit_and-le_right rounds (x / 2) (y / 2) (omega arith))

pub bit_and-zero : (x : ℕ) → bit_and x 0 ≡ 0
bit_and-zero x = omega (arith, bit_and-le_right x x 0 (omega arith))

half-bit_or : (a b : ℕ) → bit_or a b / 2 ≡ bit_or (a / 2) (b / 2)
half-bit_or a b = omega (arith, bit_or_step a b)

half-bit_and : (a b : ℕ) → bit_and a b / 2 ≡ bit_and (a / 2) (b / 2)
half-bit_and a b = omega (arith, bit_and_step a b)

pub bit-bit_or : (a b j : ℕ) → bit (bit_or a b) j ≡ max (bit a j) (bit b j)
bit-bit_or a b zero = omega (arith, bit_or_step a b)
bit-bit_or a b (suc j) = rw (half-bit_or a b) (bit-bit_or (a / 2) (b / 2) j)

pub bit-bit_and : (a b j : ℕ) → bit (bit_and a b) j ≡ min (bit a j) (bit b j)
bit-bit_and a b zero = omega (arith, bit_and_step a b)
bit-bit_and a b (suc j) = rw (half-bit_and a b) (bit-bit_and (a / 2) (b / 2) j)

-- The complement in `n` bits.
bit_complement : (n m j : ℕ) → m < 2 ^ n → j < n → bit (2 ^ n - 1 - m) j ≡ 1 - bit m j
bit_complement zero m j h k = absurd (omega arith)
bit_complement (suc n) m zero h k = omega (arith, pow-suc 2 n)
bit_complement (suc n) m (suc j) h k =
    rw halves (bit_complement n (m / 2) j (omega (arith, pow-suc 2 n)) (omega arith))
  where
    halves : (2 ^ suc n - 1 - m) / 2 ≡ 2 ^ n - 1 - m / 2
    halves = omega (arith, pow-suc 2 n)

pub bit-not16 : (m j : ℕ) → m < 65536 → j < 16 → bit (not16 m) j ≡ 1 - bit m j
bit-not16 m j h k = bit_complement 16 m j h k

-- A power of two has one bit.
pub bit-zero : (j : ℕ) → bit 0 j ≡ 0
bit-zero zero = refl
bit-zero (suc j) = bit-zero j

pub bit-pow : (k j : ℕ) → bit (2 ^ k) j ≡ (if k == j then 1 else 0)
bit-pow zero zero = refl
bit-pow zero (suc j) = bit-zero j ∙ ground arith
bit-pow (suc k) zero = even ∙ ground arith
  where
    even : 2 ^ suc k % 2 ≡ 0
    even = omega (arith, pow-suc 2 k)
bit-pow (suc k) (suc j) =
    let half : 2 ^ suc k / 2 ≡ 2 ^ k = omega (arith, pow-suc 2 k) in
    rw half (bit-pow k j ∙ ground arith)

-- The test of one bit.
pub bit_and-pow : (x k : ℕ) → bit_and x (2 ^ k) ≡ bit x k * 2 ^ k
bit_and-pow x zero = omega (arith, bit_and_step x 1, bit_and-zero (x / 2))
bit_and-pow x (suc k) = omega (
  arith,
  pow-suc 2 k,
  bit_and_step x (2 ^ suc k),
  ap (bit_and (x / 2)) half,
  bit_and-pow (x / 2) k,
  ap (λ (t : ℕ). bit (x / 2) k * t) (pow-suc 2 k),
)
  where
    half : 2 ^ suc k / 2 ≡ 2 ^ k
    half = omega (arith, pow-suc 2 k)

pub bit_or-lt : (n a b : ℕ) → a < 2 ^ n → b < 2 ^ n → bit_or a b < 2 ^ n
bit_or-lt zero zero zero h k = omega (arith, bit_or_step 0 0)
bit_or-lt zero (suc a) b h k = absurd (omega arith)
bit_or-lt zero zero (suc b) h k = absurd (omega arith)
bit_or-lt (suc n) a b h k = omega (
  arith,
  pow-suc 2 n,
  bit_or_step a b,
  bit_or-lt n (a / 2) (b / 2) (omega (arith, pow-suc 2 n)) (omega (arith, pow-suc 2 n)),
)

pub bit_and-le : (n a b : ℕ) → a < 2 ^ n → bit_and a b ≤ a
bit_and-le zero zero b h = omega (arith, zero-bit_and b)
bit_and-le zero (suc a) b h = absurd (omega arith)
bit_and-le (suc n) a b h =
    omega (arith, bit_and_step a b, bit_and-le n (a / 2) (b / 2) (omega (arith, pow-suc 2 n)))

-- Two numbers with the same bits are equal.
pub bit_ext : (n a b : ℕ) → a < 2 ^ n → b < 2 ^ n → ((j : ℕ) → j < n → bit a j ≡ bit b j) → a ≡ b
bit_ext zero a b h k same = omega arith
bit_ext (suc n) a b h k same = omega (
  arith,
  pow-suc 2 n,
  same 0 (omega arith),
  bit_ext n (a / 2) (b / 2) (omega (arith, pow-suc 2 n)) (omega (arith, pow-suc 2 n))
      (λ j l. same (suc j) (omega arith)),
)

bit_or-zero_fuel : (n a : ℕ) → a ≤ n → bit_or a 0 ≡ a
bit_or-zero_fuel n zero h = omega (arith, bit_or-bitwise 0 0)
bit_or-zero_fuel zero (suc a) h = absurd (omega arith)
bit_or-zero_fuel (suc n) (suc a) h =
    omega (arith, bit_or_step (suc a) 0, bit_or-zero_fuel n (suc a / 2) (omega arith))

-- Where no bits meet, `|` is a sum.
pub bit_or-add : (n a b : ℕ) → b < 2 ^ n → bit_or (a * 2 ^ n) b ≡ a * 2 ^ n + b
bit_or-add zero a zero h =
    omega (arith, ap (λ (t : ℕ). bit_or t 0) one, bit_or-zero_fuel a a (omega arith))
  where
    one : a * 2 ^ 0 ≡ a
    one = omega arith
bit_or-add zero a (suc b) h = absurd (omega arith)
bit_or-add (suc n) a b h = omega (
  arith,
  double,
  bit_or_step (a * 2 ^ suc n) b,
  ap (λ (t : ℕ). bit_or t (b / 2)) half,
  bit_or-add n a (b / 2) (omega (arith, pow-suc 2 n)),
)
  where
    double : a * 2 ^ suc n ≡ a * 2 ^ n + a * 2 ^ n
    double = omega (arith, ap (λ (t : ℕ). a * t) (pow-suc 2 n))

    half : a * 2 ^ suc n / 2 ≡ a * 2 ^ n
    half = omega (arith, double)

-- Or-ing with one bit sets that bit and keeps the others.
pub bit-set : (m k j : ℕ) → bit (bit_or m (2 ^ k)) j ≡ (if k == j then 1 else bit m j)
bit-set m k j = ground (arith, bit-bit_or m (2 ^ k) j, bit-pow k j, bit-le m j)

-- And-ing with the complement of one bit clears that bit and keeps the others.
pub bit-unset :
    (m k j : ℕ)
    → 2 ^ k < 65536
    → j < 16
    → bit (bit_and m (not16 (2 ^ k))) j ≡ (if k == j then 0 else bit m j)
bit-unset m k j h l =
    ground
      (arith, bit-bit_and m (not16 (2 ^ k)) j, bit-not16 (2 ^ k) j h l, bit-pow k j, bit-le m j)

-- A bit for each of some codes, and what a mask of one bit is.
abbrev pub find_bit : List (ℕ × ℕ) → ℕ → Option ℕ
find_bit [] code = none
find_bit ((c, b) ∷ rest) code = if c == code then some b else find_bit rest code

abbrev pub is_bit : Option ℕ → ℕ → Bool
is_bit none j = false
is_bit (some b) j = b == j

abbrev pub power : Option ℕ → Option ℕ
power none = none
power (some b) = some (2 ^ b)
