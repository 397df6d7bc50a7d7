-- ===== src/Prelude/Words.antt =====
-- Machine words: a w-bit value is a number below 2 ^ w, with its wrap-around written out.
use Prim.Native.Nat.{ℕ, ◌+◌, ◌-◌, ◌%◌}
use libuiohook.Prelude.Tests.{ltb, if◌then◌else◌}
use libuiohook.Prelude.Int.{ℤ, pos, negsuc}

abbrev pub u16 : ℕ → ℕ
u16 n = n % 65536

-- `a - b` in 16, 32 and 64 bits, both operands below the modulus.
abbrev pub sub16 : ℕ → ℕ → ℕ
sub16 a b = (a + 65536 - b) % 65536

abbrev pub sub32 : ℕ → ℕ → ℕ
sub32 a b = (a + 4294967296 - b) % 4294967296

abbrev pub sub64 : ℕ → ℕ → ℕ
sub64 a b = (a + 18446744073709551616 - b) % 18446744073709551616

-- The integers that the bit patterns stand for in two's complement.
abbrev pub signed16 : ℕ → ℤ
signed16 w = if ltb w 32768 then pos w else negsuc (65536 - w - 1)

abbrev pub signed32 : ℕ → ℤ
signed32 w = if ltb w 2147483648 then pos w else negsuc (4294967296 - w - 1)

abbrev pub signed64 : ℕ → ℤ
signed64 w = if ltb w 9223372036854775808 then pos w else negsuc (18446744073709551616 - w - 1)

-- `~m` in 16 bits.
abbrev pub not16 : ℕ → ℕ
not16 m = 65535 - m
