-- ===== src/Prelude/Words.antt =====
-- C's unsigned integers: a value is a number below 2 ^ w, and every operation wraps.
use Prim.Native.Nat.{ℕ, ◌+◌, ◌-◌, ◌%◌}
use mathlib.Core.Option.{Option, none, some}
use typiod_wayland.Prelude.Tests.{ltb, if◌then◌else◌}

-- (uint32_t)x
abbrev pub u32 : ℕ → ℕ
u32 n = n % 4294967296

-- (uint64_t)x; size_t is the same width
abbrev pub u64 : ℕ → ℕ
u64 n = n % 18446744073709551616

-- a - b on uint64_t operands
abbrev pub sub64 : ℕ → ℕ → ℕ
sub64 a b = (a + 18446744073709551616 - b) % 18446744073709551616

-- The conversion of an unsigned 64-bit number to an int: none where it is negative.
abbrev pub to_int : ℕ → Option ℕ
to_int n = if ltb (u32 n) 2147483648 then some (u32 n) else none
