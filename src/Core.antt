-- ===== src/Core.antt =====
-- src/include/elfboot/core.h: the rounding and clamping macros on `uint32_t`, and 32-bit sums and
-- differences, which wrap. `min` and `max` are the library's.
pub mod Round
mod Tests
use Prim.Native.Nat.{bit_and, bit_or}
use elfboot.Base.{ℕ, ◌+◌, ◌-◌, ◌%◌, ◌^◌, min, max, ltb, if◌then◌else◌}

abbrev pub u32 : ℕ → ℕ
u32 x = x % 2 ^ 32

abbrev pub add32 : ℕ → ℕ → ℕ
add32 a b = u32 (a + b)

abbrev pub sub32 : ℕ → ℕ → ℕ
sub32 a b = u32 (a + 2 ^ 32 - b)

unfoldable pub round_up : ℕ → ℕ → ℕ
round_up x y = add32 (bit_or (sub32 x 1) (y - 1)) 1

unfoldable pub round_down : ℕ → ℕ → ℕ
round_down x y = bit_and x (2 ^ 32 - 1 - (y - 1))

abbrev pub clamp : ℕ → ℕ → ℕ → ℕ
clamp value lower upper = min (max value lower) upper

abbrev pub abs_difference : ℕ → ℕ → ℕ
abs_difference x y = if ltb x y then y - x else x - y
