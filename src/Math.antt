-- ===== src/Math.antt =====
-- src/core/math.c, src/arch/x86/math.c and src/arch/x86/include/asm/bitops.h: logarithms and
-- powers of two, division of 64 by 32 bits, exponentiation. A `uint32_t` is a number below 2 ^ 32.
pub mod Bits
pub mod Xor
pub mod Pow2
pub mod Divide
pub mod Power
mod Tests
use Prim.Native.Nat.{bit_and, bit_or}
use elfboot.Base.{
  ℕ, zero, suc, ◌+◌, ◌-◌, ◌*◌, ◌/◌, ◌%◌, ◌^◌, Bool, true, false, not, ◌&&◌, ltb, leb, ◌==◌,
  if◌then◌else◌,
}
use elfboot.Base.Int.{ℤ, pos, negsuc, sub_ℕ}
use elfboot.Base.Run.{Run, ok, fault, out_of_fuel, ◌>>=◌, ◌>>◌, assert}

-- The index that `bsrl` finds, and one more: the number of binary digits of `v`, `k` of them at
-- most.
unfoldable pub bit_length : ℕ → ℕ → ℕ
bit_length zero v = 0
bit_length (suc k) v = let rest = bit_length k (v / 2) in if v == 0 then 0 else suc rest

-- `fls`: 0 at 0, since `r` is then -1.
unfoldable pub fls : ℕ → ℕ
unfolding bit_length
fls val = bit_length 32 val

unfoldable pub log2 : ℕ → ℤ
unfolding fls
log2 val = sub_ℕ (fls val) 1

-- `1UL << n` on 32 bits. A negative count, or one of 32 and more, is undefined.
unfoldable pub shift_one : ℤ → Run ℕ
shift_one (pos n) = if ltb n 32 then ok (2 ^ n) else fault
shift_one (negsuc n) = fault

unfoldable pub is_pow2 : ℕ → Bool
is_pow2 val = not (val == 0) && bit_and val (val - 1) == 0

-- The parameter of `fls` is a `uint32_t`, so 0 - 1 wraps.
unfoldable pub round_up_pow2 : ℕ → Run ℕ
unfolding fls shift_one
round_up_pow2 val = shift_one (pos (fls ((val + 2 ^ 32 - 1) % 2 ^ 32)))

unfoldable pub round_down_pow2 : ℕ → Run ℕ
unfolding fls shift_one
round_down_pow2 val = shift_one (sub_ℕ (fls val) 1)

-- `divl`: quotient and remainder of `upp * 2 ^ 32 + low`. It traps at a divisor of 0 and where the
-- quotient needs more than 32 bits.
unfoldable pub divl : ℕ → ℕ → ℕ → Run (ℕ × ℕ)
divl upp low d =
    if ltb upp d then ok ((upp * 2 ^ 32 + low) / d, (upp * 2 ^ 32 + low) % d) else fault

-- The upper half of the dividend that is left for `divl`, and the upper half of the result. The C
-- division traps at a divisor of 0.
unfoldable pub arch_div_upper : ℕ → ℕ → Run (ℕ × ℕ)
arch_div_upper upp d =
    if leb d upp then (if d == 0 then fault else ok (upp % d, upp / d * 2 ^ 32)) else ok (upp, 0)

-- `arch_div`, with the quotient and `*rem`.
unfoldable pub arch_div : ℕ → ℕ → Run (ℕ × ℕ)
unfolding divl arch_div_upper
arch_div val d = do
  (upp, result) ← arch_div_upper (val / 2 ^ 32) d
  (low, rem) ← divl upp (bit_and val (2 ^ 32 - 1)) d
  ok (bit_or result low, rem)

-- `div` of core/math.c.
unfoldable pub div : ℕ → ℕ → Run (ℕ × ℕ)
unfolding arch_div
div val d = arch_div val d

abbrev mul64 : ℕ → ℕ → ℕ
mul64 a b = a * b % 2 ^ 64

-- `pow`, on fuel for the depth of its recursion; products wrap at 64 bits.
unfoldable pub pow_fuel : ℕ → ℕ → ℕ → Run ℕ
pow_fuel zero base exp = out_of_fuel
pow_fuel (suc k) base exp =
    let half = pow_fuel k base (exp / 2) in
    if exp == 0
    then ok 1
    else do val ← half; ok (if exp % 2 == 0 then mul64 val val else mul64 (mul64 base val) val)

-- An exponent has 64 bits, so the recursion is at most 65 calls deep.
unfoldable pub pow : ℕ → ℕ → Run ℕ
unfolding pow_fuel
pow base exp = pow_fuel 65 base exp
