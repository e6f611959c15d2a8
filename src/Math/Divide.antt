-- ===== src/Math/Divide.antt =====
-- src/arch/x86/math.c: the two steps of `arch_div`.
use Prim.Native.Nat.{bit_or}
use native.Mathlib.Nat.{
  mod-lt, mod-eq_of_lt, div-eq_of_lt, div-add-mod', div-lt_iff_lt-mul, mul-add-div_right,
  mul-add-mod_self_right,
}
use elfboot.Base.{ℕ, ◌+◌, ◌*◌, ◌/◌, ◌%◌, ◌^◌, ◌<◌, ◌≡◌, sym, ◌∙◌, arith, dec_lt}
use elfboot.Base.Run.{ok}
use elfboot.Math.{divl, arch_div_upper, arch_div}
use elfboot.Math.Bits.{bit_or-disjoint, bit_and_mask}

-- Quotient and remainder are determined by their equation.
div-mod_unique : (v d q r : ℕ) → v ≡ q * d + r → r < d → (v / d ≡ q) × (v % d ≡ r)
div-mod_unique v d q r e h = (
  rw (e, mul-add-div_right {m = d} (omega arith) q r, div-eq_of_lt h) (omega arith),
  rw (e, mul-add-mod_self_right q d r) (mod-eq_of_lt h),
)

-- The state between the two steps: the upper half that is left, and the upper half of the result.
Upper : ℕ → ℕ → ℕ → ℕ → Type 0
Upper upp d left high = (left < d) × (upp ≡ high * d + left)

arch_div_upper-Upper :
    (upp d : ℕ)
    → 0 < d
    → (left : ℕ) × (high : ℕ) × (arch_div_upper upp d ≡ ok (left, high * 2 ^ 32))
      × Upper upp d left high
unfolding arch_div_upper Upper
arch_div_upper-Upper upp d p = elim (dec_lt upp d) [
  | yes less ↦ (upp, 0, ground arith, (less, omega arith))
  | no more ↦ (upp % d, upp / d, ground arith, (mod-lt upp p, omega (arith, div-add-mod' upp d)))
]

-- The second step, and the assembly of the result.
arch_div_lower :
    (upp low d left high : ℕ)
    → low < 2 ^ 32
    → Upper upp d left high
    → let low' = left * 2 ^ 32 + low in
      (divl left low d ≡ ok (low' / d, low' % d))
      × (bit_or (high * 2 ^ 32) (low' / d) ≡ (upp * 2 ^ 32 + low) / d)
      × (low' % d ≡ (upp * 2 ^ 32 + low) % d)
unfolding divl Upper
arch_div_lower upp low d left high small (less, e) =
    let low' = left * 2 ^ 32 + low in
    let fits : low' / d < 2 ^ 32 =
      (div-lt_iff_lt-mul {k = d} {x = low'} {y = 2 ^ 32} (omega arith)).1 (omega arith) in
    let whole =
      div-mod_unique (upp * 2 ^ 32 + low) d (high * 2 ^ 32 + low' / d) (low' % d)
        (omega (arith, div-add-mod' low' d)) (mod-lt low' (omega arith)) in
    (ground arith, bit_or-disjoint 32 high (low' / d) fits ∙ sym whole.0, sym whole.1)

-- For a dividend of 64 bits and a divisor of 32 bits other than 0, `arch_div` does not trap, and
-- gives quotient and remainder.
pub arch_div_lem : (v d : ℕ) → v < 2 ^ 64 → 0 < d → d < 2 ^ 32 → arch_div v d ≡ ok (v / d, v % d)
unfolding arch_div
arch_div_lem v d hv hd small =
    let upp = v / 2 ^ 32 in
    let low = v % 2 ^ 32 in
    let (left, high, e, s) = arch_div_upper-Upper upp d hd in
    let (run, quotient, remainder) = arch_div_lower upp low d left high (omega arith) s in
    let whole : upp * 2 ^ 32 + low ≡ v = omega arith in
    rw (e, bit_and_mask 32 v, run, quotient, remainder, whole)
