-- ===== src/Core/Round.antt =====
-- src/include/elfboot/core.h: `round_up` and `round_down` at powers of two.
use Prim.Native.Nat.{bit_and}
use native.Mathlib.Nat.{
  div-lt_iff_lt-mul, div-add-mod', one-le-pow, pow-le-pow_right, mod-lt, mod-eq_of_lt,
  div-eq_of_lt-le, mul-le-mul_right, mul-mod_left,
}
use elfboot.Base.{ℕ, ◌+◌, ◌-◌, ◌*◌, ◌/◌, ◌%◌, ◌^◌, ◌≤◌, ◌<◌, zero, suc, ◌≡◌, ap, ◌∙◌, subst, arith}
use elfboot.Core.{round_up, round_down}
use elfboot.Math.Bits.{bit_or_mask, bit_and-high_fields}
use elfboot.Math.Power.{pow-add}

word_split : (k : ℕ) → k ≤ 32 → 2 ^ 32 ≡ 2 ^ (32 - k) * 2 ^ k
word_split k h =
    let e : 32 ≡ 32 - k + k = omega arith in ap (λ (t : ℕ). 2 ^ t) e ∙ pow-add 2 (32 - k) k

-- The mask of the bits from `k` up.
high_mask : (k : ℕ) → k ≤ 32 → 2 ^ 32 - 1 - (2 ^ k - 1) ≡ (2 ^ (32 - k) - 1) * 2 ^ k
high_mask k h =
    let some_bits : 2 ^ (32 - k) ≡ 2 ^ (32 - k) - 1 + 1 = omega (arith, one-le-pow (32 - k) 2) in
    omega (arith, word_split k h, one-le-pow k 2, ap (λ (t : ℕ). t * 2 ^ k) some_bits)

-- For `x < 2 ^ 32` and `k ≤ 32`, rounding `x` down to `2 ^ k` takes off its remainder.
pub round_down_lem : (x k : ℕ) → x < 2 ^ 32 → k ≤ 32 → round_down x (2 ^ k) ≡ x - x % 2 ^ k
unfolding round_down
round_down_lem x k hx hk =
    let q = x / 2 ^ k in
    let positive : 0 < 2 ^ k = one-le-pow k 2 (omega arith) in
    let whole : q * 2 ^ k + x % 2 ^ k ≡ x = div-add-mod' x (2 ^ k) in
    let small : q < 2 ^ (32 - k) =
      (div-lt_iff_lt-mul {k = 2 ^ k} {x = x} {y = 2 ^ (32 - k)} positive).1
        (omega (arith, word_split k hk)) in
    rw (high_mask k hk) (
      subst (λ (t : ℕ). bit_and t ((2 ^ (32 - k) - 1) * 2 ^ k) ≡ x - x % 2 ^ k) whole
        (bit_and-high_fields k (32 - k) q (x % 2 ^ k) (mod-lt x positive) small
          ∙ omega (arith, whole)))

-- One more than a mask's worth above `y` is the next multiple.
next_multiple : (y k : ℕ) → y - y % 2 ^ k + (2 ^ k - 1) + 1 ≡ suc (y / 2 ^ k) * 2 ^ k
next_multiple y k = omega (arith, one-le-pow k 2, div-add-mod' y (2 ^ k))

round_up-suc :
    (y k : ℕ) → y < 2 ^ 32 - 2 ^ k → k < 32 → round_up (suc y) (2 ^ k) ≡ suc (y / 2 ^ k) * 2 ^ k
unfolding round_up
round_up-suc y k hy hk =
    let room : y / 2 ^ k < 2 ^ (32 - k) - 1 =
      (div-lt_iff_lt-mul {k = 2 ^ k} {x = y} {y = 2 ^ (32 - k) - 1}
          (one-le-pow k 2 (omega arith))).1
        (omega (arith, high_mask k (omega arith), one-le-pow k 2)) in
    let same : (suc y + 2 ^ 32 - 1) % 2 ^ 32 ≡ y = omega arith in
    let fits : suc (y / 2 ^ k) * 2 ^ k ≤ (2 ^ (32 - k) - 1) * 2 ^ k =
      mul-le-mul_right (2 ^ k) room in
    rw (same, bit_or_mask k y, next_multiple y k)
      (mod-eq_of_lt (omega (arith, high_mask k (omega arith), one-le-pow k 2)))

round_up-zero : (k : ℕ) → k < 32 → round_up 0 (2 ^ k) ≡ 0
unfolding round_up
round_up-zero k hk =
    let whole : suc (2 ^ (32 - k) - 1) * 2 ^ k ≡ 2 ^ 32 = omega (
      arith,
      high_mask k (omega arith),
      one-le-pow k 2,
      pow-le-pow_right {n = 2} (omega arith) {i = k} {j = 32} (omega arith),
    ) in
    let all : (2 ^ 32 - 1) / 2 ^ k ≡ 2 ^ (32 - k) - 1 =
      div-eq_of_lt-le {k = 2 ^ (32 - k) - 1} (2 ^ k) {m = 2 ^ 32 - 1}
        (omega (arith, whole, one-le-pow k 2)) (omega (arith, whole)) in
    rw (bit_or_mask k (2 ^ 32 - 1), next_multiple (2 ^ 32 - 1) k, all, whole)

-- For `x ≤ 2 ^ 32 - 2 ^ k` and `k < 32`, rounding `x` up to `2 ^ k` gives the multiple of `2 ^ k` in
-- `[x, x + 2 ^ k)`.
pub round_up_lem :
    (x k : ℕ)
    → x ≤ 2 ^ 32 - 2 ^ k
    → k < 32
    → (x ≤ round_up x (2 ^ k)) × (round_up x (2 ^ k) < x + 2 ^ k) × (round_up x (2 ^ k) % 2 ^ k ≡ 0)
round_up_lem zero k hx hk = rw (round_up-zero k hk) (omega (arith, one-le-pow k 2))
round_up_lem (suc y) k hx hk = rw (round_up-suc y k hx hk) (
  omega (arith, div-add-mod' y (2 ^ k), mod-lt y (one-le-pow k 2 (omega arith))),
  omega (arith, div-add-mod' y (2 ^ k)),
  mul-mod_left (suc (y / 2 ^ k)) (2 ^ k),
)
