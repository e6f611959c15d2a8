-- ===== src/Math/Xor.antt =====
-- Laws of `bit_xor`: it works field by field, and in any order.
use Prim.Native.Nat.{bit_xor, differ}
use native.Mathlib.Nat.{two-pow-succ}
use elfboot.Base.{ℕ, zero, suc, ◌+◌, ◌*◌, ◌/◌, ◌%◌, ◌^◌, ◌<◌, ◌≡◌, refl, ap, ap₂, sym, ◌∙◌, arith}
use elfboot.Math.Bits.{halving, bit_xor_step, bit_xor-zero, scale_suc}

differ_sum : (a b : ℕ) → a < 2 → b < 2 → differ a b ≡ (a + b) % 2
differ_sum zero zero p q = refl
differ_sum zero (suc zero) p q = refl
differ_sum (suc zero) zero p q = refl
differ_sum (suc zero) (suc zero) p q = refl
differ_sum zero (suc (suc b)) p q = absurd (omega arith)
differ_sum (suc zero) (suc (suc b)) p q = absurd (omega arith)
differ_sum (suc (suc a)) b p q = absurd (omega arith)

-- The lowest digit, as a sum.
xor_digit : (a b : ℕ) → bit_xor a b ≡ bit_xor (a / 2) (b / 2) * 2 + (a % 2 + b % 2) % 2
xor_digit a b =
    omega (arith, bit_xor_step a b, differ_sum (a % 2) (b % 2) (omega arith) (omega arith))

pub zero-bit_xor : (b : ℕ) → bit_xor 0 b ≡ b
zero-bit_xor = halving (λ b. bit_xor 0 b ≡ b) refl (λ n p ih. omega (arith, xor_digit 0 n, ih))

pub bit_xor_comm : (a b : ℕ) → bit_xor a b ≡ bit_xor b a
bit_xor_comm =
    halving (λ a. (b : ℕ) → bit_xor a b ≡ bit_xor b a)
      (λ b. omega (arith, zero-bit_xor b, bit_xor-zero b))
      (λ n p ih b. omega (arith, xor_digit n b, xor_digit b n, ih (b / 2)))

half_xor : (a b : ℕ) → bit_xor a b / 2 ≡ bit_xor (a / 2) (b / 2)
half_xor a b = omega (arith, xor_digit a b)

-- The last two operands in the other order.
pub bit_xor_swap : (a b c : ℕ) → bit_xor (bit_xor a b) c ≡ bit_xor (bit_xor a c) b
bit_xor_swap =
    halving (λ a. (b c : ℕ) → bit_xor (bit_xor a b) c ≡ bit_xor (bit_xor a c) b)
      (λ b c.
        ap (λ t. bit_xor t c) (zero-bit_xor b)
        ∙ bit_xor_comm b c
        ∙ ap (λ t. bit_xor t b) (sym (zero-bit_xor c)))
      (λ n p ih b c.
        let left = ap (λ t. bit_xor t (c / 2)) (half_xor n b) in
        let right = ap (λ t. bit_xor t (b / 2)) (half_xor n c) in
        omega (
          arith,
          xor_digit (bit_xor n b) c,
          xor_digit (bit_xor n c) b,
          xor_digit n b,
          xor_digit n c,
          left,
          right,
          ih (b / 2) (c / 2),
        ))

pub bit_xor_small : (k a b : ℕ) → a < 2 ^ k → b < 2 ^ k → bit_xor a b < 2 ^ k
bit_xor_small zero a b p q =
    let e : a ≡ 0 = omega arith in let f : b ≡ 0 = omega arith in rw (e, f) (omega arith)
bit_xor_small (suc k) a b p q = omega (
  arith,
  xor_digit a b,
  two-pow-succ k,
  bit_xor_small k (a / 2) (b / 2) (omega (arith, two-pow-succ k)) (omega (arith, two-pow-succ k)),
)

-- The upper fields, and the lower ones of `k` bits.
pub bit_xor_fields :
    (k a b r s : ℕ)
    → r < 2 ^ k
    → s < 2 ^ k
    → bit_xor (a * 2 ^ k + r) (b * 2 ^ k + s) ≡ bit_xor a b * 2 ^ k + bit_xor r s
bit_xor_fields zero a b r s p q =
    let e : r ≡ 0 = omega arith in
    let f : s ≡ 0 = omega arith in
    let g : a * 1 + 0 ≡ a = omega arith in
    let h : b * 1 + 0 ≡ b = omega arith in rw (e, f, g, h, zero-bit_xor 0) (omega arith)
bit_xor_fields (suc k) a b r s p q =
    let small : r / 2 < 2 ^ k = omega (arith, two-pow-succ k) in
    let small' : s / 2 < 2 ^ k = omega (arith, two-pow-succ k) in
    let x = a * 2 ^ suc k + r in
    let y = b * 2 ^ suc k + s in
    let half_x : x / 2 ≡ a * 2 ^ k + r / 2 = omega (arith, scale_suc a k) in
    let half_y : y / 2 ≡ b * 2 ^ k + s / 2 = omega (arith, scale_suc b k) in
    let halves = ap₂ (λ t u. bit_xor t u) half_x half_y in
    omega (
      arith,
      xor_digit x y,
      halves,
      bit_xor_fields k a b (r / 2) (s / 2) small small',
      xor_digit r s,
      scale_suc a k,
      scale_suc b k,
      scale_suc (bit_xor a b) k,
    )
