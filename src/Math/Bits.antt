-- ===== src/Math/Bits.antt =====
-- Laws of `bit_and`, `bit_or` and `bit_xor` at variables, each from an equation for the lowest
-- digit: masks, disjoint fields, a single bit.
use Prim.Native.Nat.{
  bit_and, bit_or, bit_xor, differ, digits, bit_and-bitwise, bit_or-bitwise, bit_xor-bitwise,
}
use mathlib.Core.WellFounded
use native.Mathlib.Nat.{
  two-pow-succ, one-le-pow, div-div-eq-div-mul, div-eq_of_lt, mod-eq_of_lt, pow-succ',
}
use elfboot.Base.{
  ℕ, zero, suc, ◌+◌, ◌-◌, ◌*◌, ◌/◌, ◌%◌, ◌^◌, ◌≤◌, ◌<◌, min, max, ◌≡◌, refl, ap, sym, arith, ◌==◌,
  if◌then◌else◌, inl, inr, false, Bool-cases, dec_lt,
}
use elfboot.Base.Order.{lt_wf}

module _ (tail : ℕ → ℕ) (op : ℕ → ℕ → ℕ) where
  -- Any number of rounds that is no less than the first operand gives the same digits.
  digits_rounds : (k l x y : ℕ) → x ≤ k → x ≤ l → digits tail op k x y ≡ digits tail op l x y
  digits_rounds zero zero x y p q = refl
  digits_rounds (suc k) zero zero y p q = refl
  digits_rounds zero (suc l) zero y p q = refl
  digits_rounds (suc k) (suc l) zero y p q = refl
  digits_rounds (suc k) zero (suc x) y p q = absurd (omega arith)
  digits_rounds zero (suc l) (suc x) y p q = absurd (omega arith)
  digits_rounds (suc k) (suc l) (suc x) y p q =
      rw (digits_rounds k l (suc x / 2) (y / 2) (omega arith) (omega arith))

  digits_step :
      (x y : ℕ)
      → digits tail op (suc x) (suc x) y
        ≡ digits tail op (suc x / 2) (suc x / 2) (y / 2) * 2 + op (suc x % 2) (y % 2)
  digits_step x y = rw (digits_rounds x (suc x / 2) (suc x / 2) (y / 2) (omega arith) (omega arith))

pub bit_xor_step : (x y : ℕ) → bit_xor x y ≡ bit_xor (x / 2) (y / 2) * 2 + differ (x % 2) (y % 2)
bit_xor_step zero y = simp bit_xor-bitwise (omega arith)
bit_xor_step (suc x) y = simp bit_xor-bitwise (digits_step (λ d. d) differ x y)

pub bit_and_step : (x y : ℕ) → bit_and x y ≡ bit_and (x / 2) (y / 2) * 2 + min (x % 2) (y % 2)
bit_and_step zero y = simp bit_and-bitwise (omega arith)
bit_and_step (suc x) y = simp bit_and-bitwise (digits_step (λ d. 0) min x y)

pub bit_or_step : (x y : ℕ) → bit_or x y ≡ bit_or (x / 2) (y / 2) * 2 + max (x % 2) (y % 2)
bit_or_step zero y = simp bit_or-bitwise (omega arith)
bit_or_step (suc x) y = simp bit_or-bitwise (digits_step (λ d. d) max x y)

-- Induction from `n / 2` to `n`.
pub halving {ℓ} : (P : ℕ → Type ℓ) → P 0 → ((n : ℕ) → 0 < n → P (n / 2) → P n) → (n : ℕ) → P n
halving P base step n = WellFounded.induction lt_wf {C = P} n go
  where
    go : (k : ℕ) → ((m : ℕ) → m < k → P m) → P k
    go zero ih = base
    go (suc k) ih = step (suc k) (omega arith) (ih (suc k / 2) (omega arith))

pub bit_or-zero : (a : ℕ) → bit_or a 0 ≡ a
bit_or-zero = halving (λ a. bit_or a 0 ≡ a) refl (λ n p ih. omega (arith, bit_or_step n 0, ih))

pub bit_and-zero : (a : ℕ) → bit_and a 0 ≡ 0
bit_and-zero = halving (λ a. bit_and a 0 ≡ 0) refl (λ n p ih. omega (arith, bit_and_step n 0, ih))

differ-zero : (a : ℕ) → differ a 0 ≡ a
differ-zero zero = refl
differ-zero (suc a) = refl

pub bit_xor-zero : (a : ℕ) → bit_xor a 0 ≡ a
bit_xor-zero =
    halving (λ a. bit_xor a 0 ≡ a) refl
      (λ n p ih. omega (arith, bit_xor_step n 0, differ-zero (n % 2), ih))

pub bit_and_self : (a : ℕ) → bit_and a a ≡ a
bit_and_self = halving (λ a. bit_and a a ≡ a) refl (λ n p ih. omega (arith, bit_and_step n n, ih))

pub scale_suc : (q k : ℕ) → q * 2 ^ suc k ≡ 2 * (q * 2 ^ k)
scale_suc q k = omega (arith, ap (λ (t : ℕ). q * t) (two-pow-succ k))

-- `(q << k) | r`, for an `r` of `k` bits.
pub bit_or-disjoint : (k q r : ℕ) → r < 2 ^ k → bit_or (q * 2 ^ k) r ≡ q * 2 ^ k + r
bit_or-disjoint zero q r h = ground (arith, bit_or-zero (q * 1))
bit_or-disjoint (suc k) q r h = ground (
  arith,
  bit_or_step (q * 2 ^ suc k) r,
  scale_suc q k,
  two-pow-succ k,
  bit_or-disjoint k q (r / 2) (omega (arith, two-pow-succ k)),
)

bit_and-fields : (k q r : ℕ) → r < 2 ^ k → bit_and (q * 2 ^ k + r) (2 ^ k - 1) ≡ r
bit_and-fields zero q r h = rw bit_and-zero (omega arith)
bit_and-fields (suc k) q r h = ground (
  arith,
  bit_and_step (q * 2 ^ suc k + r) (2 ^ suc k - 1),
  scale_suc q k,
  two-pow-succ k,
  one-le-pow k 2,
  bit_and-fields k q (r / 2) (omega (arith, two-pow-succ k)),
)

-- `a & (2 ^ k - 1)`.
pub bit_and_mask : (k a : ℕ) → bit_and a (2 ^ k - 1) ≡ a % 2 ^ k
bit_and_mask k a = ground (arith, one-le-pow k 2, bit_and-fields k (a / 2 ^ k) (a % 2 ^ k))

bit_or-fields :
    (k q r : ℕ) → r < 2 ^ k → bit_or (q * 2 ^ k + r) (2 ^ k - 1) ≡ q * 2 ^ k + (2 ^ k - 1)
bit_or-fields zero q r h = rw bit_or-zero (omega arith)
bit_or-fields (suc k) q r h = ground (
  arith,
  bit_or_step (q * 2 ^ suc k + r) (2 ^ suc k - 1),
  scale_suc q k,
  two-pow-succ k,
  one-le-pow k 2,
  bit_or-fields k q (r / 2) (omega (arith, two-pow-succ k)),
)

-- `a | (2 ^ k - 1)`.
pub bit_or_mask : (k a : ℕ) → bit_or a (2 ^ k - 1) ≡ a - a % 2 ^ k + (2 ^ k - 1)
bit_or_mask k a = ground (arith, one-le-pow k 2, bit_or-fields k (a / 2 ^ k) (a % 2 ^ k))

pub bit_and-high_fields :
    (k j q r : ℕ)
    → r < 2 ^ k
    → q < 2 ^ j
    → bit_and (q * 2 ^ k + r) ((2 ^ j - 1) * 2 ^ k) ≡ q * 2 ^ k
bit_and-high_fields zero j q r h g =
    let e : q * 2 ^ 0 + r ≡ q = omega arith in
    let f : (2 ^ j - 1) * 2 ^ 0 ≡ 2 ^ j - 1 = omega arith in
    rw (e, f, bit_and_mask j q, mod-eq_of_lt g) (omega arith)
bit_and-high_fields (suc k) j q r h g = ground (
  arith,
  bit_and_step (q * 2 ^ suc k + r) ((2 ^ j - 1) * 2 ^ suc k),
  scale_suc q k,
  scale_suc (2 ^ j - 1) k,
  two-pow-succ k,
  bit_and-high_fields k j q (r / 2) (omega (arith, two-pow-succ k)) g,
)

differ-one : (a : ℕ) → a < 2 → differ a 1 ≡ 1 - a
differ-one zero h = refl
differ-one (suc zero) h = refl
differ-one (suc (suc a)) h = absurd (omega arith)

le_of_bit : (a d : ℕ) → (a / d % 2 == 0) ≡ false → d ≤ a
le_of_bit a d e = elim (dec_lt a d) [
  | yes p ↦ absurd (cc (rw (div-eq_of_lt p) at e))
  | no p ↦ omega arith
]

-- `a ^ (1 << k)` turns over one bit.
pub bit_xor_bit :
    (k a : ℕ) → bit_xor a (2 ^ k) ≡ (if a / 2 ^ k % 2 == 0 then a + 2 ^ k else a - 2 ^ k)
bit_xor_bit zero a =
    ground (arith, bit_xor_step a 1, bit_xor-zero (a / 2), differ-one (a % 2) (omega arith))
bit_xor_bit (suc k) a =
    let even : 2 ^ suc k % 2 ≡ 0 = omega (arith, two-pow-succ k) in
    let half : 2 ^ suc k / 2 ≡ 2 ^ k = omega (arith, two-pow-succ k) in
    let deep : a / 2 ^ suc k ≡ a / 2 / 2 ^ k =
      rw (pow-succ' 2 k) (sym (div-div-eq-div-mul a 2 (2 ^ k))) in
    rw (bit_xor_step a (2 ^ suc k), even, half, deep, differ-zero, bit_xor_bit k (a / 2))
      (elim (Bool-cases (a / 2 / 2 ^ k % 2 == 0)) [
        | inl e ↦ rw e (omega (arith, two-pow-succ k))
        | inr e ↦ rw e (omega (arith, two-pow-succ k, le_of_bit (a / 2) (2 ^ k) e))
      ])
