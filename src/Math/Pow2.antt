-- ===== src/Math/Pow2.antt =====
-- src/core/math.c: `fls`, `log2` and the roundings to powers of two.
use Prim.Native.Nat.{bit_and}
use native.Mathlib.Nat.{two-pow-succ, one-le-pow, pow-le-pow_right, mod_self}
use elfboot.Base.{
  ℕ, zero, suc, ◌+◌, ◌-◌, ◌*◌, ◌/◌, ◌%◌, ◌^◌, ◌≤◌, ◌<◌, ◌≡◌, refl, ◌↔◌, true, arith, dec_lt,
  ℕ_discrete, ◌≢◌, ap, ◌∙◌,
}
use elfboot.Base.Int.{pos}
use elfboot.Base.Run.{ok}
use elfboot.Math.{bit_length, fls, log2, shift_one, is_pow2, round_up_pow2, round_down_pow2}
use elfboot.Math.Bits.{bit_and_step, bit_and_self, bit_and_mask, halving}

-- A power of two is below another only if its exponent is.
pub lt_of_pow-lt : (n m : ℕ) → 2 ^ n < 2 ^ m → n < m
lt_of_pow-lt n m h = elim (dec_lt n m) [
  | yes p ↦ p
  | no p ↦
      absurd (omega (arith, pow-le-pow_right {n = 2} (omega arith) {i = m} {j = n} (omega arith)))
]

-- `v` has the binary digits that `n` says, so its highest bit is bit `n`.
pub record HighestBit (v n : ℕ) : Type 0 where
  pub low : 2 ^ n ≤ v
  pub high : v < 2 ^ suc n

bit_length-HighestBit :
    (k v : ℕ) → v < 2 ^ k → 0 < v → (n : ℕ) × (bit_length k v ≡ suc n) × HighestBit v n × (n < k)
unfolding bit_length
bit_length-HighestBit zero v h p = absurd (omega arith)
bit_length-HighestBit (suc k) zero h p = elim p [ ]
bit_length-HighestBit (suc zero) (suc zero) h p =
    (0, refl, record { low = omega arith; high = omega arith }, omega arith)
bit_length-HighestBit (suc (suc k)) (suc zero) h p =
    (0, refl, record { low = omega arith; high = omega arith }, omega arith)
bit_length-HighestBit (suc k) (suc (suc v)) h p =
    let (n, e, b, m) =
      bit_length-HighestBit k (suc (suc v) / 2) (omega (arith, two-pow-succ k)) (omega arith) in
    (
      suc n,
      ground (arith, e),
      record {
        low = omega (arith, two-pow-succ n, b.low);
        high = omega (arith, two-pow-succ (suc n), b.high);
      },
      omega arith,
    )

-- `fls` is one more than the index of the highest bit.
pub fls-HighestBit :
    (v : ℕ) → 0 < v → v < 2 ^ 32 → (n : ℕ) × (fls v ≡ suc n) × HighestBit v n × (n < 32)
unfolding fls
fls-HighestBit v p h = bit_length-HighestBit 32 v h p

pow_lt : (n : ℕ) → n < 32 → 2 ^ n < 2 ^ 32
pow_lt n h = omega (arith, pow-le-pow_right {n = 2} (omega arith) {i = n} {j = 31} (omega arith))

-- For `0 < v < 2 ^ 32`, `log2 v` is the index of the highest bit, which is below 32.
pub log2-HighestBit :
    (v : ℕ) → 0 < v → v < 2 ^ 32 → (n : ℕ) × (log2 v ≡ pos n) × HighestBit v n × (n < 32)
unfolding log2
log2-HighestBit v p h = let (n, e, b, m) = fls-HighestBit v p h in (n, rw e (ground arith), b, m)

pub log2-pow : (n : ℕ) → n < 32 → log2 (2 ^ n) ≡ pos n
log2-pow n h =
    let (m, e, b, _) = log2-HighestBit (2 ^ n) (one-le-pow n 2 (omega arith)) (pow_lt n h) in
    let up : m < suc n = lt_of_pow-lt m (suc n) (omega (arith, two-pow-succ n, b.low)) in
    let down : n < suc m = lt_of_pow-lt n (suc m) b.high in
    let same : m ≡ n = omega arith in e ∙ ap pos same

-- For `0 < v < 2 ^ 32`, rounding down gives the power of two in `(v / 2, v]`.
pub round_down_pow2_lem :
    (v : ℕ)
    → 0 < v
    → v < 2 ^ 32
    → (n : ℕ) × (round_down_pow2 v ≡ ok (2 ^ n)) × (2 ^ n ≤ v) × (v < 2 * 2 ^ n)
unfolding round_down_pow2 shift_one
round_down_pow2_lem v p h =
    let (n, e, b, m) = fls-HighestBit v p h in
    (n, rw e (ground arith), b.low, omega (arith, two-pow-succ n, b.high))

-- For `0 < v ≤ 2 ^ 31`, rounding up gives the power of two in `[v, 2 * v)`, at most `2 ^ 31`.
pub round_up_pow2_lem :
    (v : ℕ)
    → 0 < v
    → v ≤ 2 ^ 31
    → (n : ℕ) × (round_up_pow2 v ≡ ok (2 ^ n)) × (v ≤ 2 ^ n) × (2 ^ n < 2 * v) × (n ≤ 31)
unfolding round_up_pow2 shift_one
round_up_pow2_lem zero p h = elim p [ ]
round_up_pow2_lem (suc zero) p h = (0, refl, omega arith, omega arith, omega arith)
round_up_pow2_lem (suc (suc v)) p h =
    let (n, e, b, m) = fls-HighestBit (suc v) (omega arith) (omega arith) in
    let wrap : (suc (suc v) + 2 ^ 32 - 1) % 2 ^ 32 ≡ suc v = omega arith in
    let small : n < 31 = lt_of_pow-lt n 31 (omega (arith, b.low)) in
    (suc n, rw (wrap, e) (ground arith), b.high, omega (arith, two-pow-succ n, b.low), small)

and-pred_even : (v : ℕ) → 0 < v → v % 2 ≡ 0 → bit_and v (v - 1) ≡ 2 * bit_and (v / 2) (v / 2 - 1)
and-pred_even v p even =
    let half : (v - 1) / 2 ≡ v / 2 - 1 = omega arith in
    rw (bit_and_step v (v - 1), half) (omega arith)

and-pred_odd : (v : ℕ) → v % 2 ≢ 0 → bit_and v (v - 1) ≡ 2 * (v / 2)
and-pred_odd v odd =
    let half : (v - 1) / 2 ≡ v / 2 = omega arith in
    rw (bit_and_step v (v - 1), half, bit_and_self) (omega arith)

pow_of_and-pred : (v : ℕ) → 0 < v → bit_and v (v - 1) ≡ 0 → (n : ℕ) × (v ≡ 2 ^ n)
pow_of_and-pred =
    halving (λ v. 0 < v → bit_and v (v - 1) ≡ 0 → (n : ℕ) × (v ≡ 2 ^ n)) (λ p. elim p [ ]) step
  where
    step :
        (v : ℕ)
        → 0 < v
        → (0 < v / 2 → bit_and (v / 2) (v / 2 - 1) ≡ 0 → (n : ℕ) × (v / 2 ≡ 2 ^ n))
        → 0 < v
        → bit_and v (v - 1) ≡ 0
        → (n : ℕ) × (v ≡ 2 ^ n)
    step v p ih _ h = elim (ℕ_discrete (v % 2) 0) [
      | yes even ↦
          let (n, e) = ih (omega arith) (omega (arith, and-pred_even v p even)) in
          (suc n, omega (arith, two-pow-succ n))
      | no odd ↦ (0, omega (arith, and-pred_odd v odd))
    ]

and-pred_pow : (n : ℕ) → bit_and (2 ^ n) (2 ^ n - 1) ≡ 0
and-pred_pow n = bit_and_mask n (2 ^ n) ∙ mod_self (2 ^ n)

-- `is_pow2` accepts the powers of two and nothing else.
pub is_pow2_iff : (v : ℕ) → (is_pow2 v ≡ true) ↔ ((n : ℕ) × (v ≡ 2 ^ n))
unfolding is_pow2
is_pow2_iff v = (
  λ h. pow_of_and-pred v (ground arith) (ground arith),
  λ (n, e). rw e (ground (arith, and-pred_pow n, one-le-pow n 2)),
)
