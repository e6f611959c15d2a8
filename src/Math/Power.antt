-- ===== src/Math/Power.antt =====
-- src/core/math.c: `pow`, by repeated squaring.
use native.Mathlib.Nat.{
  pow-zero, pow-succ', two-pow-succ, mul_assoc, mul_comm, mod-add-div, add-mul-mod_self_left,
}
use elfboot.Base.{
  ℕ, zero, suc, ◌+◌, ◌*◌, ◌/◌, ◌%◌, ◌^◌, ◌<◌, ◌≡◌, ◌≢◌, sym, ap, ◌∙◌, arith, ℕ_discrete, false,
  ◌==◌,
}
use elfboot.Base.Run.{ok}
use elfboot.Math.{mul64, pow_fuel, pow}

pub pow-add : (b n m : ℕ) → b ^ (n + m) ≡ b ^ n * b ^ m
pow-add b zero m = let e : 0 + m ≡ m = omega arith in rw (e, pow-zero b) (omega arith)
pow-add b (suc n) m =
    let e : suc n + m ≡ suc (n + m) = omega arith in
    rw (e, pow-succ' b (n + m), pow-succ' b n, pow-add b n m) (sym (mul_assoc b (b ^ n) (b ^ m)))

pub mul-mod_left : (a b m : ℕ) → a % m * b % m ≡ a * b % m
mul-mod_left a b m =
    let e : a * b ≡ a % m * b + m * (a / m * b) =
      omega (arith, ap (λ (t : ℕ). t * b) (mod-add-div a m)) in
    rw (e, add-mul-mod_self_left (a % m * b) m (a / m * b))

mul-mod_right : (a b m : ℕ) → a * (b % m) % m ≡ a * b % m
mul-mod_right a b m = rw (mul_comm a (b % m), mul-mod_left b a m, mul_comm b a)

mul64-mod : (a b : ℕ) → mul64 (a % 2 ^ 64) (b % 2 ^ 64) ≡ a * b % 2 ^ 64
mul64-mod a b = mul-mod_left a (b % 2 ^ 64) (2 ^ 64) ∙ mul-mod_right a b (2 ^ 64)

-- The two ways in which half the power gives the whole.
square : (b e : ℕ) → e % 2 ≡ 0 → b ^ e ≡ b ^ (e / 2) * b ^ (e / 2)
square b e even =
    let twice : e ≡ e / 2 + e / 2 = omega arith in
    ap (λ (t : ℕ). b ^ t) twice ∙ pow-add b (e / 2) (e / 2)

square_odd : (b e : ℕ) → e % 2 ≢ 0 → b ^ e ≡ b * b ^ (e / 2) * b ^ (e / 2)
square_odd b e odd =
    let twice : e ≡ suc (e / 2) + e / 2 = omega arith in
    ap (λ (t : ℕ). b ^ t) twice
    ∙ pow-add b (suc (e / 2)) (e / 2)
    ∙ ap (λ (t : ℕ). t * b ^ (e / 2)) (pow-succ' b (e / 2))

pow_fuel_lem : (k b e : ℕ) → e < 2 ^ k → pow_fuel (suc k) b e ≡ ok (b ^ e % 2 ^ 64)
unfolding pow_fuel
pow_fuel_lem k b zero h = rw (pow-zero b)
pow_fuel_lem zero b (suc e) h = absurd (omega arith)
pow_fuel_lem (suc k) b (suc e) h =
    let x = b ^ (suc e / 2) in
    let half = pow_fuel_lem k b (suc e / 2) (omega (arith, two-pow-succ k)) in
    let nonzero : (suc e == 0) ≡ false = ground arith in
    elim (ℕ_discrete (suc e % 2) 0) [
      | yes even ↦
          rw (half, nonzero, even)
            (ap ok (mul64-mod x x ∙ ap (λ (t : ℕ). t % 2 ^ 64) (sym (square b (suc e) even))))
      | no odd ↦
          let one : suc e % 2 ≡ 1 = omega arith in
          rw (half, nonzero, one, mul-mod_right b x (2 ^ 64))
            (ap ok
              (mul64-mod (b * x) x ∙ ap (λ (t : ℕ). t % 2 ^ 64) (sym (square_odd b (suc e) odd))))
    ]

-- For every exponent of 64 bits `pow` ends, with the power modulo `2 ^ 64`.
pub pow_lem : (b e : ℕ) → e < 2 ^ 64 → pow b e ≡ ok (b ^ e % 2 ^ 64)
unfolding pow
pow_lem b e h = pow_fuel_lem 64 b e h
