-- ===== src/Base/Run.antt =====
-- Results of code that can touch memory outside its objects, and of loops that run on fuel.
use mathlib.Core.Path.{◌≡◌, refl}
use mathlib.Core.Bool.{Bool, true, false}

-- `fault` is an access outside an object, a shift by too much, or a trap of the processor.
-- `out_of_fuel` is a loop that was given too few rounds.
pub data Run {ℓ} (A : Type ℓ) : Type ℓ where
  ok : A → Run A
  fault : Run A
  out_of_fuel : Run A

-- The next step sees the value of the one before it.
abbrev pub ◌>>=◌ {ℓ κ} : {S : Type ℓ} {T : Type κ} → Run S → (S → Run T) → Run T
ok value >>= next = next value
fault >>= next = fault
out_of_fuel >>= next = out_of_fuel

abbrev pub ◌>>◌ {ℓ κ} : {S : Type ℓ} {T : Type κ} → Run S → Run T → Run T
first >> next = first >>= λ _. next

infixl 5 ◌>>◌ ◌>>=◌
-- `assert b` faults where the test fails.
abbrev pub assert : Bool → Run (Unit {0})
assert true = ok tt
assert false = fault

-- The steps of a run can be grouped.
module _ {ℓ κ μ} {R : Type ℓ} {S : Type κ} {T : Type μ} where
  pub bind_assoc :
      (r : Run R) (f : R → Run S) (g : S → Run T) → (r >>= f >>= g) ≡ (r >>= λ x. f x >>= g)
  bind_assoc (ok x) f g = refl
  bind_assoc fault f g = refl
  bind_assoc out_of_fuel f g = refl

module _ {ℓ κ} {R : Type ℓ} {S : Type κ} where
  pub bind_congr : (r : Run R) (f g : R → Run S) → ((x : R) → f x ≡ g x) → (r >>= f) ≡ (r >>= g)
  bind_congr (ok x) f g h = h x
  bind_congr fault f g h = refl
  bind_congr out_of_fuel f g h = refl
