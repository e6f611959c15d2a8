-- ===== src/Str/Numbers.antt =====
-- src/core/string.c: `strtoul`, the value of the digits at the front of a string.
use elfboot.Base.{
  ℕ, ◌+◌, ◌*◌, ◌%◌, ◌^◌, ◌<◌, ◌≡◌, refl, sym, ap, ◌∙◌, inl, inr, Bool-cases, true, false, ◌&&◌,
  List, [], ◌∷◌, ◌++◌, arith, leb, ◌==◌,
}
use elfboot.Core.{u32}
use elfboot.Math.Power.{mul-mod_left}
use elfboot.Str.{first, rest, is_xdigit, digit_value, to_lower, strtoul_loop, strtoul}

-- The number that digits stand for, the highest one first, behind the digits of `value`.
abbrev pub number : ℕ → ℕ → List ℕ → ℕ
number base value [] = value
number base value (c ∷ s) = number base (value * base + digit_value c) s

abbrev pub IsDigit : ℕ → ℕ → Type 0
IsDigit base c = (is_xdigit c ≡ true) × (digit_value c < base)

abbrev pub AllDigits : ℕ → List ℕ → Type 0
AllDigits base [] = Unit {0}
AllDigits base (c ∷ s) = IsDigit base c × AllDigits base s

-- No digit stands at the front.
abbrev pub Stops : ℕ → List ℕ → Type 0
Stops base s = ¬ IsDigit base (first s)

number-u32 :
    (base value : ℕ) (s : List ℕ) → u32 (number base (u32 value) s) ≡ u32 (number base value s)
number-u32 base value [] = omega arith
number-u32 base value (c ∷ s) =
    let step : u32 (u32 value * base + digit_value c) ≡ u32 (value * base + digit_value c) =
      omega (arith, mul-mod_left value base (2 ^ 32)) in
    sym (number-u32 base (u32 value * base + digit_value c) s)
    ∙ ap (λ (t : ℕ). u32 (number base t s)) step
    ∙ number-u32 base (value * base + digit_value c) s

pub strtoul_loop_lem :
    (base : ℕ) (ds tail : List ℕ) (result : ℕ)
    → result < 2 ^ 32
    → AllDigits base ds
    → Stops base tail
    → strtoul_loop base (ds ++ tail) result ≡ (u32 (number base result ds), tail)
unfolding strtoul_loop
strtoul_loop_lem base [] [] result small all stops = ground arith
strtoul_loop_lem base [] (c ∷ tail) result small all stops =
    let same : u32 result ≡ result = omega arith in
    elim (Bool-cases (is_xdigit c)) [
      | inl e ↦ elim (Bool-cases (leb base (digit_value c))) [
        | inl f ↦ rw (e, f, same) refl
        | inr f ↦ absurd (stops (e, ground arith))
      ]
      | inr e ↦ rw (e, same) refl
    ]
strtoul_loop_lem base (c ∷ ds) tail result small all stops =
    let (digit, more) = all in
    let (e, below) = digit in
    let value = digit_value c in
    let f : leb base value ≡ false = ground arith in
    let flat : u32 (u32 (result * base) + value) ≡ u32 (result * base + value) = omega arith in
    rw (e, f)
      (strtoul_loop_lem base ds tail (u32 (u32 (result * base) + value)) (omega arith) more stops
        ∙ ap (λ (n : ℕ). (n, tail))
            (ap (λ (t : ℕ). u32 (number base t ds)) flat
              ∙ number-u32 base (result * base + value) ds))

-- For digits of base 2 to 16 with no `0x` in front, `strtoul` returns their number modulo
-- `2 ^ 32`, and where the first character stands that is no digit of the base.
pub strtoul_lem :
    (base : ℕ) (ds tail : List ℕ)
    → 0 < base
    → AllDigits base ds
    → Stops base tail
    → ((to_lower (first (rest (ds ++ tail))) == 120) ≡ false)
    → strtoul (ds ++ tail) base ≡ (number base 0 ds % 2 ^ 32, tail)
unfolding strtoul
strtoul_lem base ds tail some all stops unprefixed =
    let given : (base == 0) ≡ false = ground arith in
    let plain : (base == 16
          && first (ds ++ tail) == 48
          && to_lower (first (rest (ds ++ tail))) == 120)
        ≡ false =
      ground arith in
    rw (given, plain) (strtoul_loop_lem base ds tail 0 (omega arith) all stops)
