-- ===== src/Printf/Digits.antt =====
-- src/core/printf.c: the digits that `vsprintf_put_number` writes.
use native.Mathlib.Nat.{div-add-mod', mod-lt, mul-le-mul_right, mul_comm, two-pow-succ}
use elfboot.Base.{
  ℕ, zero, suc, ◌+◌, ◌*◌, ◌/◌, ◌%◌, ◌^◌, ◌≤◌, ◌<◌, ◌≡◌, ◌≢◌, refl, Bool, true, false, not, ◌&&◌,
  List, [], ◌∷◌, arith, ltb, ◌==◌, if◌then◌else◌, all_below, all_below-lt,
}
use elfboot.Base.Run.{ok}
use elfboot.Math.{div}
use elfboot.Math.Divide.{arch_div_lem}
use elfboot.Str.{is_digit, is_xdigit, digit_value, to_lower}
use elfboot.Str.Numbers.{IsDigit}
use elfboot.Printf.{digit_char, digits_loop}

abbrev pub char_of : ℕ → ℕ
char_of d = if ltb d 10 then 48 + d else 55 + d

abbrev reads_back : ℕ → Bool
reads_back d =
    is_xdigit (char_of d)
    && digit_value (char_of d) == d
    && not (to_lower (char_of d) == 120)
    && ltb (char_of d) 97

all_read_back : all_below 16 reads_back ≡ true
unfolding all_below is_xdigit is_digit digit_value
all_read_back = refl

-- A character of a digit of the base, with a capital letter, that is not the `x` of a prefix.
abbrev pub IsChar : ℕ → ℕ → Type 0
IsChar base c = IsDigit base c × ((to_lower c == 120) ≡ false) × (c < 97)

digit_char_lem :
    (base d : ℕ)
    → d < base
    → base ≤ 16
    → (digit_char d ≡ ok (char_of d)) × IsChar base (char_of d) × (digit_value (char_of d) ≡ d)
unfolding digit_char
digit_char_lem base d below max =
    let all : reads_back d ≡ true = all_below-lt 16 reads_back all_read_back d (omega arith) in
    let low : ltb d 16 ≡ true = ground arith in
    let (digit, value, plain, capital) =
      all_four (is_xdigit (char_of d)) (digit_value (char_of d) == d) (to_lower (char_of d) == 120)
        (ltb (char_of d) 97) all in
    let same : digit_value (char_of d) ≡ d = ground arith in
    (rw low (ground arith), ((digit, omega arith), plain, ground arith), same)
  where
    all_four :
        (a b c d : Bool)
        → (a && b && not c && d) ≡ true
        → (a ≡ true) × (b ≡ true) × (c ≡ false) × (d ≡ true)
    all_four true true false true h = (refl, refl, refl, refl)
    all_four true true false false h = cc
    all_four true true true d h = cc
    all_four true false c d h = cc
    all_four false b c d h = cc

-- The number that digits stand for, the lowest one first.
abbrev pub number_low : ℕ → List ℕ → ℕ
number_low base [] = 0
number_low base (c ∷ ds) = digit_value c + number_low base ds * base

abbrev pub AllChars : ℕ → List ℕ → Type 0
AllChars base [] = Unit {0}
AllChars base (c ∷ ds) = IsChar base c × AllChars base ds

quotient_or_rest : (q r base n : ℕ) → q * base + r ≡ suc n → 0 < r + q
quotient_or_rest zero r base n e = omega arith
quotient_or_rest (suc q) r base n e = omega arith

-- The last digit, which is the highest one, is no zero.
abbrev pub HasTop : List ℕ → Type 0
HasTop [] = Unit {0}
HasTop (c ∷ []) = c ≢ 48
HasTop (c ∷ d ∷ ds) = HasTop (d ∷ ds)

-- A digit below other ones, or one that is no zero.
HasTop-cons :
    (base c : ℕ) (ds : List ℕ)
    → 0 < digit_value c + number_low base ds
    → HasTop ds
    → HasTop (c ∷ ds)
unfolding digit_value is_digit
HasTop-cons base c [] some top =
    λ e. absurd (let bad : 0 < digit_value 48 + 0 = rw e at some in omega arith)
HasTop-cons base c (d ∷ ds) some top = top

quotient_small : (base n : ℕ) → 2 ≤ base → n / base * 2 ≤ n
quotient_small base n h =
    omega (arith, div-add-mod' n base, mul-le-mul_right (n / base) h, mul_comm base (n / base))

module _ (base : ℕ) (two : 2 ≤ base) (sixteen : base ≤ 16) where
  digits_step : (n : ℕ) → n < 2 ^ 64 → div n base ≡ ok (n / base, n % base)
  unfolding div
  digits_step n small = arch_div_lem n base small (omega arith) (omega arith)

  pub digits_loop_lem :
      (k n : ℕ)
      → n < 2 ^ 64
      → n < 2 ^ k
      → (ds : List ℕ) × (digits_loop (suc k) n base ≡ ok ds)
        × (number_low base ds ≡ n)
        × AllChars base ds
        × HasTop ds
  unfolding digits_loop
  digits_loop_lem k zero small fits = ([], refl, refl, tt, tt)
  digits_loop_lem zero (suc n) small fits = absurd (omega arith)
  digits_loop_lem (suc k) (suc n) small fits =
      let nonzero : (suc n == 0) ≡ false = ground arith in
      let halved : suc n / base < 2 ^ k =
        omega (arith, quotient_small base (suc n) two, two-pow-succ k) in
      let (ds, run, value, chars, top) =
        digits_loop_lem k (suc n / base) (omega (arith, quotient_small base (suc n) two)) halved in
      let positive : 0 < suc n % base + suc n / base =
        quotient_or_rest (suc n / base) (suc n % base) base n (div-add-mod' (suc n) base) in
      let (char, is_char, back) =
        digit_char_lem base (suc n % base) (mod-lt (suc n) (omega arith)) sixteen in
      (
        char_of (suc n % base) ∷ ds,
        rw (nonzero, digits_step (suc n) small, char, run) refl,
        rw (back, value) (omega (arith, div-add-mod' (suc n) base)),
        (is_char, chars),
        HasTop-cons base (char_of (suc n % base)) ds
            (omega (arith, back, value, div-add-mod' (suc n) base, positive)) top,
      )
