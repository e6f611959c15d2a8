-- ===== src/Printf/Written.antt =====
-- src/core/printf.c: the text of a number, and the digits that are collected for it.
use mathlib.Core.List.{append-nil}
use elfboot.Base.{
  ℕ, ◌+◌, ◌-◌, ◌^◌, ◌<◌, ◌≡◌, ◌≢◌, ◌⊎◌, refl, ap, ◌∙◌, inl, inr, Bool, true, false, ◌&&◌, List, [],
  ◌∷◌, ◌++◌, length, arith, leb, ◌==◌, if◌then◌else◌,
}
use elfboot.Base.Int.{pos_part}
use elfboot.Str.{first, rest, to_lower, is_digit, is_xdigit}
use elfboot.Str.Numbers.{number, AllDigits, Stops}
use elfboot.Printf.{FormatStruct, reverse_onto}
use elfboot.Printf.Digits.{number_low, AllChars, HasTop}
use elfboot.Printf.Number.{layout, sign_text}

number-reverse_onto :
    (base : ℕ) (ds done : List ℕ)
    → number base 0 (reverse_onto ds done) ≡ number base (number_low base ds) done
number-reverse_onto base [] done = refl
number-reverse_onto base (c ∷ ds) done =
    number-reverse_onto base ds (c ∷ done) ∙ ap (λ (v : ℕ). number base v done) (omega arith)

AllChars-reverse_onto :
    (base : ℕ) (ds done : List ℕ)
    → AllChars base ds
    → AllChars base done
    → AllChars base (reverse_onto ds done)
AllChars-reverse_onto base [] done p q = q
AllChars-reverse_onto base (c ∷ ds) done p q = AllChars-reverse_onto base ds (c ∷ done) p.1 (p.0, q)

pub length-reverse_onto :
    (ds done : List ℕ) → length (reverse_onto ds done) ≡ length ds + length done
length-reverse_onto [] done = omega arith
length-reverse_onto (c ∷ ds) done = omega (arith, length-reverse_onto ds (c ∷ done))

pub AllChars-AllDigits : (base : ℕ) (s : List ℕ) → AllChars base s → AllDigits base s
AllChars-AllDigits base [] p = tt
AllChars-AllDigits base (c ∷ s) p = (p.0.0, AllChars-AllDigits base s p.1)

pub unprefixed :
    (base : ℕ) (s : List ℕ) → AllChars base s → ((to_lower (first (rest s)) == 120) ≡ false)
unprefixed base [] p = refl
unprefixed base (c ∷ []) p = refl
unprefixed base (c ∷ d ∷ s) p = p.1.0.1

pub no_digit : (base : ℕ) → Stops base []
unfolding is_xdigit is_digit
no_digit base h = let bad = h.0 in cc

pub layout_none : (neg nul : Bool) (w : ℕ) (s : List ℕ) → w ≡ 0 → layout neg nul w [] s ≡ s
layout_none true nul w s h = rw h (append-nil s)
layout_none false true w s h = rw h refl
layout_none false false w s h = rw h refl

-- Whether a `-` is written, and the number behind it.
abbrev pub is_negative : FormatStruct → ℕ → Bool
is_negative f n = f.flags.sgn_pos && leb (2 ^ 63) n

abbrev pub magnitude : FormatStruct → ℕ → ℕ
magnitude f n = if is_negative f n then 2 ^ 64 - n else n

-- The digits of a number in base `base`, the highest one first: a zero for 0, and no zero in front
-- of another number.
pub record Digits (base n : ℕ) (text : List ℕ) : Type 0 where
  pub value : number base 0 text ≡ n
  pub chars : AllChars base text
  pub shape : ((n ≡ 0) × (text ≡ 48 ∷ [])) ⊎ ((0 < n) × (first text ≢ 48))

-- The text of a number in base `base`, and where it stands.
pub record Written (base : ℕ) (f : FormatStruct) (n : ℕ) (out : FormatStruct) : Type 0 where
  pub text : List ℕ
  pub digits : Digits base (magnitude f n) text
  pub placed :
      out.buf
      ≡ f.buf
        ++ layout f.flags.pad_neg f.flags.pad_nul
            (pos_part f.pad - length text - length (sign_text (is_negative f n)))
            (sign_text (is_negative f n))
            text

-- The highest digit comes first.
HasTop-reverse_onto :
    (c : ℕ) (ds done : List ℕ) → HasTop (c ∷ ds) → first (reverse_onto ds (c ∷ done)) ≢ 48
HasTop-reverse_onto c [] done top = top
HasTop-reverse_onto c (d ∷ ds) done top = HasTop-reverse_onto d ds (c ∷ done) top

-- The digits that are collected, the lowest one first.
pub record Collected (base n : ℕ) (ds : List ℕ) : Type 0 where
  pub value : number_low base ds ≡ n
  pub chars : AllChars base ds
  pub shape : ((n ≡ 0) × (ds ≡ 48 ∷ [])) ⊎ ((0 < n) × HasTop ds)

pub Collected-Digits :
    (base n : ℕ) (ds : List ℕ) → Collected base n ds → Digits base n (reverse_onto ds [])
Collected-Digits base n ds h = record {
  value = number-reverse_onto base ds [] ∙ h.value;
  chars = AllChars-reverse_onto base ds [] h.chars tt;
  shape = turned ds h.value h.shape;
}
  where
    turned :
        (ds : List ℕ)
        → number_low base ds ≡ n
        → (((n ≡ 0) × (ds ≡ 48 ∷ [])) ⊎ ((0 < n) × HasTop ds))
        → ((n ≡ 0) × (reverse_onto ds [] ≡ 48 ∷ [])) ⊎ ((0 < n) × (first (reverse_onto ds []) ≢ 48))
    turned ds value (inl (none_left, same)) =
        inl (none_left, ap (λ (t : List ℕ). reverse_onto t []) same)
    turned [] value (inr (some, top)) = absurd (omega arith)
    turned (c ∷ ds) value (inr (some, top)) = inr (some, HasTop-reverse_onto c ds [] top)
