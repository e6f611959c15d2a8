-- ===== src/PageAlloc/Buddy.antt =====
-- src/include/elfboot/page.h: `page_buddy` on page numbers.
use Prim.Native.Nat.{bit_xor}
use native.Mathlib.Nat.{
  div-div-eq-div-mul, mul_comm, mul-mod_left, one-le-pow, two-pow-succ, div-add-mod', mul_assoc,
  mul-le-mul_right, mul-div_left, pow-le-pow_right,
}
use elfboot.Base.{
  ℕ, suc, ◌+◌, ◌-◌, ◌*◌, ◌/◌, ◌%◌, ◌^◌, ◌≤◌, ◌<◌, ◌≡◌, refl, sym, ap, ◌∙◌, subst, inl, inr,
  Bool-cases, true, false, min, max, arith, ltb, ◌==◌, if◌then◌else◌,
}
use elfboot.Core.{u32, abs_difference}
use elfboot.Math.Bits.{bit_xor_bit}
use elfboot.Math.Xor.{bit_xor_small}
use elfboot.Math.Power.{pow-add}
use elfboot.PageAlloc.{page_buddy}

-- The page at the other half, by the bit of the order in the page number.
other_half : ℕ → ℕ → ℕ
other_half p order = if p / 2 ^ order % 2 == 0 then p + 2 ^ order else p - 2 ^ order

-- What `page_buddy` makes of the address `x` of the other half.
abbrev pick : ℕ → ℕ → ℕ
pick p x =
    if ltb (p * 4096 / 4096) (x / 4096)
    then p + abs_difference (x / 4096) (p * 4096 / 4096)
    else p - abs_difference (x / 4096) (p * 4096 / 4096)

pick-up : (p n : ℕ) → 0 < n → pick p (p * 4096 + n * 4096) ≡ p + n
pick-up p n h =
    let e : (p * 4096 + n * 4096) / 4096 ≡ p + n = omega arith in
    let f : p * 4096 / 4096 ≡ p = omega arith in rw (e, f) (ground arith)

pick-down : (p n : ℕ) → 0 < n → n ≤ p → pick p (p * 4096 - n * 4096) ≡ p - n
pick-down p n h le =
    let e : (p * 4096 - n * 4096) / 4096 ≡ p - n = omega arith in
    let f : p * 4096 / 4096 ≡ p = omega arith in rw (e, f) (ground arith)

same_bit : (p n : ℕ) → p * 4096 / (n * 4096) ≡ p / n
same_bit p n =
    let f : p * 4096 / 4096 ≡ p = omega arith in
    ap (λ (t : ℕ). p * 4096 / t) (mul_comm n 4096)
    ∙ sym (div-div-eq-div-mul (p * 4096) 4096 n)
    ∙ ap (λ (t : ℕ). t / n) f

within : (p n : ℕ) → (p / n % 2 == 0) ≡ false → n ≤ p
within p n e =
    let some : 1 ≤ p / n = ground arith in omega (arith, div-add-mod' p n, mul-le-mul_right n some)

-- The block at the page `p` starts below the address `2 ^ 32`, and has at most half of these pages.
module _ (p order : ℕ) (below : p < 2 ^ 20) (small : order < 20) where
  half_word : 2 ^ order ≤ 2 ^ 19
  half_word = pow-le-pow_right {n = 2} (omega arith) {i = order} {j = 19} (omega arith)

  -- The address of the other half, in 32 bits.
  flip : bit_xor (p * 4096) (2 ^ order * 4096) ≡ (
      if p / 2 ^ order % 2 == 0 then p * 4096 + 2 ^ order * 4096 else p * 4096 - 2 ^ order * 4096)
  flip =
      let n = 2 ^ order in
      let size : n * 4096 ≡ 2 ^ (order + 12) = sym (pow-add 2 order 12) in
      let bit : p * 4096 / 2 ^ (order + 12) ≡ p / n =
        ap (λ (t : ℕ). p * 4096 / t) (sym size) ∙ same_bit p n in
      let turned = ap (bit_xor (p * 4096)) size ∙ bit_xor_bit (order + 12) (p * 4096) in
      elim (Bool-cases (p / n % 2 == 0)) [
        | inl e ↦ turned ∙ rw (bit, e) (ap (λ (t : ℕ). p * 4096 + t) (sym size))
        | inr e ↦ turned ∙ rw (bit, e) (ap (λ (t : ℕ). p * 4096 - t) (sym size))
      ]

  flip_small : bit_xor (p * 4096) (2 ^ order * 4096) < 2 ^ 32
  flip_small =
      bit_xor_small 32 (p * 4096) (2 ^ order * 4096) (omega arith) (omega (arith, half_word))

  -- The other half starts below the address `2 ^ 32` too.
  up_inside : (p / 2 ^ order % 2 == 0) ≡ true → p + 2 ^ order < 2 ^ 20
  up_inside e =
      let up : bit_xor (p * 4096) (2 ^ order * 4096) ≡ p * 4096 + 2 ^ order * 4096 =
        flip ∙ rw e refl in
      omega (arith, up, flip_small)

  page_buddy_lem : page_buddy p (p * 4096) order ≡ other_half p order
  unfolding page_buddy other_half
  page_buddy_lem =
      let n = 2 ^ order in
      let some : 0 < n = one-le-pow order 2 (omega arith) in
      let fits : n * 4096 % 2 ^ 64 ≡ n * 4096 = omega (arith, half_word) in
      let word : u32 (bit_xor (p * 4096) (n * 4096)) ≡ bit_xor (p * 4096) (n * 4096) =
        omega (arith, flip_small) in
      let address = ap (λ t. u32 (bit_xor (p * 4096) t)) fits ∙ word in
      elim (Bool-cases (p / n % 2 == 0)) [
        | inl e ↦
            let up : bit_xor (p * 4096) (n * 4096) ≡ p * 4096 + n * 4096 = flip ∙ rw e refl in
            ap (pick p) (address ∙ up) ∙ pick-up p n some ∙ rw e refl
        | inr e ↦
            let down : bit_xor (p * 4096) (n * 4096) ≡ p * 4096 - n * 4096 = flip ∙ rw e refl in
            ap (pick p) (address ∙ down) ∙ pick-down p n some (within p n e) ∙ rw e refl
      ]

other_half-even : (q order : ℕ) → q % 2 ≡ 0 → other_half (q * 2 ^ order) order ≡ suc q * 2 ^ order
unfolding other_half
other_half-even q order even =
    let n = 2 ^ order in
    let whole = mul-div_left q {n = n} (one-le-pow order 2 (omega arith)) in
    let e : (q % 2 == 0) ≡ true = ground arith in rw (whole, e) (omega arith)

other_half-odd : (q order : ℕ) → q % 2 ≡ 0 → other_half (suc q * 2 ^ order) order ≡ q * 2 ^ order
unfolding other_half
other_half-odd q order even =
    let n = 2 ^ order in
    let whole = mul-div_left (suc q) {n = n} (one-le-pow order 2 (omega arith)) in
    let e : (suc q % 2 == 0) ≡ false = ground arith in rw (whole, e) (omega arith)

-- Two blocks of order `order`, at the pages `p` and `b`, that make up one of the next order.
pub record Buddies (order p b : ℕ) : Type 0 where
  pub there : page_buddy p (p * 4096) order ≡ b
  pub back : page_buddy b (b * 4096) order ≡ p
  pub aligned : min p b % 2 ^ suc order ≡ 0
  pub adjacent : max p b ≡ min p b + 2 ^ order

halves :
    (q order : ℕ)
    → q % 2 ≡ 0
    → suc q * 2 ^ order < 2 ^ 20
    → order < 20
    → Buddies order (q * 2 ^ order) (suc q * 2 ^ order)
halves q order even below small =
    let n = 2 ^ order in
    let h = q / 2 in
    let twice : 2 ^ suc order ≡ 2 * n = omega (arith, two-pow-succ order) in
    let whole : h * 2 ≡ q = omega arith in
    let double : h * 2 ^ suc order ≡ q * n =
      ap (λ (t : ℕ). h * t) twice ∙ sym (mul_assoc h 2 n) ∙ ap (λ (t : ℕ). t * n) whole in
    let least : min (q * n) (suc q * n) ≡ q * n = omega arith in
    record {
      there = page_buddy_lem (q * n) order (omega arith) small ∙ other_half-even q order even;
      back = page_buddy_lem (suc q * n) order below small ∙ other_half-odd q order even;
      aligned = rw (least, sym double) (mul-mod_left (q / 2) (2 ^ suc order));
      adjacent = omega arith;
    }

swapped : (order p b : ℕ) → Buddies order p b → Buddies order b p
swapped order p b h =
    let least : min b p ≡ min p b = omega arith in
    record {
      there = h.back;
      back = h.there;
      aligned = rw least h.aligned;
      adjacent = omega (arith, h.adjacent);
    }

-- The buddy of a block of an order below 20, at a page that is a multiple of its size and starts below
-- the address `2 ^ 32`, is the other half of the block of the next order. It starts below this
-- address too, and has this block as its buddy.
pub page_buddy-Buddies :
    (q order : ℕ)
    → order < 20
    → q * 2 ^ order < 2 ^ 20
    → (b : ℕ) × (b < 2 ^ 20) × Buddies order (q * 2 ^ order) b
page_buddy-Buddies q order small below = elim (Bool-cases (q % 2 == 0)) [
  | inl e ↦
      let n = 2 ^ order in
      let whole = mul-div_left q {n = n} (one-le-pow order 2 (omega arith)) in
      let even : (q * n / n % 2 == 0) ≡ true = rw whole e in
      let inside : suc q * n < 2 ^ 20 = omega (arith, up_inside (q * n) order below small even) in
      (suc q * n, inside, halves q order (ground arith) inside small)
  | inr e ↦
      let h = q - 1 in
      let one : suc h ≡ q = ground arith in
      let inside : suc h * 2 ^ order < 2 ^ 20 = rw one below in
      (
        h * 2 ^ order,
        omega arith,
        subst (λ x. Buddies order (x * 2 ^ order) (h * 2 ^ order)) one
            (swapped order (h * 2 ^ order) (suc h * 2 ^ order)
              (halves h order (ground arith) inside small)),
      )
]
