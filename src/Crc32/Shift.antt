-- ===== src/Crc32/Shift.antt =====
-- src/crypto/crc32.c: the shifts of a remainder, and the entries of the table.
use Prim.Native.Nat.{bit_and, bit_xor}
use elfboot.Base.{
  ℕ, zero, suc, ◌+◌, ◌-◌, ◌*◌, ◌/◌, ◌%◌, ◌^◌, ◌<◌, ◌≡◌, refl, ap, ap₂, sym, ◌∙◌, inl, inr,
  Bool-cases, true, false, arith, ltb, ◌==◌, if◌then◌else◌,
}
use native.Mathlib.Nat.{two-pow-succ, pow-le-pow_right}
use elfboot.Core.{u32}
use elfboot.Math.Bits.{bit_and-high_fields, bit_xor-zero}
use elfboot.Math.Xor.{zero-bit_xor, bit_xor_swap, bit_xor_small, bit_xor_fields}
use elfboot.Crc32.{table_step, table_loop}

-- A remainder shifted by one bit: the bit that leaves the 32 bits takes the polynomial away.
abbrev pub shift : ℕ → ℕ
shift c = if ltb c (2 ^ 31) then c * 2 else bit_xor (c * 2 - 2 ^ 32) 0x0e1fb007

abbrev pub shifts : ℕ → ℕ → ℕ
shifts zero c = c
shifts (suc j) c = shifts j (shift c)

top_bit : (c : ℕ) → c < 2 ^ 32 → bit_and c (2 ^ 31) ≡ c / 2 ^ 31 * 2 ^ 31
top_bit c small =
    let whole : c / 2 ^ 31 * 2 ^ 31 + c % 2 ^ 31 ≡ c = omega arith in
    ap (λ t. bit_and t (2 ^ 31)) (sym whole)
    ∙ bit_and-high_fields 31 1 (c / 2 ^ 31) (c % 2 ^ 31) (omega arith) (omega arith)

table_step_lem : (c : ℕ) → c < 2 ^ 32 → table_step c ≡ shift c
table_step_lem c small =
    let top = top_bit c small in
    elim (Bool-cases (ltb c (2 ^ 31))) [
      | inl e ↦
          let clear : (bit_and c (2 ^ 31) == 0) ≡ true = ground (arith, top) in
          let fits : u32 (c * 2) ≡ c * 2 = ground arith in rw (e, clear, fits) refl
      | inr e ↦
          let taken : (bit_and c (2 ^ 31) == 0) ≡ false = ground (arith, top) in
          let wraps : u32 (c * 2) ≡ c * 2 - 2 ^ 32 = ground arith in rw (e, taken, wraps) refl
    ]

shift_small : (c : ℕ) → c < 2 ^ 32 → shift c < 2 ^ 32
shift_small c small = elim (Bool-cases (ltb c (2 ^ 31))) [
  | inl e ↦ rw e (ground arith)
  | inr e ↦ rw e (bit_xor_small 32 (c * 2 - 2 ^ 32) 0x0e1fb007 (ground arith) (omega arith))
]

double_xor : (a b : ℕ) → bit_xor (a * 2) (b * 2) ≡ bit_xor a b * 2
double_xor a b =
    let fields = bit_xor_fields 1 a b 0 0 (omega arith) (omega arith) in
    let a' : a * 2 + 0 ≡ a * 2 = omega arith in
    let b' : b * 2 + 0 ≡ b * 2 = omega arith in
    sym (ap₂ (λ t u. bit_xor t u) a' b') ∙ fields ∙ omega (arith, zero-bit_xor 0)

-- Below the highest bit.
low_xor :
    (c m : ℕ) → c < 2 ^ 32 → m < 2 ^ 31 → bit_xor c m ≡ c / 2 ^ 31 * 2 ^ 31 + bit_xor (c % 2 ^ 31) m
low_xor c m small low =
    let whole : c / 2 ^ 31 * 2 ^ 31 + c % 2 ^ 31 ≡ c = omega arith in
    let alone : 0 * 2 ^ 31 + m ≡ m = omega arith in
    sym (ap₂ (λ t u. bit_xor t u) whole alone)
    ∙ bit_xor_fields 31 (c / 2 ^ 31) 0 (c % 2 ^ 31) m (omega arith) low
    ∙ ap (λ t. t * 2 ^ 31 + bit_xor (c % 2 ^ 31) m) (bit_xor-zero (c / 2 ^ 31))

-- What lies below the highest bit is only shifted.
shift_xor : (c m : ℕ) → c < 2 ^ 32 → m < 2 ^ 31 → shift (bit_xor c m) ≡ bit_xor (shift c) (m * 2)
shift_xor c m small low =
    let sum = low_xor c m small low in
    let part = bit_xor_small 31 (c % 2 ^ 31) m (omega arith) low in
    elim (Bool-cases (ltb c (2 ^ 31))) [
      | inl e ↦
          let same : c % 2 ^ 31 ≡ c = ground arith in
          let f : ltb (bit_xor c m) (2 ^ 31) ≡ true = ground (arith, sum, part) in
          rw (e, f) (sym (double_xor c m))
      | inr e ↦
          let f : ltb (bit_xor c m) (2 ^ 31) ≡ false = ground (arith, sum, part) in
          let upper : c / 2 ^ 31 ≡ 1 = ground arith in
          let left : bit_xor c m * 2 - 2 ^ 32 ≡ bit_xor (c % 2 ^ 31) m * 2 =
            omega (arith, sum, part, upper) in
          let right : c * 2 - 2 ^ 32 ≡ c % 2 ^ 31 * 2 = omega (arith, upper) in
          rw (e, f)
            (ap (λ t. bit_xor t 0x0e1fb007)
                (left ∙ sym (double_xor (c % 2 ^ 31) m) ∙ ap (λ t. bit_xor t (m * 2)) (sym right))
              ∙ bit_xor_swap (c * 2 - 2 ^ 32) (m * 2) 0x0e1fb007)
    ]

-- A number shifted.
unfoldable pub doubled : ℕ → ℕ → ℕ
doubled zero m = m
doubled (suc j) m = doubled j (m * 2)

pub shifts_xor :
    (j k c m : ℕ)
    → k + j ≡ 32
    → c < 2 ^ 32
    → m < 2 ^ k
    → shifts j (bit_xor c m) ≡ bit_xor (shifts j c) (doubled j m)
unfolding doubled
shifts_xor zero k c m bits small low = refl
shifts_xor (suc j) k c m bits small low =
    let bound = pow-le-pow_right {n = 2} (omega arith) {i = k} {j = 31} (omega arith) in
    ap (shifts j) (shift_xor c m small (omega (arith, bound)))
    ∙ shifts_xor j (suc k) (shift c) (m * 2) (omega arith) (shift_small c small)
        (omega (arith, two-pow-succ k))

pub table_loop_lem : (j c : ℕ) → c < 2 ^ 32 → table_loop j c ≡ shifts j c
unfolding table_loop
table_loop_lem zero c small = refl
table_loop_lem (suc j) c small =
    ap (table_loop j) (table_step_lem c small) ∙ table_loop_lem j (shift c) (shift_small c small)

pub shifts_small : (j c : ℕ) → c < 2 ^ 32 → shifts j c < 2 ^ 32
shifts_small zero c small = small
shifts_small (suc j) c small = shifts_small j (shift c) (shift_small c small)
