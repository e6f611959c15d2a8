-- ===== src/Bmalloc/Sizes.antt =====
-- src/mm/slub.c: the cache of a size, and the slab of a cache.
use native.Mathlib.Nat.{div-eq_of_lt, pow-le-pow_right, one-le-pow, two-pow-succ}
use elfboot.Base.{
  ℕ, zero, suc, ◌+◌, ◌-◌, ◌*◌, ◌/◌, ◌%◌, ◌^◌, ◌≤◌, ◌<◌, ◌≡◌, refl, ap, true, false, List, [], ◌∷◌,
  map, all_below, all_below-lt, arith, ltb, leb, ◌==◌, max, dec_lt,
}
use elfboot.Base.Int.{pos, negsuc}
use elfboot.Base.Run.{ok}
use elfboot.Math.{log2}
use elfboot.Math.Pow2.{log2-HighestBit, log2-pow, lt_of_pow-lt, round_up_pow2_lem}
use elfboot.PageAlloc.Bootmem.{pages_of}
use elfboot.Bmalloc.{
  bmalloc_info, kmalloc_cache_num, size_index, bmalloc_index, cache_shift, calculate_cache_order,
  slab_objects,
}

-- The size of the objects of the cache `i`.
abbrev pub class_size : ℕ → ℕ
class_size i = 2 ^ (i + 3)

pub class_sizes :
    map (λ (e : ℕ × List ℕ). e.0) bmalloc_info
    ≡ map class_size (0 ∷ 1 ∷ 2 ∷ 3 ∷ 4 ∷ 5 ∷ 6 ∷ 7 ∷ 8 ∷ 9 ∷ 10 ∷ 11 ∷ 12 ∷ [])
class_sizes = refl

-- The cache `i` has the smallest objects that hold `size` bytes.
pub record SizeClass (size i : ℕ) : Type 0 where
  pub exists : i < kmalloc_cache_num
  pub holds : size ≤ class_size i
  pub least : (j : ℕ) → j < i → class_size j < size

size_index-small : (n : ℕ) → n ≤ 3 → size_index (2 ^ n) ≡ pos 0
unfolding size_index
size_index-small n h =
    let le : 2 ^ n ≤ 8 = pow-le-pow_right {n = 2} (omega arith) {i = n} {j = 3} h in
    let test : leb (2 ^ n) 8 ≡ true = ground arith in rw test refl

size_index-pow : (n : ℕ) → 3 < n → n ≤ 15 → size_index (2 ^ n) ≡ pos (n - 3)
unfolding size_index
size_index-pow n low high =
    let above : 16 ≤ 2 ^ n = pow-le-pow_right {n = 2} (omega arith) {i = 4} {j = n} low in
    let below : 2 ^ n ≤ 2 ^ 15 = pow-le-pow_right {n = 2} (omega arith) {i = n} {j = 15} high in
    let not_small : leb (2 ^ n) 8 ≡ false = ground arith in
    let big : ltb 8 (2 ^ n) ≡ true = ground arith in
    let fits : leb (2 ^ n) (2 ^ 15) ≡ true = ground arith in
    rw (not_small, big, fits, log2-pow n (omega arith)) (ground arith)

size_index-large : (n : ℕ) → 15 < n → size_index (2 ^ n) ≡ negsuc 0
unfolding size_index
size_index-large n h =
    let above : 2 ^ 16 ≤ 2 ^ n = pow-le-pow_right {n = 2} (omega arith) {i = 16} {j = n} h in
    let not_small : leb (2 ^ n) 8 ≡ false = ground arith in
    let big : ltb 8 (2 ^ n) ≡ true = ground arith in
    let fits : leb (2 ^ n) (2 ^ 15) ≡ false = ground arith in rw (not_small, big, fits) refl

class_size-least :
    (size n : ℕ) → 3 < n → 2 ^ n < 2 * size → (j : ℕ) → j < n - 3 → class_size j < size
class_size-least size n low high j h =
    let le : 2 ^ suc (j + 3) ≤ 2 ^ n =
      pow-le-pow_right {n = 2} (omega arith) {i = suc (j + 3)} {j = n} (omega arith) in
    omega (arith, two-pow-succ (j + 3))

-- For `0 < size ≤ 2 ^ 15`, `bmalloc_index` gives the cache of the smallest objects that hold `size`
-- bytes.
pub bmalloc_index-SizeClass :
    (size : ℕ)
    → 0 < size
    → size ≤ 2 ^ 15
    → (i : ℕ) × (bmalloc_index size ≡ ok (pos i)) × SizeClass size i
unfolding bmalloc_index
bmalloc_index-SizeClass size positive fits =
    let (n, run, low, high, _) = round_up_pow2_lem size positive (omega arith) in
    let given : (size == 0) ≡ false = ground arith in
    let bound : n < 16 = lt_of_pow-lt n 16 (omega arith) in
    elim (dec_lt 3 n) [
      | yes big ↦ (
        n - 3,
        rw (given, run) (ap ok (size_index-pow n big (omega arith))),
        record {
          exists = omega arith;
          holds = let same : n - 3 + 3 ≡ n = omega arith in rw same low;
          least = class_size-least size n big high;
        },
      )
      | no little ↦
          let le : 2 ^ n ≤ 2 ^ 3 =
            pow-le-pow_right {n = 2} (omega arith) {i = n} {j = 3} (omega arith) in
          (
            0,
            rw (given, run) (ap ok (size_index-small n (omega arith))),
            record {
              exists = omega arith;
              holds = omega arith;
              least = λ j lt. absurd (omega arith);
            },
          )
    ]

-- For `2 ^ 15 < size ≤ 2 ^ 31`, `bmalloc_index` gives -1.
pub bmalloc_index-large :
    (size : ℕ) → 2 ^ 15 < size → size ≤ 2 ^ 31 → bmalloc_index size ≡ ok (negsuc 0)
unfolding bmalloc_index
bmalloc_index-large size big fits =
    let (n, run, low, _, _) = round_up_pow2_lem size (omega arith) fits in
    let given : (size == 0) ≡ false = ground arith in
    let bound : 15 < n = lt_of_pow-lt 15 n (omega arith) in
    rw (given, run) (ap ok (size_index-large n bound))

cache_shift-pow : (k : ℕ) → 0 < k → k < 32 → cache_shift (log2 (2 ^ k - 1)) ≡ k
unfolding cache_shift
cache_shift-pow k positive small =
    let high : 2 ^ k ≤ 2 ^ 31 =
      pow-le-pow_right {n = 2} (omega arith) {i = k} {j = 31} (omega arith) in
    let low : 2 ≤ 2 ^ k = pow-le-pow_right {n = 2} (omega arith) {i = 1} {j = k} positive in
    let (m, e, b, _) = log2-HighestBit (2 ^ k - 1) (omega arith) (omega arith) in
    let below : m < k = lt_of_pow-lt m k (omega (arith, b.low)) in
    let above : k < suc (suc m) =
      lt_of_pow-lt k (suc (suc m)) (omega (arith, b.high, b.low, two-pow-succ (suc m))) in
    let same : m + 1 ≡ k = omega arith in rw e same

calculate_cache_order-pow : (k : ℕ) → k < 32 → calculate_cache_order (2 ^ k) ≡ k - 12
unfolding calculate_cache_order cache_shift log2
calculate_cache_order-pow zero small = refl
calculate_cache_order-pow (suc k) small =
    let high : 2 ^ suc k ≤ 2 ^ 31 =
      pow-le-pow_right {n = 2} (omega arith) {i = suc k} {j = 31} (omega arith) in
    let positive : 0 < 2 ^ suc k = one-le-pow (suc k) 2 (omega arith) in
    let size : (2 ^ suc k + 2 ^ 32 - 1) % 2 ^ 32 ≡ 2 ^ suc k - 1 = omega arith in
    rw (size, cache_shift-pow (suc k) (omega arith) small) (omega arith)

-- `nums` objects of `size` bytes exactly fill `2 ^ order` pages.
pub record Fills (size nums order : ℕ) : Type 0 where
  pub positive : 0 < nums
  pub full : nums * size ≡ 2 ^ order * 4096

small_div : (b : ℕ) → 4096 < b → 4096 / b ≡ 0
small_div b h = div-eq_of_lt h

full_page :
    (k : ℕ)
    → (max (4096 / 2 ^ k) 1 * 2 ^ k == 2 ^ (k - 12) * 4096) ≡ true
    → max (4096 / 2 ^ k) 1 * 2 ^ k ≡ 2 ^ (k - 12) * 4096
full_page k test = ground arith

objects_full : (k : ℕ) → max (4096 / 2 ^ k) 1 * 2 ^ k ≡ 2 ^ (k - 12) * 4096
unfolding all_below
objects_full k = elim (dec_lt k 13) [
  | yes h ↦
      let test = λ (i : ℕ). max (4096 / 2 ^ i) 1 * 2 ^ i == 2 ^ (i - 12) * 4096 in
      full_page k (all_below-lt 13 test refl k h)
  | no h ↦
      let above : 2 ^ 13 ≤ 2 ^ k =
        pow-le-pow_right {n = 2} (omega arith) {i = 13} {j = k} (omega arith) in
      rw (small_div (2 ^ k) (omega arith)) (omega (arith, pages_of k (omega arith)))
]

-- A cache of objects of `2 ^ k` bytes, for `k < 32`, has slabs that its objects fill.
pub slab_objects-Fills :
    (k : ℕ)
    → k < 32
    → (nums : ℕ) × (slab_objects (2 ^ k) ≡ ok nums)
      × Fills (2 ^ k) nums (calculate_cache_order (2 ^ k))
unfolding slab_objects
slab_objects-Fills k small =
    let positive : 0 < 2 ^ k = one-le-pow k 2 (omega arith) in
    let test : (2 ^ k == 0) ≡ false = ground arith in
    (
      max (4096 / 2 ^ k) 1,
      rw test refl,
      record {
        positive = omega arith;
        full = rw (calculate_cache_order-pow k small) (objects_full k);
      },
    )
