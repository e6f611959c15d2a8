-- ===== src/PageAlloc/Bootmem.antt =====
-- src/mm/page_alloc.c: the blocks that the regions of the memory block table become.
use native.Mathlib.Nat.{pow-le-pow_right, one-le-pow}
use elfboot.Base.{
  ℕ, zero, suc, ◌+◌, ◌-◌, ◌*◌, ◌/◌, ◌%◌, ◌^◌, ◌≤◌, ◌<◌, ◌≡◌, refl, sym, ap, ◌∙◌, subst, inl, inr,
  Bool-cases, true, false, List, [], ◌∷◌, ◌++◌, arith, ltb, leb, ◌==◌, if◌then◌else◌,
}
use elfboot.Base.Run.{ok}
use elfboot.Core.{add32, sub32}
use elfboot.Math.Pow2.{lt_of_pow-lt, log2-HighestBit, round_down_pow2_lem}
use elfboot.Math.Power.{pow-add}
use elfboot.Memblock.{Region}
use elfboot.PageAlloc.{
  Page, Pages, page_num, page_max_alloc_size, change, set_page, phys_to_pfn, page_is_aligned,
  free_page_append, init_loop, compound_page_init, size_order, align_order, next_order,
  free_bootmem_loop, page_map_free_region,
}

align_order_lem :
    (a order : ℕ)
    → (o : ℕ) × (align_order (a * 4096) order ≡ ok o)
      × (o ≤ order)
      × (page_is_aligned (a * 4096) o ≡ true)
unfolding align_order page_is_aligned
align_order_lem a zero =
    let e : (a * 4096 % 4096 == 0) ≡ true = ground arith in (0, rw e refl, omega arith, e)
align_order_lem a (suc order) = elim (Bool-cases (page_is_aligned (a * 4096) (suc order))) [
  | inl e ↦ (suc order, rw e refl, omega arith, e)
  | inr e ↦ let (o, run, le, fits) = align_order_lem a order in (o, rw e run, omega arith, fits)
]

pub pages_of : (j : ℕ) → 12 ≤ j → 2 ^ (j - 12) * 4096 ≡ 2 ^ j
pages_of j h =
    let e : j - 12 + 12 ≡ j = omega arith in sym (pow-add 2 (j - 12) 12) ∙ ap (λ (t : ℕ). 2 ^ t) e

-- The largest size of a block that a block of `r` pages can hold.
block_size :
    (n r : ℕ)
    → 0 < r
    → r ≤ 256
    → 2 ^ n ≤ r * 4096
    → r * 4096 < 2 * 2 ^ n
    → (let align = if ltb page_max_alloc_size (2 ^ n) then page_max_alloc_size else 2 ^ n in
        (4096 ≤ align) × (align ≤ r * 4096) × (align ≤ 2 ^ 20))
block_size n r some max low high =
    let page : 4096 ≤ 2 ^ n =
      pow-le-pow_right {n = 2} (omega arith) {i = 12} {j = n} (lt_of_pow-lt 11 n (omega arith)) in
    elim (Bool-cases (ltb page_max_alloc_size (2 ^ n))) [
      | inl e ↦
          let big : 2 ^ 20 < 2 ^ n = ground arith in rw e (omega arith, omega arith, omega arith)
      | inr e ↦ let small : 2 ^ n ≤ 2 ^ 20 = ground arith in rw e (page, low, small)
    ]

next_order_lem :
    (a r : ℕ)
    → 0 < r
    → r ≤ 256
    → (o : ℕ) × (next_order (a * 4096) (r * 4096) ≡ ok o)
      × (o ≤ 8)
      × (2 ^ o ≤ r)
      × (a * 4096 % (4096 * 2 ^ o) ≡ 0)
unfolding next_order size_order page_is_aligned
next_order_lem a r some max =
    let (n, down, low, high) = round_down_pow2_lem (r * 4096) (omega arith) (omega arith) in
    let align = if ltb page_max_alloc_size (2 ^ n) then page_max_alloc_size else 2 ^ n in
    let (page, within, bound) = block_size n r some max low high in
    let (j, bits, top, _) = log2-HighestBit align (omega arith) (omega arith) in
    let ge : 12 ≤ j = omega (arith, lt_of_pow-lt 12 (suc j) (omega (arith, top.high))) in
    let le : j < 21 = lt_of_pow-lt j 21 (omega (arith, top.low)) in
    let whole : leb 12 j ≡ true = ground arith in
    let (o, run, less, fits) = align_order_lem a (j - 12) in
    let small : 2 ^ o ≤ 2 ^ (j - 12) =
      pow-le-pow_right {n = 2} (omega arith) {i = o} {j = j - 12} less in
    (
      o,
      rw (down, bits, whole) run,
      omega arith,
      omega (arith, small, pages_of j ge, top.low),
      ground arith,
    )

-- A block is its address and its order. The blocks follow each other from `addr` to `end`, each has
-- at most 256 pages, and its address is a multiple of its size.
abbrev pub Tiles : ℕ → ℕ → List (ℕ × ℕ) → Type 0
Tiles addr end [] = addr ≡ end
Tiles addr end ((a, o) ∷ blocks) =
    (a ≡ addr) × (o ≤ 8) × (addr % (4096 * 2 ^ o) ≡ 0) × Tiles (addr + 2 ^ o * 4096) end blocks

-- The areas once the blocks are appended, each to the area of its order.
abbrev pub appended : (ℕ → List ℕ) → List (ℕ × ℕ) → ℕ → List ℕ
appended areas [] = areas
appended areas ((a, o) ∷ blocks) = appended (change areas o (areas o ++ phys_to_pfn a ∷ [])) blocks

set_page-areas :
    (s : Pages) (p : ℕ) (page : Page)
    → p < 256
    → (s' : Pages) × (set_page s p page ≡ ok s') × (s'.areas ≡ s.areas)
unfolding set_page
set_page-areas s p page h =
    let inside : ltb p page_num ≡ true = ground arith in
    (record s { page_map = change s.page_map p page }, rw inside refl, refl)

init_loop-areas :
    (a order n : ℕ) (s : Pages) (i : ℕ)
    → a + i + n ≤ 256
    → (s' : Pages) × (init_loop (a * 4096) order n s i ≡ ok s') × (s'.areas ≡ s.areas)
unfolding init_loop
init_loop-areas a order zero s i h = (s, refl, refl)
init_loop-areas a order (suc n) s i h =
    let addr = a * 4096 + i * 4096 in
    let page : Page = record {
      is_free = true;
      paddr = addr;
      order = order;
      compound_head = phys_to_pfn (a * 4096);
      slab_cache = (s.page_map (phys_to_pfn addr)).slab_cache;
      inuse = 0;
      freelist = [];
    } in
    let (t, here, kept) = set_page-areas s (phys_to_pfn addr) page (omega arith) in
    let (s', run, kept') = init_loop-areas a order n t (i + 1) (omega arith) in
    (s', rw here run, kept' ∙ kept)

-- One round of the loop, from what its parts give.
loop_round :
    (k : ℕ) (s : Pages) (a r o : ℕ) {t s' : Pages}
    → a + r ≤ 256
    → 0 < r
    → 2 ^ o ≤ r
    → next_order (a * 4096) (r * 4096) ≡ ok o
    → compound_page_init s (a * 4096) o ≡ ok t
    → free_bootmem_loop k (free_page_append t a o) ((a + 2 ^ o) * 4096) ((r - 2 ^ o) * 4096) ≡ ok s'
    → free_bootmem_loop (suc k) s (a * 4096) (r * 4096) ≡ ok s'
unfolding free_bootmem_loop
loop_round k s a r o inside some fits order init rest =
    let more : (r * 4096 == 0) ≡ false = ground arith in
    let n = 2 ^ o in
    let page : phys_to_pfn (a * 4096) ≡ a = omega arith in
    let next : add32 (a * 4096) (n * 4096) ≡ (a + n) * 4096 = omega arith in
    let left : sub32 (r * 4096) (n * 4096) ≡ (r - n) * 4096 = omega arith in
    rw (more, order, init, page, next, left) rest

free_bootmem_loop-Tiles :
    (k : ℕ) (s : Pages) (a r : ℕ)
    → r < k
    → a + r ≤ 256
    → (s' : Pages) × (blocks : List (ℕ × ℕ)) × (free_bootmem_loop k s (a * 4096) (r * 4096) ≡ ok s')
      × Tiles (a * 4096) ((a + r) * 4096) blocks
      × (s'.areas ≡ appended s.areas blocks)
unfolding free_bootmem_loop compound_page_init free_page_append
free_bootmem_loop-Tiles zero s a r fuel inside = absurd (omega arith)
free_bootmem_loop-Tiles (suc k) s a zero fuel inside = (s, [], refl, omega arith, refl)
free_bootmem_loop-Tiles (suc k) s a (suc r) fuel inside =
    let (o, order, max, fits, aligned) = next_order_lem a (suc r) (omega arith) (omega arith) in
    let n = 2 ^ o in
    let (t, init, kept) = init_loop-areas a o n s 0 (omega arith) in
    let some : 0 < n = one-le-pow o 2 (omega arith) in
    let (s', blocks, run, tiles, areas) =
      free_bootmem_loop-Tiles k (free_page_append t a o) (a + n) (suc r - n) (omega arith)
        (omega arith) in
    let whole : (a + n + (suc r - n)) * 4096 ≡ (a + suc r) * 4096 = omega arith in
    let step : (a + n) * 4096 ≡ a * 4096 + n * 4096 = omega arith in
    let page : a ≡ phys_to_pfn (a * 4096) = omega arith in
    (
      s',
      (a * 4096, o) ∷ blocks,
      loop_round k s a (suc r) o inside (omega arith) fits order init run,
      (
        refl,
        max,
        aligned,
        subst (λ x. Tiles x ((a + suc r) * 4096) blocks) step
            (subst (λ x. Tiles ((a + n) * 4096) x blocks) whole tiles),
      ),
      areas
          ∙ ap (λ f. appended (change f o (f o ++ a ∷ [])) blocks) kept
          ∙ ap (λ p. appended (change s.areas o (s.areas o ++ p ∷ [])) blocks) page,
    )

module _ (s : Pages) (region : Region) (a r : ℕ) (base : region.base ≡ a * 4096)
    (size : region.size ≡ r * 4096) (inside : a + r ≤ 256) where
  region_run :
      (s' : Pages)
      → free_bootmem_loop (suc r) s (a * 4096) (r * 4096) ≡ ok s'
      → page_map_free_region s region ≡ ok s'
  unfolding page_map_free_region
  region_run s' run =
      let fuel : r * 4096 / 4096 + 1 ≡ suc r = omega arith in rw (base, size, fuel) run

  -- For a region of whole pages below one megabyte, `__page_map_free_bootmem` ends without a fault.
  -- It appends blocks to the areas of their orders that cover the region, each aligned to its size.
  pub page_map_free_region-Tiles :
      (s' : Pages) × (blocks : List (ℕ × ℕ)) × (page_map_free_region s region ≡ ok s')
      × Tiles region.base (region.base + region.size) blocks
      × (s'.areas ≡ appended s.areas blocks)
  page_map_free_region-Tiles =
      let (s', blocks, run, tiles, areas) =
        free_bootmem_loop-Tiles (suc r) s a r (omega arith) inside in
      let end : (a + r) * 4096 ≡ region.base + region.size = omega (arith, base, size) in
      (
        s',
        blocks,
        region_run s' run,
        subst (λ x. Tiles x (region.base + region.size) blocks) (sym base)
            (subst (λ x. Tiles (a * 4096) x blocks) end tiles),
        areas,
      )
