-- ===== src/PageAlloc.antt =====
-- src/mm/page_alloc.c and src/include/elfboot/page.h: the buddy allocator of physical pages. A page
-- pointer is the index of the page in `page_map`, which has 256 entries for the first megabyte, and
-- an access behind them is a fault. A list is the list of the pages on it, by the order of its area.
pub mod Buddy
pub mod Bootmem
pub mod Members
mod Tests
use Prim.Native.Nat.{bit_xor}
use elfboot.Base.{
  ℕ, zero, suc, ◌+◌, ◌-◌, ◌*◌, ◌/◌, ◌%◌, ◌^◌, Bool, true, false, not, ◌&&◌, ◌||◌, Option, none,
  some, List, [], ◌∷◌, ◌++◌, ltb, leb, ◌==◌, if◌then◌else◌,
}
use elfboot.Base.Int.{ℤ, pos, negsuc}
use elfboot.Base.Run.{Run, ok, fault, out_of_fuel, ◌>>=◌, ◌>>◌, assert}
use elfboot.Core.{u32, add32, sub32, abs_difference}
use elfboot.Math.{log2, round_down_pow2}
use elfboot.Memblock.{
  Region, MemblockType, Memblock, memblock_end, load, page_size, memblock_limit, memblock_alloc,
}

abbrev pub page_max_order : ℕ
page_max_order = 9

-- `PAGE_MAX_ALLOC_SIZE`
abbrev pub page_max_alloc_size : ℕ
page_max_alloc_size = 2 ^ 8 * page_size

abbrev pub page_num : ℕ
page_num = memblock_limit / page_size

-- `is_free` is `PAGE_FLAG_FREE` in `flags`. `slab_cache` is the address of a cache, and `freelist` has
-- the addresses of the objects that are linked there.
pub record Page : Type 0 where
  pub is_free : Bool
  pub paddr : ℕ
  pub order : ℕ
  pub compound_head : ℕ
  pub slab_cache : ℕ
  pub inuse : ℕ
  pub freelist : List ℕ

pub record Pages : Type 0 where
  pub page_map : ℕ → Page
  pub nr_free : ℕ → ℕ
  pub areas : ℕ → List ℕ

abbrev pub change {ℓ} : {A : Type ℓ} → (ℕ → A) → ℕ → A → ℕ → A
change f i v j = if j == i then v else f j

unfoldable pub get_page : Pages → ℕ → Run Page
get_page s p = assert (ltb p page_num) >> ok (s.page_map p)

unfoldable pub set_page : Pages → ℕ → Page → Run Pages
set_page s p page = assert (ltb p page_num) >> ok (record s { page_map = change s.page_map p page })

-- `phys_to_page`, as an index.
abbrev pub phys_to_pfn : ℕ → ℕ
phys_to_pfn paddr = paddr / page_size

unfoldable pub page_is_aligned : ℕ → ℕ → Bool
page_is_aligned addr order = addr % (page_size * 2 ^ order) == 0

-- The page at `p` has the address `paddr`, and `order` is below 64. The address of the buddy has 64
-- bits, and the upper 32 are lost in the call.
unfoldable pub page_buddy : ℕ → ℕ → ℕ → ℕ
page_buddy p paddr order =
    let ppfn = phys_to_pfn paddr in
    let bpfn = phys_to_pfn (u32 (bit_xor paddr (2 ^ order * page_size % 2 ^ 64))) in
    let diff = abs_difference bpfn ppfn in if ltb ppfn bpfn then p + diff else p - diff

unfoldable pub free_page_add : Pages → ℕ → ℕ → Pages
free_page_add s p order = record s {
  nr_free = change s.nr_free order (add32 (s.nr_free order) 1);
  areas = change s.areas order (p ∷ s.areas order);
}

unfoldable pub free_page_append : Pages → ℕ → ℕ → Pages
free_page_append s p order = record s {
  nr_free = change s.nr_free order (add32 (s.nr_free order) 1);
  areas = change s.areas order (s.areas order ++ p ∷ []);
}

abbrev pub unlink : ℕ → List ℕ → List ℕ
unlink p [] = []
unlink p (q ∷ list) = if q == p then list else q ∷ unlink p list

abbrev pub is_member : ℕ → List ℕ → Bool
is_member p [] = false
is_member p (q ∷ list) = if q == p then true else is_member p list

-- Whether the page is on one of the lists of the first `orders` areas.
unfoldable pub is_linked : Pages → ℕ → ℕ → Bool
is_linked s p zero = false
is_linked s p (suc orders) = is_member p (s.areas orders) || is_linked s p orders

-- `list_del` takes the page off the list that it is on.
unfoldable pub free_page_del : Pages → ℕ → Run Pages
free_page_del s p = do
  page ← get_page s p
  assert (is_linked s p page_max_order)
  ok (record s {
    nr_free = change s.nr_free page.order (sub32 (s.nr_free page.order) 1);
    areas = λ o. unlink p (s.areas o);
  })

unfoldable pub free_area_get_first : Pages → ℕ → Option ℕ
free_area_get_first s order = elim (s.areas order) [ [] ↦ none | ◌∷◌ p list ↦ some p ]

-- `page_set_compound_head` on the `n` pages from `p` on.
unfoldable pub set_heads : ℕ → Pages → ℕ → ℕ → Run Pages
set_heads head s p zero = ok s
set_heads head s p (suc n) = do
  page ← get_page s p
  s' ← set_page s p (record page { compound_head = head })
  set_heads head s' (p + 1) n

unfoldable pub page_set_compound_head : Pages → ℕ → ℕ → Run Pages
page_set_compound_head s p order = set_heads p s p (2 ^ order)

-- The loop of `free_page_fix`, from the order `order + n` of the page down to `order`.
unfoldable pub fix_loop : ℕ → ℕ → Pages → ℕ → Run Pages
fix_loop p order s zero = ok s
fix_loop p order s (suc n) = do
  page ← get_page s p
  let porder = order + n
  let b = page_buddy p page.paddr porder
  buddy ← get_page s b
  s' ← set_page s b (record buddy { order = porder; is_free = true })
  fix_loop p order (free_page_add s' b porder) n

unfoldable pub free_page_fix : Pages → ℕ → ℕ → Run Pages
free_page_fix s p order = do page ← get_page s p; fix_loop p order s (page.order - order)

-- The page that the loop of `get_free_pages` finds, with `n` orders left, from `porder` on.
unfoldable pub find_area : Pages → ℕ → ℕ → Option ℕ
find_area s porder zero = none
find_area s porder (suc n) =
    let more = find_area s (porder + 1) n in
    elim (free_area_get_first s porder) [ none ↦ more | some p ↦ some p ]

-- What the loop does with the page, and what follows it.
unfoldable pub take_pages : Pages → ℕ → ℕ → Run Pages
take_pages s p order = do
  s₁ ← free_page_del s p
  s₂ ← free_page_fix s₁ p order
  page ← get_page s₂ p
  s₃ ← set_page s₂ p (record page { is_free = false; order = order })
  s₄ ← page_set_compound_head s₃ p order
  page_set_compound_head s₄ (page_buddy p page.paddr order) order

unfoldable pub get_free_pages : Pages → ℕ → Run (Option ℕ × Pages)
get_free_pages s order = elim (find_area s order (page_max_order - order)) [
  | none ↦ ok (none, s)
  | some p ↦ do s' ← take_pages s p order; ok (some p, s')
]

unfoldable pub alloc_pages : Pages → ℕ → Run (Option ℕ × Pages)
alloc_pages s order = get_free_pages s order

unfoldable pub alloc_page : Pages → Run (Option ℕ × Pages)
alloc_page s = alloc_pages s 0

-- The merged block, and the state.
unfoldable pub merge_pages : Pages → ℕ → ℕ → Run (ℕ × Pages)
merge_pages s p b = do
  s₁ ← free_page_del s p
  s₂ ← free_page_del s₁ b
  page ← get_page s₂ p
  s₃ ← set_page s₂ p (record page { order = add32 page.order 1 })
  buddy ← get_page s₃ b
  s₄ ← set_page s₃ b (record buddy { order = add32 buddy.order 1 })
  let left = if ltb page.paddr buddy.paddr then p else b
  head ← get_page s₄ left
  s₅ ← page_set_compound_head s₄ left head.order
  ok (left, s₅)

-- The loop of `merge_free_page`, with the rounds left.
unfoldable pub merge_loop : ℕ → Pages → ℕ → Run Pages
merge_loop zero s p = ok s
merge_loop (suc n) s p = do
  page ← get_page s p
  let b = page_buddy p page.paddr page.order
  buddy ← get_page s b
  if not buddy.is_free then ok s else (do
    (left, s') ← merge_pages s p b
    head ← get_page s' left
    merge_loop n (free_page_add s' left head.order) left)

unfoldable pub merge_free_page : Pages → ℕ → Run Pages
merge_free_page s p = do page ← get_page s p; merge_loop (page_max_order - 1 - page.order) s p

unfoldable pub free_pages : Pages → ℕ → ℕ → Run Pages
free_pages s p order =
    let added = free_page_add s p order in
    do
      page ← get_page added p
      s' ← set_page added p (record page { is_free = true })
      merge_free_page s' p

unfoldable pub free_page : Pages → ℕ → Run Pages
free_page s addr = do
  page ← get_page s (phys_to_pfn addr)
  free_pages s (phys_to_pfn addr) page.order

-- The loop of `compound_page_init`, with the pages left, at page `i` of the block.
unfoldable pub init_loop : ℕ → ℕ → ℕ → Pages → ℕ → Run Pages
init_loop paddr order zero s i = ok s
init_loop paddr order (suc n) s i =
    let addr = paddr + i * page_size in
    do
      s' ← set_page s (phys_to_pfn addr) (record {
        is_free = true;
        paddr = addr;
        order = order;
        compound_head = phys_to_pfn paddr;
        slab_cache = (s.page_map (phys_to_pfn addr)).slab_cache;
        inuse = 0;
        freelist = [];
      })
      init_loop paddr order n s' (i + 1)

unfoldable pub compound_page_init : Pages → ℕ → ℕ → Run Pages
compound_page_init s paddr order = init_loop paddr order (2 ^ order) s 0

-- `log2(align) - PAGE_SHIFT`; below a page the order would be negative.
unfoldable pub size_order : ℤ → Run ℕ
size_order (pos n) = if leb 12 n then ok (n - 12) else fault
size_order (negsuc n) = fault

-- `while (!page_is_aligned(addr, order)) order--;`
unfoldable pub align_order : ℕ → ℕ → Run ℕ
align_order addr zero = if page_is_aligned addr 0 then ok 0 else fault
align_order addr (suc order) =
    let lower = align_order addr order in
    if page_is_aligned addr (suc order) then ok (suc order) else lower

-- The order of the next block of a region.
unfoldable pub next_order : ℕ → ℕ → Run ℕ
next_order addr rest = do
  align ← round_down_pow2 rest
  order ← size_order (log2 (if ltb page_max_alloc_size align then page_max_alloc_size else align))
  align_order addr order

-- The loop of `__page_map_free_bootmem`.
unfoldable pub free_bootmem_loop : ℕ → Pages → ℕ → ℕ → Run Pages
free_bootmem_loop zero s addr rest = out_of_fuel
free_bootmem_loop (suc k) s addr rest = if rest == 0 then ok s else (do
  order ← next_order addr rest
  s' ← compound_page_init s addr order
  free_bootmem_loop k (free_page_append s' (phys_to_pfn addr) order)
      (add32 addr (2 ^ order * page_size)) (sub32 rest (2 ^ order * page_size)))

-- Each block has a page or more.
unfoldable pub page_map_free_region : Pages → Region → Run Pages
page_map_free_region s region =
    free_bootmem_loop (region.size / page_size + 1) s region.base region.size

-- The loop of `page_map_free_bootmem`, with the regions left.
unfoldable pub free_regions : MemblockType → ℕ → Pages → ℕ → Run Pages
free_regions t zero s i = ok s
free_regions t (suc n) s i = do
  region ← load t i
  if ltb memblock_limit (memblock_end region)
      then ok s
      else (do s' ← page_map_free_region s region; free_regions t n s' (i + 1))

unfoldable pub page_map_free_bootmem : MemblockType → Pages → Run Pages
page_map_free_bootmem t s = free_regions t t.cnt s 0

-- `sizeof(struct page)`
abbrev pub page_struct_size : ℕ
page_struct_size = 40

-- `page_map_init`: whether it got the memory for the page map, which is not cleared.
unfoldable pub page_map_init : Memblock → Pages → Run (Bool × Memblock × Pages)
page_map_init m s = do
  (map, m') ← memblock_alloc m (page_num * page_struct_size) page_size
  ok (elim map [
    | none ↦ (false, m', s)
    | some p ↦ (true, m', record s { nr_free = λ order. 0; areas = λ order. [] })
  ])

-- Whether the result is 0.
unfoldable pub page_alloc_init : Memblock → Pages → Run (Bool × Memblock × Pages)
page_alloc_init m s = do
  (done, m', s₁) ← page_map_init m s
  if not done
      then ok (false, m', s₁)
      else (do s₂ ← page_map_free_bootmem m'.bootmem s₁; ok (true, m', s₂))
