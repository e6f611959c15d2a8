-- ===== src/Slub.antt =====
-- src/mm/slub.c and src/include/elfboot/slub.h: the caches of objects and their slabs. A cache, an
-- object and the static `bmem_cache` are their addresses; a slab is the index of its page.
pub mod Lists
pub mod Slabs
pub mod Object
pub mod Taken
pub mod Alloc
pub mod Returned
pub mod Free
pub mod Grow
mod Tests
use elfboot.Base.{
  ℕ, zero, suc, ◌+◌, ◌-◌, ◌*◌, ◌/◌, Bool, true, false, Option, none, some, List, [], ◌∷◌, ◌++◌, ltb,
  ◌==◌, if◌then◌else◌, min, max,
}
use elfboot.Base.Int.{ℤ}
use elfboot.Base.Run.{Run, ok, fault, ◌>>=◌}
use elfboot.Core.{u32, add32, sub32}
use elfboot.Memblock.{page_size}
use elfboot.PageAlloc.{
  Page, Pages, change, get_page, set_page, phys_to_pfn, unlink, alloc_pages, free_page,
}

-- A constructor of another file initialises the memory of the object, which is not in the state.
pub data Ctor : Type 0 where
  no_ctor : Ctor
  cache_ctor : Ctor
  object_ctor : Ctor

-- `next` is the position in `bmem_caches`, and `name` the text.
pub record BmemCache : Type 0 where
  pub name : List ℕ
  pub size : ℕ
  pub nums : ℕ
  pub order : ℕ
  pub free_objs : ℕ
  pub free_slabs : ℕ
  pub total_slabs : ℕ
  pub slabs_full : List ℕ
  pub slabs_partial : List ℕ
  pub slabs_free : List ℕ
  pub ctor : Ctor

-- `memory` has the bytes of the objects that are in use. The links of the others are in the
-- freelists.
pub record Slub : Type 0 where
  pub pages : Pages
  pub caches : ℕ → BmemCache
  pub bmem_caches : List ℕ
  pub bmalloc_caches : ℕ → ℕ
  pub memory : ℕ → ℕ

abbrev pub set_cache : Slub → ℕ → BmemCache → Slub
set_cache s c cache = record s { caches = change s.caches c cache }

unfoldable pub bmem_cache_init : ℕ → Slub → Slub
bmem_cache_init objp s = set_cache s objp (record (s.caches objp) {
  free_objs = 0;
  free_slabs = 0;
  total_slabs = 0;
  slabs_free = [];
  slabs_partial = [];
  slabs_full = [];
  ctor = no_ctor;
})

unfoldable pub run_ctor : Ctor → ℕ → Slub → Slub
run_ctor no_ctor objp s = s
run_ctor cache_ctor objp s = bmem_cache_init objp s
run_ctor object_ctor objp s = s

-- `list_del(&page->list)`: the page is on one of the three lists.
abbrev pub slab_del : ℕ → BmemCache → BmemCache
slab_del p cache = record cache {
  slabs_full = unlink p cache.slabs_full;
  slabs_partial = unlink p cache.slabs_partial;
  slabs_free = unlink p cache.slabs_free;
}

abbrev pub set_slab : Slub → ℕ → Page → Run Slub
set_slab s p page = do pages ← set_page s.pages p page; ok (record s { pages = pages })

-- The first object of the freelist, if there is one.
unfoldable pub fetch_first : Slub → ℕ → Page → List ℕ → Run (Option ℕ × Slub)
fetch_first s p page [] = ok (none, s)
fetch_first s p page (objp ∷ freelist) = do
  s' ← set_slab s p (record page { freelist = freelist; inuse = add32 page.inuse 1 })
  ok (some objp, s')

unfoldable pub bmem_cache_fetch : Slub → ℕ → Run (Option ℕ × Slub)
bmem_cache_fetch s p = do page ← get_page s.pages p; fetch_first s p page page.freelist

-- `bmem_cache_page`, from the partial and the free slabs.
unfoldable pub first_slab : Slub → ℕ → List ℕ → List ℕ → Option ℕ × Slub
first_slab s c (p ∷ partial) free = (some p, s)
first_slab s c [] (p ∷ free) =
    let cache = s.caches c in
    (some p, set_cache s c (record cache { free_slabs = sub32 cache.free_slabs 1 }))
first_slab s c [] [] = (none, s)

unfoldable pub bmem_cache_page : Slub → ℕ → Option ℕ × Slub
bmem_cache_page s c = first_slab s c (s.caches c).slabs_partial (s.caches c).slabs_free

abbrev pub add_full : ℕ → BmemCache → BmemCache
add_full p cache = record cache { slabs_full = p ∷ cache.slabs_full }

abbrev pub add_partial : ℕ → BmemCache → BmemCache
add_partial p cache = record cache { slabs_partial = p ∷ cache.slabs_partial }

unfoldable pub bmem_cache_fixup : Slub → ℕ → ℕ → Run Slub
bmem_cache_fixup s c p = do
  page ← get_page s.pages p
  let cache = slab_del p (s.caches c)
  ok (set_cache s c (if page.inuse == cache.nums then add_full p cache else add_partial p cache))

-- The loop of `bmem_cache_setup`, with the objects left: the freelist.
unfoldable pub setup_loop : ℕ → ℕ → ℕ → ℕ → List ℕ → List ℕ
setup_loop paddr size zero objc freelist = freelist
setup_loop paddr size (suc n) objc freelist =
    setup_loop paddr size n (objc + 1) (freelist ++ add32 paddr (u32 (size * objc)) ∷ [])

unfoldable pub bmem_cache_setup : Slub → ℕ → ℕ → Run Slub
bmem_cache_setup s c p = do
  page ← get_page s.pages p
  let cache = s.caches c
  set_slab s p
      (record page { freelist = setup_loop page.paddr cache.size cache.nums 0 page.freelist })

-- What `bmem_cache_grow` does with the page that it got.
unfoldable pub new_slab : Slub → ℕ → ℕ → Run Slub
new_slab s c p = do
  page ← get_page s.pages p
  s₁ ← set_slab s p (record page { freelist = []; slab_cache = c; inuse = 0 })
  s₂ ← bmem_cache_setup s₁ c p
  let cache = s₂.caches c
  ok (
      set_cache s₂ c (record cache {
        total_slabs = add32 cache.total_slabs 1;
        slabs_free = p ∷ cache.slabs_free;
        free_objs = add32 cache.free_objs cache.nums;
      }))

-- What `bmem_cache_grow` does with the result of `alloc_pages`.
unfoldable pub grow_with : Slub → ℕ → Option ℕ × Pages → Run (Option ℕ × Slub)
grow_with s c (none, pages) = ok (none, record s { pages = pages })
grow_with s c (some p, pages) = do s' ← new_slab (record s { pages = pages }) c p; ok (some p, s')

unfoldable pub bmem_cache_grow : Slub → ℕ → Run (Option ℕ × Slub)
bmem_cache_grow s c = do page ← alloc_pages s.pages (s.caches c).order; grow_with s c page

-- `compound_head` of the page of the object.
unfoldable pub bmem_obj_page : Slub → ℕ → Run ℕ
bmem_obj_page s objp = do page ← get_page s.pages (phys_to_pfn objp); ok page.compound_head

-- The last object of the slab is free, so its pages go back.
unfoldable pub free_slab : Slub → ℕ → ℕ → Run Slub
free_slab s c p = do
  page ← get_page s.pages p
  let s₁ = set_cache s c (slab_del p (s.caches c))
  pages ← free_page s₁.pages page.paddr
  let cache = s₁.caches c
  ok (
      set_cache (record s₁ { pages = pages }) c
        (record cache { free_objs = sub32 cache.free_objs cache.nums }))

-- `__bfree`
unfoldable pub bfree_object : Slub → ℕ → ℕ → ℕ → Run Slub
bfree_object s p c objp = do
  page ← get_page s.pages p
  s₁ ←
      set_slab s p
        (record page { freelist = page.freelist ++ objp ∷ []; inuse = sub32 page.inuse 1 })
  let cache = s₁.caches c
  let s₂ = set_cache s₁ c (record cache { free_objs = add32 cache.free_objs 1 })
  if sub32 page.inuse 1 == 0
      then free_slab s₂ c p
      else ok (set_cache s₂ c (add_partial p (slab_del p (s₂.caches c))))

unfoldable pub bfree : Slub → ℕ → Run Slub
bfree s objp = do
  p ← bmem_obj_page s objp
  page ← get_page s.pages p
  bfree_object s p page.slab_cache objp

-- What `bmem_cache_alloc_object` does with what it fetched.
unfoldable pub take_object : ℕ → ℕ → Option ℕ × Slub → Run (Option ℕ × Slub)
take_object c p (none, s) = ok (none, s)
take_object c p (some objp, s) =
    let s₁ = run_ctor (s.caches c).ctor objp s in
    let cache = s₁.caches c in
    do
      s₂ ←
          bmem_cache_fixup (set_cache s₁ c (record cache { free_objs = sub32 cache.free_objs 1 })) c
            p
      ok (some objp, s₂)

unfoldable pub bmem_cache_alloc_object : Slub → ℕ → ℕ → Run (Option ℕ × Slub)
bmem_cache_alloc_object s c p = do fetched ← bmem_cache_fetch s p; take_object c p fetched

unfoldable pub alloc_grown : ℕ → Option ℕ × Slub → Run (Option ℕ × Slub)
alloc_grown c (none, s) = ok (none, s)
alloc_grown c (some p, s) = bmem_cache_alloc_object s c p

-- `bmem_cache_alloc`, from what `bmem_cache_page` found.
unfoldable pub alloc_from : ℕ → Option ℕ × Slub → Run (Option ℕ × Slub)
alloc_from c (some p, s) = bmem_cache_alloc_object s c p
alloc_from c (none, s) = do grown ← bmem_cache_grow s c; alloc_grown c grown

unfoldable pub bmem_cache_alloc : Slub → ℕ → Run (Option ℕ × Slub)
bmem_cache_alloc s c = alloc_from c (bmem_cache_page s c)
