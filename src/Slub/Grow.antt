-- ===== src/Slub/Grow.antt =====
-- src/mm/slub.c: a new slab from the page allocator.
use mathlib.Core.Logic.Or
use mathlib.Core.HLevel.{⊥_prop}
use mathlib.Core.List.{Mem, Perm, not-mem-nil, append-nil, append_assoc, mem-append}
use mathlib.Core.List.Perm
use mathlib.Core.Path.{fun_ext}
use elfboot.Base.{
  ℕ, zero, suc, ◌+◌, ◌*◌, ◌^◌, ◌≤◌, ◌<◌, ◌≡◌, ◌≢◌, refl, sym, ap, ◌∙◌, subst, Option, some, List,
  [], ◌∷◌, ◌++◌, length, arith, inl, inr, Bool-cases, ◌==◌,
}
use elfboot.Base.Run.{Run, ok}
use elfboot.Core.{u32, add32}
use elfboot.PageAlloc.{Page, Pages, page_num, change, unlink, alloc_pages}
use elfboot.PageAlloc.Members.{alloc_pages-Keeps}
use elfboot.Slub.{
  BmemCache, Slub, set_cache, setup_loop, bmem_cache_setup, new_slab, grow_with, bmem_cache_grow,
  first_slab, bmem_cache_page, alloc_grown, alloc_from, bmem_cache_alloc_object, bmem_cache_alloc,
}
use elfboot.Slub.Lists.{change_self, change_ne, unlink_first, unlink-not_mem}
use elfboot.Slub.Slabs.{
  objects, length-objects, objects-Nodup, IsSlab, free_objects, IsCache, AreSlabs-Kept,
  AreSlabs-same, free_objects-Kept,
}
use elfboot.Slub.Object.{get_page_lem, set_page_lem, with_page}
use elfboot.Slub.Taken.{Ready}
use elfboot.Slub.Alloc.{Allocated, bmem_cache_alloc_object-Allocated}

setup_loop_lem :
    (paddr size n objc : ℕ) (freelist : List ℕ)
    → setup_loop paddr size n objc freelist ≡ freelist ++ objects paddr size n objc
unfolding setup_loop
setup_loop_lem paddr size zero objc freelist = sym (append-nil freelist)
setup_loop_lem paddr size (suc n) objc freelist =
    let objp = add32 paddr (u32 (size * objc)) in
    setup_loop_lem paddr size n (objc + 1) (freelist ++ objp ∷ [])
    ∙ append_assoc freelist (objp ∷ []) (objects paddr size n (objc + 1))

-- The page of a new slab, and its cache.
abbrev pub fresh : Page → BmemCache → ℕ → Page
fresh page cache c = record page {
  freelist = objects page.paddr cache.size cache.nums 0;
  slab_cache = c;
  inuse = 0;
}

abbrev grown : BmemCache → ℕ → BmemCache
grown cache p = record cache {
  total_slabs = add32 cache.total_slabs 1;
  slabs_free = p ∷ cache.slabs_free;
  free_objs = add32 cache.free_objs cache.nums;
}

-- The second of two changes at one place.
change_twice {ℓ} :
    {A : Type ℓ} (f : ℕ → A) (i : ℕ) (u v : A) → change (change f i u) i v ≡ change f i v
change_twice f i u v =
    fun_ext (λ q. elim (Bool-cases (q == i)) [ inl e ↦ rw e refl | inr e ↦ rw e refl ])

new_slab_lem :
    (s : Slub) (c p : ℕ)
    → p < page_num
    → (s' : Slub) × (new_slab s c p ≡ ok s')
      × (s'.pages.page_map p ≡ fresh (s.pages.page_map p) (s.caches c) c)
      × ((q : ℕ) → q ≢ p → s'.pages.page_map q ≡ s.pages.page_map q)
      × (s'.caches c ≡ grown (s.caches c) p)
      × (s'.pages ≡ with_page s.pages p (fresh (s.pages.page_map p) (s.caches c) c))
unfolding new_slab bmem_cache_setup
new_slab_lem s c p h =
    let cache = s.caches c in
    let page = s.pages.page_map p in
    let page₁ = record page { freelist = []; slab_cache = c; inuse = 0 } in
    let map₁ = change s.pages.page_map p page₁ in
    let page₂ = fresh page cache c in
    let pages₁ = record s.pages { page_map = map₁ } in
    let map₂ = change map₁ p page₂ in
    let pages₂ = record s.pages { page_map = map₂ } in
    (
      set_cache (record s { pages = pages₂ }) c (grown cache p),
      rw
          (
            get_page_lem s.pages p h,
            set_page_lem s.pages p page₁ h,
            get_page_lem pages₁ p h,
            change_self s.pages.page_map p page₁,
            setup_loop_lem page.paddr cache.size cache.nums 0 [],
            set_page_lem pages₁ p page₂ h,
          )
          refl,
      change_self map₁ p page₂,
      λ q other. change_ne map₁ page₂ other ∙ change_ne s.pages.page_map page₁ other,
      change_self s.caches c (grown cache p),
      ap (λ (m : ℕ → Page). record s.pages { page_map = m })
          (change_twice s.pages.page_map p page₁ page₂),
    )

-- What the new slab needs of the page `p`: room for the objects, none of which is the cache itself.
pub record Room (c p : ℕ) (page : Page) (cache : BmemCache) : Type 0 where
  pub inside : p < page_num
  pub some_size : 0 < cache.size
  pub some_nums : 0 < cache.nums
  pub fits : page.paddr + cache.size * cache.nums ≤ 2 ^ 32
  pub apart : ¬ Mem c (objects page.paddr cache.size cache.nums 0)

IsSlab-fresh :
    {c p : ℕ} {page : Page} {cache : BmemCache}
    → Room c p page cache
    → IsSlab cache.size cache.nums c p (fresh page cache c) []
IsSlab-fresh {page = page} {cache = cache} r = record {
  inside = r.inside;
  owner = refl;
  shared = rw (append-nil (objects page.paddr cache.size cache.nums 0)) Perm.rfl;
  distinct =
      let fits = r.fits in
      objects-Nodup page.paddr cache.size cache.nums 0 (omega arith) r.some_size;
  apart = r.apart;
  count = refl;
}

objects_first :
    (paddr size n : ℕ)
    → 0 < n
    → (objp : ℕ) × (rest : List ℕ) × (objects paddr size n 0 ≡ objp ∷ rest)
objects_first paddr size zero h = elim h [ ]
objects_first paddr size (suc n) h = (_, _, refl)

Ready-fresh :
    {c p : ℕ} {map map' : ℕ → Page} {cache : BmemCache} {live : ℕ → List ℕ}
    → IsCache c map cache live
    → cache.slabs_partial ≡ []
    → ¬ Mem p cache.slabs_full
    → live p ≡ []
    → Room c p (map p) cache
    → map' p ≡ fresh (map p) cache c
    → ((q : ℕ) → q ≢ p → map' q ≡ map q)
    → (objp : ℕ) × (freelist : List ℕ) × Ready c p objp map' live (grown cache p) freelist
Ready-fresh {c} {p} {map} {map'} {cache} {live} h none_partial out unused r here others =
    let (objp, freelist, first) = objects_first (map p).paddr cache.size cache.nums r.some_nums in
    let not_partial : ¬ Mem p cache.slabs_partial = λ m. not-mem-nil (rw none_partial at m) in
    let full = unlink-not_mem p cache.slabs_full out in
    let partial = unlink-not_mem p cache.slabs_partial not_partial in
    let nowhere : ¬ Mem p (cache.slabs_full ++ cache.slabs_partial) =
      λ m. Or.elim ⊥_prop (mem-append.0 m) out not_partial in
    let whole : length (map' p).freelist ≡ cache.nums =
      ap (λ (k : Page). length k.freelist) here
      ∙ length-objects (map p).paddr cache.size cache.nums 0 in
    (
      objp,
      freelist,
      record {
        slabs =
            rw (full, partial)
              (AreSlabs-same
                (λ q m. others q (λ e.
                  nowhere (subst (λ (k : ℕ). Mem k (cache.slabs_full ++ cache.slabs_partial)) e m)))
                h.slabs);
        out = rw (full, partial) nowhere;
        no_empty = rw (h.no_empty) (unlink_first p []);
        slab = rw (here, unused) (IsSlab-fresh r);
        first = ap (λ (k : Page). k.freelist) here ∙ first;
        counted =
            let none_free : free_objects map cache.slabs_partial ≡ 0 =
              ap (free_objects map) none_partial in
            let none_free' : free_objects map' (unlink p cache.slabs_partial) ≡ 0 =
              ap (free_objects map') (partial ∙ none_partial) in
            let before = h.counted in omega arith;
        small = h.small;
      },
    )

-- The run, from what its parts give.
alloc_run :
    (s s₂ : Slub) (c p : ℕ) (pages : Pages) (result : Run (Option ℕ × Slub))
    → (s.caches c).slabs_partial ≡ []
    → (s.caches c).slabs_free ≡ []
    → alloc_pages s.pages (s.caches c).order ≡ ok (some p, pages)
    → new_slab (record s { pages = pages }) c p ≡ ok s₂
    → bmem_cache_alloc_object s₂ c p ≡ result
    → bmem_cache_alloc s c ≡ result
unfolding bmem_cache_alloc bmem_cache_page first_slab alloc_from bmem_cache_grow grow_with
    alloc_grown
alloc_run s s₂ c p pages result none_partial none_free granted grew run =
    rw (none_partial, none_free, granted, grew) run

-- A cache without a partial slab gives the first object of a new slab `p`, if the page allocator
-- grants pages with room for the objects, at a page that is no slab of the cache. The object lies in
-- this slab and is in use then. The pages are those that the page allocator leaves, but for the slab.
-- The cache is well-formed and has the new slab besides those that it had.
pub bmem_cache_alloc-grown :
    (s : Slub) (c p : ℕ) (live : ℕ → List ℕ) (pages : Pages)
    → IsCache c s.pages.page_map (s.caches c) live
    → (s.caches c).slabs_partial ≡ []
    → alloc_pages s.pages (s.caches c).order ≡ ok (some p, pages)
    → ¬ Mem p (s.caches c).slabs_full
    → live p ≡ []
    → Room c p (pages.page_map p) (s.caches c)
    → (objp : ℕ) × (s' : Slub) × (bmem_cache_alloc s c ≡ ok (some objp, s'))
      × Allocated
          (with_page pages p (fresh (pages.page_map p) (s.caches c) c))
          s'
          c
          p
          objp
          (p ∷ ((s.caches c).slabs_full ++ (s.caches c).slabs_partial))
          live
bmem_cache_alloc-grown s c p live pages h none_partial granted out unused room =
    let old = s.caches c in
    let kept = rw granted at (alloc_pages-Keeps s.pages old.order) in
    let h' : IsCache c pages.page_map old live = record {
      slabs = AreSlabs-Kept kept h.slabs;
      no_empty = h.no_empty;
      counted = h.counted ∙ ap u32 (sym (free_objects-Kept old.slabs_partial kept));
      small = h.small;
    } in
    let (s₂, grew, here, others, cache, pages₂) =
      new_slab_lem (record s { pages = pages }) c p room.inside in
    let (objp, freelist, ready) = Ready-fresh h' none_partial out unused room here others in
    let not_partial : ¬ Mem p old.slabs_partial = λ m. not-mem-nil (rw none_partial at m) in
    let full = unlink-not_mem p old.slabs_full out in
    let partial = unlink-not_mem p old.slabs_partial not_partial in
    let slabs = p ∷ (old.slabs_full ++ old.slabs_partial) in
    let listed : Perm
        (p ∷ (unlink p (s₂.caches c).slabs_full ++ unlink p (s₂.caches c).slabs_partial)) slabs =
      rw cache (rw (full, partial) Perm.rfl) in
    let (s', run, result) =
      bmem_cache_alloc_object-Allocated s₂ c p objp slabs live freelist (rw cache ready) listed in
    (
      objp,
      s',
      alloc_run s s₂ c p pages _ none_partial h.no_empty granted grew run,
      subst (λ (q : Pages). Allocated q s' c p objp slabs live) pages₂ result,
    )
