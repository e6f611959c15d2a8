-- ===== src/Slub/Tests.antt =====
-- A cache of objects of half a page: the theorems at slabs with none, one and both objects in use.
use mathlib.Core.List.{
  Nodup-nil, Nodup-cons, not-mem-nil, mem-singleton, mem-cons_self, mem-cons_of_mem,
}
use mathlib.Core.List.Perm
use native.Mathlib.Nat.{ℕ_set}
use elfboot.Base.{
  ℕ, ◌*◌, ◌≡◌, ◌≢◌, refl, ap, ◌==◌, if◌then◌else◌, Option, some, suc, List, [], ◌∷◌, length, arith,
}
use elfboot.Base.Run.{Run, ok, fault, out_of_fuel}
use elfboot.PageAlloc.{
  Page, Pages, get_page, set_page, page_buddy, free_page_add, is_linked, free_page_del,
  free_area_get_first, set_heads, page_set_compound_head, fix_loop, free_page_fix, find_area,
  take_pages, get_free_pages, alloc_pages, merge_loop, merge_free_page, free_pages, free_page,
}
use elfboot.Slub.{no_ctor, Slub, bmem_cache_alloc, bmem_obj_page, bfree}
use elfboot.Slub.Slabs.{objects_above, objects-Nodup, IsSlab, IsCache}
use elfboot.Slub.Object.{with_page}
use elfboot.Slub.Alloc.{Allocated, bmem_cache_alloc-partial}
use elfboot.Slub.Grow.{fresh, Room, bmem_cache_alloc-grown}
use elfboot.Slub.Free.{pages_with, Freed, Released, bfree-IsCache, bfree-Released}

-- The page `p`, with a free object where `freelist` says so.
abbrev slab_page : List ℕ → ℕ → ℕ → Page
slab_page freelist inuse p = record {
  is_free = p == 5;
  paddr = p * 4096;
  order = 0;
  compound_head = p;
  slab_cache = 77;
  inuse = inuse;
  freelist = freelist;
}

-- A cache at the address 77, with the given slabs; the page 5 is free.
abbrev with_slabs : List ℕ → List ℕ → List ℕ → ℕ → ℕ → Slub
with_slabs full partial freelist inuse free_objs = record {
  pages = record {
    page_map = slab_page freelist inuse;
    nr_free = λ order. if order == 0 then 1 else 0;
    areas = λ order. if order == 0 then 5 ∷ [] else [];
  };
  caches = λ c. record {
    name = [];
    size = 2048;
    nums = 2;
    order = 0;
    free_objs = free_objs;
    free_slabs = 0;
    total_slabs = 1;
    slabs_full = full;
    slabs_partial = partial;
    slabs_free = [];
    ctor = no_ctor;
  };
  bmem_caches = 77 ∷ [];
  bmalloc_caches = λ i. 0;
  memory = λ a. 0;
}

not_empty : (x : ℕ) (rest : List ℕ) → x ∷ rest ≢ []
not_empty x rest e = let bad : suc (length rest) ≡ 0 = ap length e in absurd (omega arith)

-- The slab at the page 3 with the first object free.
abbrev half : Slub
half = with_slabs [] (3 ∷ []) (12288 ∷ []) 1 1

abbrev half_live : ℕ → List ℕ
half_live p = if p == 3 then 14336 ∷ [] else []

half-IsSlab : IsSlab 2048 2 77 3 (half.pages.page_map 3) (half_live 3)
half-IsSlab = record {
  inside = omega arith;
  owner = refl;
  shared = Perm.rfl;
  distinct = objects-Nodup 12288 2048 2 0 (omega arith) (omega arith);
  apart = λ m.
      let above = objects_above 12288 2048 2 0 77 (omega arith) (omega arith) m in
      absurd (omega arith);
  count = refl;
}

half-IsCache : IsCache 77 half.pages.page_map (half.caches 77) half_live
half-IsCache = record {
  slabs = record {
    used_up = λ p m. absurd (not-mem-nil m);
    mixed =
        λ p m. rw ((mem-singleton ℕ_set).0 m) (half-IsSlab, not_empty 12288 [], not_empty 14336 []);
    once = Nodup-cons.1 (not-mem-nil, Nodup-nil);
  };
  no_empty = refl;
  counted = refl;
  small = omega arith;
}

bmem_cache_alloc-partial_example :
    (objp : ℕ) × (s' : Slub) × (bmem_cache_alloc half 77 ≡ ok (some objp, s'))
    × Allocated half.pages s' 77 3 objp (3 ∷ []) half_live
bmem_cache_alloc-partial_example = bmem_cache_alloc-partial half 77 3 [] half_live half-IsCache refl

abbrev state_of : Run Pages → Pages
state_of (ok s) = s
state_of fault = half.pages
state_of out_of_fuel = half.pages

-- The pages after the last object in use is free.
abbrev freed : Pages
freed = state_of (free_page (pages_with half 3 14336) 12288)

freed_lem : free_page (pages_with half 3 14336) 12288 ≡ ok freed
unfolding free_page free_pages free_page_add merge_free_page merge_loop get_page set_page page_buddy
freed_lem = refl

half_page : bmem_obj_page half 14336 ≡ ok 3
unfolding bmem_obj_page get_page
half_page = refl

bfree-Released_example :
    (s' : Slub) × (bfree half 14336 ≡ ok s') × (s'.pages ≡ freed) × Released s' 77 3 half_live
bfree-Released_example =
    bfree-Released half 77 3 14336 half_live freed half-IsCache mem-cons_self half_page refl
      freed_lem

-- Both objects are in use.
abbrev both : Slub
both = with_slabs (3 ∷ []) [] [] 2 0

abbrev both_live : ℕ → List ℕ
both_live p = if p == 3 then 12288 ∷ 14336 ∷ [] else []

both-IsSlab : IsSlab 2048 2 77 3 (both.pages.page_map 3) (both_live 3)
both-IsSlab = record {
  inside = omega arith;
  owner = refl;
  shared = Perm.rfl;
  distinct = half-IsSlab.distinct;
  apart = half-IsSlab.apart;
  count = refl;
}

both-IsCache : IsCache 77 both.pages.page_map (both.caches 77) both_live
both-IsCache = record {
  slabs = record {
    used_up = λ p m. rw ((mem-singleton ℕ_set).0 m) (both-IsSlab, refl);
    mixed = λ p m. absurd (not-mem-nil m);
    once = Nodup-cons.1 (not-mem-nil, Nodup-nil);
  };
  no_empty = refl;
  counted = refl;
  small = omega arith;
}

both_page : bmem_obj_page both 14336 ≡ ok 3
unfolding bmem_obj_page get_page
both_page = refl

bfree-IsCache_example :
    (s' : Slub) × (bfree both 14336 ≡ ok s') × Freed both s' 77 3 14336 both_live
bfree-IsCache_example =
    bfree-IsCache both 77 3 14336 both_live both-IsCache mem-cons_self both_page
      (mem-cons_of_mem 12288 mem-cons_self) (not_empty 12288 [])

abbrev state_after : Run (Option ℕ × Pages) → Pages
state_after (ok r) = r.1
state_after fault = both.pages
state_after out_of_fuel = both.pages

-- The pages when the page 5 is taken.
abbrev granted : Pages
granted = state_after (alloc_pages both.pages 0)

granted_lem : alloc_pages both.pages 0 ≡ ok (some 5, granted)
unfolding alloc_pages get_free_pages find_area free_area_get_first take_pages is_linked
    free_page_del free_page_fix fix_loop get_page set_page page_buddy free_page_add
    page_set_compound_head set_heads
granted_lem = refl

granted-Room : Room 77 5 (granted.page_map 5) (both.caches 77)
unfolding alloc_pages get_free_pages find_area free_area_get_first take_pages is_linked
    free_page_del free_page_fix fix_loop get_page set_page page_buddy free_page_add
    page_set_compound_head set_heads
granted-Room = record {
  inside = omega arith;
  some_size = omega arith;
  some_nums = omega arith;
  fits = omega arith;
  apart = λ m.
      let above = objects_above 20480 2048 2 0 77 (omega arith) (omega arith) m in
      absurd (omega arith);
}

bmem_cache_alloc-grown_example :
    (objp : ℕ) × (s' : Slub) × (bmem_cache_alloc both 77 ≡ ok (some objp, s'))
    × Allocated
        (with_page granted 5 (fresh (granted.page_map 5) (both.caches 77) 77))
        s'
        77
        5
        objp
        (5 ∷ 3 ∷ [])
        both_live
bmem_cache_alloc-grown_example =
    bmem_cache_alloc-grown both 77 5 both_live granted both-IsCache refl granted_lem
      (λ m. let bad : 5 ≡ 3 = (mem-singleton ℕ_set).0 m in absurd (omega arith)) refl granted-Room
