-- ===== src/Slub/Free.antt =====
-- src/mm/slub.c: `bfree`.
use mathlib.Core.List.{Mem, Perm, perm_middle, mem-cons_self, mem-append_right}
use mathlib.Core.List.Perm
use elfboot.Base.{
  ℕ, suc, ◌<◌, ◌≡◌, ◌≢◌, refl, ap, ◌∙◌, true, false, List, [], ◌∷◌, ◌++◌, length, arith, ◌==◌,
}
use elfboot.Base.Run.{ok}
use elfboot.Core.{add32, sub32}
use elfboot.PageAlloc.{Page, Pages, page_num, change, unlink, free_page}
use elfboot.PageAlloc.Members.{Kept, free_page-Keeps}
use elfboot.Slub.{
  BmemCache, Slub, set_cache, slab_del, add_partial, free_slab, bfree_object, bmem_obj_page, bfree,
}
use elfboot.Slub.Lists.{perm-unlink_both, change_self, perm-unlink, length-perm, first_of}
use elfboot.Slub.Slabs.{
  IsCache, IsSlab-size, free_objects-change, AreSlabs-change, AreSlabs-Kept, free_objects-Kept,
}
use elfboot.Slub.Object.{get_page_lem, set_page_lem}
use elfboot.Slub.Returned.{returned, apart, returned-IsCache}

-- The pages when the object `objp` of the slab `p` is free, and before a slab goes back.
abbrev pub pages_with : Slub → ℕ → ℕ → Pages
pages_with s p objp = record s.pages {
  page_map = change s.pages.page_map p (returned (s.pages.page_map p) objp);
}

-- The slab `p` is a partial slab of the cache with `objp` last on its freelist. The cache has the
-- slabs that it had, and only the slab changes in the pages.
pub record Freed (s s' : Slub) (c p objp : ℕ) (live : ℕ → List ℕ) : Type 0 where
  pub cache : IsCache c s'.pages.page_map (s'.caches c) (change live p (unlink objp (live p)))
  pub partial : Mem p (s'.caches c).slabs_partial
  pub listed :
      Perm
        ((s'.caches c).slabs_full ++ (s'.caches c).slabs_partial)
        ((s.caches c).slabs_full ++ (s.caches c).slabs_partial)
  pub free : (s'.pages.page_map p).freelist ≡ (s.pages.page_map p).freelist ++ objp ∷ []
  pub pages : s'.pages ≡ pages_with s p objp

-- A slab that keeps an object in use stays with its cache, and the object is free.
pub bfree_object-IsCache :
    (s : Slub) (p c objp : ℕ) (live : ℕ → List ℕ)
    → IsCache c s.pages.page_map (s.caches c) live
    → Mem p ((s.caches c).slabs_full ++ (s.caches c).slabs_partial)
    → Mem objp (live p)
    → unlink objp (live p) ≢ []
    → (s' : Slub) × (bfree_object s p c objp ≡ ok s') × Freed s s' c p objp live
unfolding bfree_object
bfree_object-IsCache s p c objp live h m used more =
    let a = apart c p s.pages.page_map live (s.caches c) h m in
    let page = s.pages.page_map p in
    let map = change s.pages.page_map p (returned page objp) in
    let s₁ = record s { pages = record s.pages { page_map = map } } in
    let cache = record (s.caches c) { free_objs = add32 (s.caches c).free_objs 1 } in
    let s₂ = set_cache s₁ c cache in
    let last = add_partial p (slab_del p cache) in
    let count = a.slab.count in
    let size = IsSlab-size a.slab in
    let small = h.small in
    let one = length-perm (perm-unlink objp (live p) used) in
    let (_, rest, next) = first_of (unlink objp (live p)) more in
    let left : length (unlink objp (live p)) ≡ suc (length rest) = ap length next in
    let test : (sub32 page.inuse 1 == 0) ≡ false = ground arith in
    (
      set_cache s₂ c last,
      rw
          (
            get_page_lem s.pages p a.slab.inside,
            set_page_lem s.pages p (returned page objp) a.slab.inside,
            test,
            change_self s.caches c cache,
          )
          refl,
      record {
        cache =
            rw (change_self s₂.caches c last)
              (returned-IsCache c p s.pages.page_map live (s.caches c) objp h m used more);
        partial = rw (change_self s₂.caches c last) mem-cons_self;
        listed = rw (change_self s₂.caches c last) (
            Perm.trans
              (perm_middle (unlink p (s.caches c).slabs_full) (unlink p (s.caches c).slabs_partial))
              (perm-unlink_both p (s.caches c).slabs_full (s.caches c).slabs_partial h.slabs.once
                m));
        free = ap (λ (k : Page). k.freelist) (change_self s.pages.page_map p (returned page objp));
        pages = refl;
      },
    )

-- The cache without the slab `p`, all of whose objects are free.
abbrev without : ℕ → BmemCache → BmemCache
without p cache = record (slab_del p cache) { free_objs = sub32 cache.free_objs cache.nums }

free_slab_lem :
    (s : Slub) (c p : ℕ) (pages : Pages)
    → p < page_num
    → free_page s.pages (s.pages.page_map p).paddr ≡ ok pages
    → (s' : Slub) × (free_slab s c p ≡ ok s')
      × (s'.pages ≡ pages)
      × (s'.caches c ≡ without p (s.caches c))
unfolding free_slab
free_slab_lem s c p pages h run =
    let s₁ = set_cache s c (slab_del p (s.caches c)) in
    let cache = without p (s.caches c) in
    (
      set_cache (record s₁ { pages = pages }) c cache,
      rw (get_page_lem s.pages p h, run, change_self s.caches c (slab_del p (s.caches c))) refl,
      refl,
      change_self s₁.caches c cache,
    )

bfree_object-last :
    (s : Slub) (p c objp : ℕ) (live : ℕ → List ℕ) (pages : Pages)
    → IsCache c s.pages.page_map (s.caches c) live
    → Mem p ((s.caches c).slabs_full ++ (s.caches c).slabs_partial)
    → live p ≡ objp ∷ []
    → free_page (pages_with s p objp) (s.pages.page_map p).paddr ≡ ok pages
    → (s' : Slub) × (bfree_object s p c objp ≡ ok s')
      × (s'.pages ≡ pages)
      × (s'.caches c
          ≡ without p (record (s.caches c) { free_objs = add32 (s.caches c).free_objs 1 }))
unfolding bfree_object
bfree_object-last s p c objp live pages h m last freed =
    let a = apart c p s.pages.page_map live (s.caches c) h m in
    let page = s.pages.page_map p in
    let cache = record (s.caches c) { free_objs = add32 (s.caches c).free_objs 1 } in
    let s₁ = record s { pages = pages_with s p objp } in
    let here = change_self s.pages.page_map p (returned page objp) in
    let count = a.slab.count in
    let one : length (live p) ≡ 1 = ap length last in
    let test : (sub32 page.inuse 1 == 0) ≡ true = ground arith in
    let (s', run, pages', cache') =
      free_slab_lem (set_cache s₁ c cache) c p pages a.slab.inside (rw here freed) in
    (
      s',
      rw
          (
            get_page_lem s.pages p a.slab.inside,
            set_page_lem s.pages p (returned page objp) a.slab.inside,
            test,
          )
          run,
      pages',
      cache' ∙ ap (without p) (change_self s.caches c cache),
    )

-- The slab `p` is not the cache's any more, and the others are as they were.
pub record Released (s' : Slub) (c p : ℕ) (live : ℕ → List ℕ) : Type 0 where
  pub cache : IsCache c s'.pages.page_map (s'.caches c) (change live p [])
  pub gone : ¬ Mem p ((s'.caches c).slabs_full ++ (s'.caches c).slabs_partial)

released-IsCache :
    (c p objp : ℕ) (s : Slub) (live : ℕ → List ℕ) (pages : Pages)
    → IsCache c s.pages.page_map (s.caches c) live
    → Mem p ((s.caches c).slabs_full ++ (s.caches c).slabs_partial)
    → live p ≡ objp ∷ []
    → Kept (pages_with s p objp).page_map pages.page_map
    → IsCache c pages.page_map
        (without p (record (s.caches c) { free_objs = add32 (s.caches c).free_objs 1 }))
        (change live p [])
released-IsCache c p objp s live pages h m last kept =
    let cache = s.caches c in
    let map = s.pages.page_map in
    let a = apart c p map live cache h m in
    let page = returned (map p) objp in
    let out : ¬ Mem p (unlink p cache.slabs_partial) =
      λ i. a.out (mem-append_right (unlink p cache.slabs_full) i) in
    record {
      slabs = AreSlabs-Kept kept (AreSlabs-change map live p page [] a.out a.slabs);
      no_empty = ap (unlink p) h.no_empty;
      counted =
          let same = free_objects-Kept (unlink p cache.slabs_partial) kept in
          let rest = free_objects-change map p page (unlink p cache.slabs_partial) out in
          let one : length (live p) ≡ 1 = ap length last in
          let before = h.counted in
          let sum = a.counted in
          let size = IsSlab-size a.slab in let small = h.small in omega arith;
      small = h.small;
    }

-- From the page of the object to its slab and its cache.
bfree_lem :
    (s : Slub) (c p objp : ℕ)
    → bmem_obj_page s objp ≡ ok p
    → p < page_num
    → (s.pages.page_map p).slab_cache ≡ c
    → bfree s objp ≡ bfree_object s p c objp
unfolding bfree
bfree_lem s c p objp head inside owner = rw (head, get_page_lem s.pages p inside, owner) refl

-- If the head of the pages of `objp` is the slab `p` of a well-formed cache, and `objp` is in use and
-- another object of the slab too, then `bfree` puts `objp` behind the freelist of the slab, and it is
-- not in use any more. The slab is a partial one, the cache is well-formed and has the slabs that it
-- had, and the pages are as they were but for the freelist and the counter of the slab.
pub bfree-IsCache :
    (s : Slub) (c p objp : ℕ) (live : ℕ → List ℕ)
    → IsCache c s.pages.page_map (s.caches c) live
    → Mem p ((s.caches c).slabs_full ++ (s.caches c).slabs_partial)
    → bmem_obj_page s objp ≡ ok p
    → Mem objp (live p)
    → unlink objp (live p) ≢ []
    → (s' : Slub) × (bfree s objp ≡ ok s') × Freed s s' c p objp live
bfree-IsCache s c p objp live h m head used more =
    let slab = (apart c p s.pages.page_map live (s.caches c) h m).slab in
    let (s', run, valid) = bfree_object-IsCache s p c objp live h m used more in
    (s', bfree_lem s c p objp head slab.inside slab.owner ∙ run, valid)

-- If the head of the pages of `objp` is the slab `p` of the cache, `objp` is the only object of the
-- slab in use, and the page allocator takes the pages of the slab back, then `bfree` takes the slab
-- from the cache.
pub bfree-Released :
    (s : Slub) (c p objp : ℕ) (live : ℕ → List ℕ) (pages : Pages)
    → IsCache c s.pages.page_map (s.caches c) live
    → Mem p ((s.caches c).slabs_full ++ (s.caches c).slabs_partial)
    → bmem_obj_page s objp ≡ ok p
    → live p ≡ objp ∷ []
    → free_page (pages_with s p objp) (s.pages.page_map p).paddr ≡ ok pages
    → (s' : Slub) × (bfree s objp ≡ ok s') × (s'.pages ≡ pages) × Released s' c p live
bfree-Released s c p objp live pages h m head last freed =
    let a = apart c p s.pages.page_map live (s.caches c) h m in
    let (s', run, pages', cache') = bfree_object-last s p c objp live pages h m last freed in
    let kept = rw freed at (free_page-Keeps (pages_with s p objp) (s.pages.page_map p).paddr) in
    (
      s',
      bfree_lem s c p objp head a.slab.inside a.slab.owner ∙ run,
      pages',
      record {
        cache = rw (pages', cache') (released-IsCache c p objp s live pages h m last kept);
        gone = rw cache' a.out;
      },
    )
