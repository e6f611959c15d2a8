-- ===== src/Slub/Alloc.antt =====
-- src/mm/slub.c: `bmem_cache_alloc`.
use mathlib.Core.List.{Mem, Perm, Nodup-cons, mem-cons_self, mem-append_right, perm_middle}
use mathlib.Core.List.Perm
use elfboot.Base.{
  ℕ, ◌+◌, ◌≡◌, ◌≢◌, refl, sym, ap, ◌∙◌, subst, inl, inr, Bool-cases, some, List, ◌∷◌, ◌++◌, length,
  ◌==◌,
}
use elfboot.Base.Run.{ok}
use elfboot.Core.{u32, add32, sub32}
use elfboot.PageAlloc.{Page, Pages, change, unlink}
use elfboot.Slub.{
  BmemCache, Slub, first_slab, bmem_cache_page, bmem_cache_alloc_object, alloc_from,
  bmem_cache_alloc,
}
use elfboot.Slub.Lists.{perm-unlink_both, change_self, unlink_first, first_of}
use elfboot.Slub.Slabs.{objects, free_objects, IsCache, IsCache-IsSlab, AreSlabs-unlink}
use elfboot.Slub.Object.{taken, with_page, refixed, bmem_cache_alloc_object_lem}
use elfboot.Slub.Taken.{Ready, fixed-IsCache}

-- The slab `p` is on one list and off all others.
refixed-slabs :
    (p inuse : ℕ) (cache : BmemCache)
    → Perm
        ((refixed p inuse cache).slabs_full ++ (refixed p inuse cache).slabs_partial)
        (p ∷ (unlink p cache.slabs_full ++ unlink p cache.slabs_partial))
refixed-slabs p inuse cache = elim (Bool-cases (inuse == cache.nums)) [
  | inl e ↦ rw e Perm.rfl
  | inr e ↦ rw e (perm_middle (unlink p cache.slabs_full) (unlink p cache.slabs_partial))
]

-- What `bmem_cache_alloc` gives from the slab `p`, where `pages` are those before: an object `objp`
-- of this slab that was not in use, and is now. Only the freelist and the counter of the slab
-- change in the pages. The cache has the slabs `slabs`.
pub record Allocated (pages : Pages) (s' : Slub) (c p objp : ℕ) (slabs : List ℕ) (live : ℕ → List ℕ)
    : Type 0 where
  pub was_free : ¬ Mem objp (live p)
  pub object :
      Mem objp (objects (s'.pages.page_map p).paddr (s'.caches c).size (s'.caches c).nums 0)
  pub freelist : List ℕ
  pub first : (pages.page_map p).freelist ≡ objp ∷ freelist
  pub pages' : s'.pages ≡ with_page pages p (taken (pages.page_map p) freelist)
  pub listed : Perm ((s'.caches c).slabs_full ++ (s'.caches c).slabs_partial) slabs
  pub cache : IsCache c s'.pages.page_map (s'.caches c) (change live p (objp ∷ live p))

-- An object that is in use lies in its slab.
object_inside :
    {c p objp : ℕ} {map : ℕ → Page} {cache : BmemCache} (live : ℕ → List ℕ)
    → IsCache c map cache (change live p (objp ∷ live p))
    → Mem p (cache.slabs_full ++ cache.slabs_partial)
    → Mem objp (objects (map p).paddr cache.size cache.nums 0)
object_inside {p = p} {objp} {map} live h m =
    let slab = IsCache-IsSlab h m in
    let used : Mem objp (change live p (objp ∷ live p) p) =
      rw (change_self live p (objp ∷ live p)) mem-cons_self in
    (Perm.mem_iff slab.shared).0 (mem-append_right (map p).freelist used)

pub bmem_cache_alloc_object-Allocated :
    (s : Slub) (c p objp : ℕ) (slabs : List ℕ) (live : ℕ → List ℕ) (freelist : List ℕ)
    → Ready c p objp s.pages.page_map live (s.caches c) freelist
    → Perm (p ∷ (unlink p (s.caches c).slabs_full ++ unlink p (s.caches c).slabs_partial)) slabs
    → (s' : Slub) × (bmem_cache_alloc_object s c p ≡ ok (some objp, s'))
      × Allocated s.pages s' c p objp slabs live
bmem_cache_alloc_object-Allocated s c p objp slabs live freelist h listed =
    let slab = h.slab in
    let all = objects (s.pages.page_map p).paddr (s.caches c).size (s.caches c).nums 0 in
    let shared : Perm (objp ∷ (freelist ++ live p)) all = rw h.first at slab.shared in
    let inside : Mem objp all = (Perm.mem_iff shared).0 mem-cons_self in
    let apart : c ≢ objp = λ e. slab.apart (subst (λ (k : ℕ). Mem k all) (sym e) inside) in
    let (unused, _) = Nodup-cons.0 (Perm.nodup (Perm.symm shared) slab.distinct) in
    let (s', run, pages, cache) =
      bmem_cache_alloc_object_lem s c p objp freelist slab.inside apart h.first in
    let inuse = add32 (s.pages.page_map p).inuse 1 in
    let valid : IsCache c s'.pages.page_map (s'.caches c) (change live p (objp ∷ live p)) =
      rw (pages, cache) (fixed-IsCache c p objp s.pages.page_map live (s.caches c) freelist h) in
    let less = record (s.caches c) { free_objs = sub32 (s.caches c).free_objs 1 } in
    let on_lists : Perm ((s'.caches c).slabs_full ++ (s'.caches c).slabs_partial) slabs =
      rw cache (Perm.trans (refixed-slabs p inuse less) listed) in
    let on_list : Mem p ((s'.caches c).slabs_full ++ (s'.caches c).slabs_partial) =
      (Perm.mem_iff (Perm.symm on_lists)).0 ((Perm.mem_iff listed).0 mem-cons_self) in
    (
      s',
      run,
      record {
        was_free = λ m. unused (mem-append_right freelist m);
        object = object_inside live valid on_list;
        freelist = freelist;
        first = h.first;
        pages' = pages;
        listed = on_lists;
        cache = valid;
      },
    )

Ready-partial :
    {c p : ℕ} {map : ℕ → Page} {live : ℕ → List ℕ} {cache : BmemCache} (partial : List ℕ)
    → IsCache c map cache live
    → cache.slabs_partial ≡ p ∷ partial
    → (objp : ℕ) × (freelist : List ℕ) × Ready c p objp map live cache freelist
Ready-partial {c} {p} {map} {live} {cache} partial h first =
    let m : Mem p cache.slabs_partial = rw first mem-cons_self in
    let (slab, left, _) = h.slabs.mixed p m in
    let (objp, freelist, next) = first_of (map p).freelist left in
    let (slabs, out) = AreSlabs-unlink map live p (mem-append_right cache.slabs_full m) h.slabs in
    (
      objp,
      freelist,
      record {
        slabs = slabs;
        out = out;
        no_empty = ap (unlink p) h.no_empty;
        slab = slab;
        first = next;
        counted =
            h.counted
            ∙ ap (λ (k : List ℕ). u32 (free_objects map k)) first
            ∙ ap (λ (k : List ℕ). u32 (length (map p).freelist + free_objects map k))
                (sym (ap (unlink p) first ∙ unlink_first p partial));
        small = h.small;
      },
    )

-- A cache with a partial slab gives the first object of the freelist of the first such slab, which
-- is an object of this slab that is not in use, and is in use then. No pages are asked for, since
-- only the freelist and the counter of the slab change in the pages. The cache is well-formed and
-- keeps its slabs.
pub bmem_cache_alloc-partial :
    (s : Slub) (c p : ℕ) (partial : List ℕ) (live : ℕ → List ℕ)
    → IsCache c s.pages.page_map (s.caches c) live
    → (s.caches c).slabs_partial ≡ p ∷ partial
    → (objp : ℕ) × (s' : Slub) × (bmem_cache_alloc s c ≡ ok (some objp, s'))
      × Allocated s.pages s' c p objp ((s.caches c).slabs_full ++ (s.caches c).slabs_partial) live
unfolding bmem_cache_alloc bmem_cache_page first_slab alloc_from
bmem_cache_alloc-partial s c p partial live h first =
    let cache = s.caches c in
    let (objp, freelist, ready) = Ready-partial partial h first in
    let m : Mem p (cache.slabs_full ++ cache.slabs_partial) =
      mem-append_right cache.slabs_full (rw first mem-cons_self) in
    let listed = perm-unlink_both p cache.slabs_full cache.slabs_partial h.slabs.once m in
    let (s', run, result) =
      bmem_cache_alloc_object-Allocated s c p objp (cache.slabs_full ++ cache.slabs_partial) live
        freelist ready listed in
    let found : bmem_cache_alloc s c ≡ bmem_cache_alloc_object s c p = rw first refl in
    (objp, s', found ∙ run, result)
