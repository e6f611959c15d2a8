-- ===== src/Slub/Object.antt =====
-- src/mm/slub.c: what the steps of `bmem_cache_alloc_object` do.
use elfboot.Base.{
  ℕ, ◌<◌, ◌≡◌, ◌≢◌, refl, ap, ap₂, ◌∙◌, true, some, List, ◌∷◌, arith, ltb, ◌==◌, if◌then◌else◌,
}
use elfboot.Base.Run.{ok}
use elfboot.Core.{add32, sub32}
use elfboot.PageAlloc.{Page, Pages, page_num, change, get_page, set_page}
use elfboot.Slub.{
  Ctor, no_ctor, cache_ctor, object_ctor, BmemCache, Slub, set_cache, bmem_cache_init, run_ctor,
  slab_del, fetch_first, bmem_cache_fetch, add_full, add_partial, bmem_cache_fixup, take_object,
  bmem_cache_alloc_object,
}
use elfboot.Slub.Lists.{change_self, change_ne}

-- The page of the slab without its first object.
abbrev pub taken : Page → List ℕ → Page
taken page freelist = record page { freelist = freelist; inuse = add32 page.inuse 1 }

-- The pages with another page at `p`; the areas of the free pages are the same.
abbrev pub with_page : Pages → ℕ → Page → Pages
with_page pages p page = record pages { page_map = change pages.page_map p page }

-- A constructor changes neither the pages nor another cache.
run_ctor_lem :
    (ctor : Ctor) (objp c : ℕ) (s : Slub)
    → c ≢ objp
    → ((run_ctor ctor objp s).pages ≡ s.pages) × ((run_ctor ctor objp s).caches c ≡ s.caches c)
unfolding run_ctor bmem_cache_init
run_ctor_lem no_ctor objp c s h = (refl, refl)
run_ctor_lem cache_ctor objp c s h = (refl, change_ne s.caches _ h)
run_ctor_lem object_ctor objp c s h = (refl, refl)

pub get_page_lem : (s : Pages) (p : ℕ) → p < page_num → get_page s p ≡ ok (s.page_map p)
unfolding get_page
get_page_lem s p h = let test : ltb p page_num ≡ true = ground arith in rw test refl

pub set_page_lem :
    (s : Pages) (p : ℕ) (page : Page)
    → p < page_num
    → set_page s p page ≡ ok (record s { page_map = change s.page_map p page })
unfolding set_page
set_page_lem s p page h = let test : ltb p page_num ≡ true = ground arith in rw test refl

-- The cache after `bmem_cache_fixup` of a slab with `inuse` objects in use.
abbrev pub refixed : ℕ → ℕ → BmemCache → BmemCache
refixed p inuse cache₀ =
    let cache = slab_del p cache₀ in
    if inuse == cache.nums then add_full p cache else add_partial p cache

-- The cache after an object was taken from the slab `p`, which has `inuse` objects in use now.
abbrev pub fixed : ℕ → ℕ → BmemCache → BmemCache
fixed p inuse cache = refixed p inuse (record cache { free_objs = sub32 cache.free_objs 1 })

bmem_cache_fixup_lem :
    (s : Slub) (c p : ℕ)
    → p < page_num
    → (s' : Slub) × (bmem_cache_fixup s c p ≡ ok s')
      × (s'.pages ≡ s.pages)
      × (s'.caches c ≡ refixed p (s.pages.page_map p).inuse (s.caches c))
unfolding bmem_cache_fixup
bmem_cache_fixup_lem s c p h =
    let cache = refixed p (s.pages.page_map p).inuse (s.caches c) in
    (set_cache s c cache, rw (get_page_lem s.pages p h) refl, refl, change_self s.caches c cache)

take_object_lem :
    (s : Slub) (c p objp : ℕ)
    → p < page_num
    → c ≢ objp
    → (s' : Slub) × (take_object c p (some objp, s) ≡ ok (some objp, s'))
      × (s'.pages ≡ s.pages)
      × (s'.caches c ≡ fixed p (s.pages.page_map p).inuse (s.caches c))
unfolding take_object
take_object_lem s c p objp h other =
    let s₁ = run_ctor (s.caches c).ctor objp s in
    let (pages, cache) = run_ctor_lem (s.caches c).ctor objp c s other in
    let less = λ (k : BmemCache). record k { free_objs = sub32 k.free_objs 1 } in
    let (s', run, pages', cache') =
      bmem_cache_fixup_lem (set_cache s₁ c (less (s₁.caches c))) c p h in
    (
      s',
      rw run refl,
      pages' ∙ pages,
      cache'
          ∙ ap₂ (λ (m : Pages) (k : BmemCache). refixed p (m.page_map p).inuse k) pages
              (change_self s₁.caches c (less (s₁.caches c)) ∙ ap less cache),
    )

-- What becomes of the page of the slab and of the cache.
pub bmem_cache_alloc_object_lem :
    (s : Slub) (c p objp : ℕ) (freelist : List ℕ)
    → p < page_num
    → c ≢ objp
    → (s.pages.page_map p).freelist ≡ objp ∷ freelist
    → (s' : Slub) × (bmem_cache_alloc_object s c p ≡ ok (some objp, s'))
      × (s'.pages ≡ with_page s.pages p (taken (s.pages.page_map p) freelist))
      × (s'.caches c ≡ fixed p (add32 (s.pages.page_map p).inuse 1) (s.caches c))
unfolding bmem_cache_alloc_object bmem_cache_fetch fetch_first
bmem_cache_alloc_object_lem s c p objp freelist h other first =
    let page = taken (s.pages.page_map p) freelist in
    let map = change s.pages.page_map p page in
    let s₁ = record s { pages = record s.pages { page_map = map } } in
    let (s', run, pages, cache) = take_object_lem s₁ c p objp h other in
    (
      s',
      rw (get_page_lem s.pages p h, first, set_page_lem s.pages p page h) run,
      pages,
      cache ∙ ap (λ (k : Page). fixed p k.inuse (s.caches c)) (change_self s.pages.page_map p page),
    )
