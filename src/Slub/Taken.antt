-- ===== src/Slub/Taken.antt =====
-- src/mm/slub.c: a cache after an object was taken from one of its slabs.
use mathlib.Core.List.{Mem, mem-append_right, perm_middle}
use mathlib.Core.List.Perm
use elfboot.Base.{
  ℕ, suc, ◌+◌, ◌^◌, ◌<◌, ◌≡◌, ◌≢◌, refl, ap, true, false, List, [], ◌∷◌, ◌++◌, length, arith, ◌==◌,
}
use elfboot.Core.{u32, add32, sub32}
use elfboot.PageAlloc.{Page, change, unlink}
use elfboot.Slub.{BmemCache}
use elfboot.Slub.Lists.{change_self}
use elfboot.Slub.Slabs.{
  IsSlab, AreSlabs, free_objects, IsCache, IsSlab-size, free_objects-change, AreSlabs-change,
  AreSlabs-full, AreSlabs-partial,
}
use elfboot.Slub.Object.{taken, fixed}

IsSlab-taken :
    {size nums c p : ℕ} {page : Page} {live : List ℕ} (objp : ℕ) (freelist : List ℕ)
    → nums < 2 ^ 32
    → page.freelist ≡ objp ∷ freelist
    → IsSlab size nums c p page live
    → IsSlab size nums c p (taken page freelist) (objp ∷ live)
IsSlab-taken {page = page} {live = live} objp freelist small first h = record {
  inside = h.inside;
  owner = h.owner;
  shared = Perm.trans (perm_middle freelist live) (rw first at h.shared);
  distinct = h.distinct;
  apart = h.apart;
  count =
      let size = IsSlab-size h in
      let more : length page.freelist ≡ suc (length freelist) = rw first refl in
      let count = h.count in omega arith;
}

nonempty : {n : ℕ} (xs : List ℕ) → length xs ≡ suc n → xs ≢ []
nonempty xs h e = let none_left : length xs ≡ 0 = ap length e in absurd (omega arith)

module _ (c p objp : ℕ) (map : ℕ → Page) (live : ℕ → List ℕ) (cache : BmemCache) where
  -- A cache with the slab `p` apart, which has `objp` first on its freelist.
  pub record Ready (freelist : List ℕ) : Type 0 where
    pub slabs :
        AreSlabs cache.size cache.nums c map live
          (unlink p cache.slabs_full)
          (unlink p cache.slabs_partial)
    pub out : ¬ Mem p (unlink p cache.slabs_full ++ unlink p cache.slabs_partial)
    pub no_empty : unlink p cache.slabs_free ≡ []
    pub slab : IsSlab cache.size cache.nums c p (map p) (live p)
    pub first : (map p).freelist ≡ objp ∷ freelist
    pub counted :
        cache.free_objs
        ≡ u32 (length (map p).freelist + free_objects map (unlink p cache.slabs_partial))
    pub small : cache.nums < 2 ^ 32

  abbrev map_with : List ℕ → ℕ → Page
  map_with freelist = change map p (taken (map p) freelist)

  abbrev live_with : ℕ → List ℕ
  live_with = change live p (objp ∷ live p)

  IsSlab-with :
      (freelist : List ℕ)
      → Ready freelist
      → IsSlab cache.size cache.nums c p (map_with freelist p) (live_with p)
  IsSlab-with freelist h =
      rw (change_self map p (taken (map p) freelist), change_self live p (objp ∷ live p))
        (IsSlab-taken objp freelist h.small h.first h.slab)

  count_with :
      (freelist : List ℕ)
      → Ready freelist
      → sub32 cache.free_objs 1
        ≡ u32 (length freelist + free_objects (map_with freelist) (unlink p cache.slabs_partial))
  count_with freelist h =
      let out : ¬ Mem p (unlink p cache.slabs_partial) =
        λ m. h.out (mem-append_right (unlink p cache.slabs_full) m) in
      let same =
        free_objects-change map p (taken (map p) freelist) (unlink p cache.slabs_partial) out in
      let more : length (map p).freelist ≡ suc (length freelist) = rw (h.first) refl in
      let counted = h.counted in omega arith

  -- With an object taken, the slab goes on the list where it belongs.
  pub fixed-IsCache :
      (freelist : List ℕ)
      → Ready freelist
      → IsCache c (map_with freelist) (fixed p (add32 (map p).inuse 1) cache) live_with
  fixed-IsCache [] h =
      let size = IsSlab-size h.slab in
      let one : length (map p).freelist ≡ 1 = rw (h.first) refl in
      let count = h.slab.count in
      let small = h.small in
      let test : (add32 (map p).inuse 1 == cache.nums) ≡ true = ground arith in
      let page = change_self map p (taken (map p) []) in
      rw test (record {
        slabs =
            AreSlabs-full (map_with []) live_with p h.out (IsSlab-with [] h)
              (ap (λ (k : Page). k.freelist) page)
              (AreSlabs-change map live p (taken (map p) []) (objp ∷ live p) h.out h.slabs);
        no_empty = h.no_empty;
        counted = let counted = count_with [] h in omega arith;
        small = h.small;
      })
  fixed-IsCache (next ∷ freelist) h =
      let rest = next ∷ freelist in
      let size = IsSlab-size h.slab in
      let more : length (map p).freelist ≡ suc (suc (length freelist)) = rw (h.first) refl in
      let count = h.slab.count in
      let small = h.small in
      let test : (add32 (map p).inuse 1 == cache.nums) ≡ false = ground arith in
      let page = change_self map p (taken (map p) rest) in
      let in_use : length (live_with p) ≡ suc (length (live p)) =
        ap length (change_self live p (objp ∷ live p)) in
      let whole : length (map_with rest p).freelist ≡ length rest =
        ap (λ (k : Page). length k.freelist) page in
      rw test (record {
        slabs =
            AreSlabs-partial (map_with rest) live_with p h.out (IsSlab-with rest h)
              (λ e. nonempty _ whole e) (λ e. nonempty _ in_use e)
              (AreSlabs-change map live p (taken (map p) rest) (objp ∷ live p) h.out h.slabs);
        no_empty = h.no_empty;
        counted = rw whole (count_with rest h);
        small = h.small;
      })
