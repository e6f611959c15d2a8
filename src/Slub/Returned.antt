-- ===== src/Slub/Returned.antt =====
-- src/mm/slub.c: a slab with one of its objects free again, for `bfree`.
use mathlib.Core.Logic.Or
use mathlib.Core.List.{
  Mem, Mem-prop, mem-append_right, mem_of_ne_of_mem, dec_mem, mem-append, not-mem-nil,
}
use mathlib.Core.List.Perm
use elfboot.Base.{
  ℕ, ◌+◌, ◌^◌, ◌<◌, ◌≡◌, ◌≢◌, refl, sym, ap, ◌∙◌, inl, inr, Bool-cases, List, [], ◌∷◌, ◌++◌, length,
  length-append, arith, ◌==◌, ℕ_discrete,
}
use elfboot.Core.{add32, sub32}
use elfboot.PageAlloc.{Page, change, unlink}
use elfboot.Slub.{BmemCache, slab_del, add_partial}
use elfboot.Slub.Lists.{change_self, perm_move, perm-unlink, length-perm, unlink-not_mem}
use elfboot.Slub.Slabs.{
  IsSlab, AreSlabs, free_objects, IsCache, IsSlab-size, free_objects-change, AreSlabs-change,
  AreSlabs-partial, AreSlabs-unlink,
}

-- The page of the slab with the object `objp` free again.
abbrev pub returned : Page → ℕ → Page
returned page objp = record page {
  freelist = page.freelist ++ objp ∷ [];
  inuse = sub32 page.inuse 1;
}

IsSlab-returned :
    {size nums c p : ℕ} {page : Page} {live : List ℕ} (objp : ℕ)
    → nums < 2 ^ 32
    → Mem objp live
    → IsSlab size nums c p page live
    → IsSlab size nums c p (returned page objp) (unlink objp live)
IsSlab-returned {page = page} {live = live} objp small m h =
    let perm = perm-unlink objp live m in
    let moved = perm_move objp page.freelist (unlink objp live) in
    record {
      inside = h.inside;
      owner = h.owner;
      shared = Perm.trans moved (Perm.trans (Perm.append_left page.freelist perm) h.shared);
      distinct = h.distinct;
      apart = h.apart;
      count =
          let size = IsSlab-size h in
          let less = length-perm perm in let count = h.count in omega arith;
    }

free_objects-unlink :
    (map : ℕ → Page) (p : ℕ) (slabs : List ℕ)
    → Mem p slabs
    → free_objects map slabs ≡ length (map p).freelist + free_objects map (unlink p slabs)
free_objects-unlink map p [] m = absurd (not-mem-nil m)
free_objects-unlink map p (q ∷ slabs) m = elim (Bool-cases (q == p)) [
  | inl e ↦ let same : q ≡ p = ground arith in rw (e, same) refl
  | inr e ↦
      let other : p ≢ q = ground arith in
      let rest = free_objects-unlink map p slabs (mem_of_ne_of_mem other m) in rw e (omega arith)
]

append-nonempty : (xs : List ℕ) (x : ℕ) → xs ++ x ∷ [] ≢ []
append-nonempty xs x e =
    let none_left : length (xs ++ x ∷ []) ≡ 0 = ap length e in
    absurd (omega (arith, length-append xs (x ∷ [])))

module _ (c p : ℕ) (map : ℕ → Page) (live : ℕ → List ℕ) (cache : BmemCache) where
  -- The cache with the slab `p` off its list, before its counter changes.
  pub record Apart : Type 0 where
    pub slab : IsSlab cache.size cache.nums c p (map p) (live p)
    pub slabs :
        AreSlabs cache.size cache.nums c map live
          (unlink p cache.slabs_full)
          (unlink p cache.slabs_partial)
    pub out : ¬ Mem p (unlink p cache.slabs_full ++ unlink p cache.slabs_partial)
    pub counted :
        free_objects map cache.slabs_partial
        ≡ length (map p).freelist + free_objects map (unlink p cache.slabs_partial)

  pub apart : IsCache c map cache live → Mem p (cache.slabs_full ++ cache.slabs_partial) → Apart
  apart h m =
      let (slabs, out) = AreSlabs-unlink map live p m h.slabs in
      elim (dec_mem ℕ_discrete p cache.slabs_partial) [
        | yes in_partial ↦ record {
          slab = (h.slabs.mixed p in_partial).0;
          slabs = slabs;
          out = out;
          counted = free_objects-unlink map p cache.slabs_partial in_partial;
        }
        | no not_partial ↦
            let in_full = Or.resolve_right Mem-prop (mem-append.0 m) not_partial in
            let (slab, empty) = h.slabs.used_up p in_full in
            record {
              slab = slab;
              slabs = slabs;
              out = out;
              counted =
                  let none_free : length (map p).freelist ≡ 0 = ap length empty in
                  rw (unlink-not_mem p cache.slabs_partial not_partial, none_free) (omega arith);
            }
      ]

  -- The slab `p` is back on the partial list, with the object `objp` free.
  pub returned-IsCache :
      (objp : ℕ)
      → IsCache c map cache live
      → Mem p (cache.slabs_full ++ cache.slabs_partial)
      → Mem objp (live p)
      → unlink objp (live p) ≢ []
      → IsCache c
          (change map p (returned (map p) objp))
          (add_partial p (slab_del p (record cache { free_objs = add32 cache.free_objs 1 })))
          (change live p (unlink objp (live p)))
  returned-IsCache objp h m used more =
      let a = apart h m in
      let page = returned (map p) objp in
      let left = unlink objp (live p) in
      let map' = change map p page in
      let live' = change live p left in
      let here = change_self map p page in
      let here_live = change_self live p left in
      let out : ¬ Mem p (unlink p cache.slabs_partial) =
        λ i. a.out (mem-append_right (unlink p cache.slabs_full) i) in
      record {
        slabs =
            AreSlabs-partial map' live' p a.out
              (rw (here, here_live) (IsSlab-returned objp h.small used a.slab))
              (λ e.
                append-nonempty (map p).freelist objp
                  (sym (ap (λ (k : Page). k.freelist) here) ∙ e))
              (λ e. more (sym here_live ∙ e)) (AreSlabs-change map live p page left a.out a.slabs);
        no_empty = ap (unlink p) h.no_empty;
        counted =
            let length' : length (map' p).freelist ≡ length (map p).freelist + 1 =
              ap (λ (k : Page). length k.freelist) here
              ∙ length-append (map p).freelist (objp ∷ []) in
            let rest = free_objects-change map p page (unlink p cache.slabs_partial) out in
            let before = h.counted in let sum = a.counted in omega arith;
        small = h.small;
      }
