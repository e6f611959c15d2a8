-- ===== src/Slub/Slabs.antt =====
-- src/mm/slub.c: which objects of a slab are free and which are in use, and the lists of a cache.
use mathlib.Core.Logic.Or
use mathlib.Core.List.{
  Mem-prop, mem-append, dec_mem, Mem, Perm, Nodup, Nodup-cons, mem-cons_self, mem-cons_of_mem,
  mem-append_right, mem-append_left, mem_of_ne_of_mem, perm_middle, Nodup-nil, not-mem-nil,
}
use mathlib.Core.List.Perm
use elfboot.Base.{
  ℕ, zero, suc, ◌+◌, ◌*◌, ◌^◌, ◌≤◌, ◌<◌, ◌≡◌, ◌≢◌, refl, sym, ap, ap₂, ◌∙◌, List, [], ◌∷◌, ◌++◌,
  length, length-append, arith, ℕ_discrete,
}
use elfboot.Core.{u32, add32}
use elfboot.PageAlloc.{Page, page_num, change, unlink}
use elfboot.PageAlloc.Members.{SameMembers, Kept}
use elfboot.Slub.{BmemCache}
use elfboot.Slub.Lists.{length-perm, change_ne, perm-unlink_both, mem_of_mem-unlink}

-- The addresses of `n` objects of a slab at `paddr`, from the object `objc` on.
abbrev pub objects : ℕ → ℕ → ℕ → ℕ → List ℕ
objects paddr size zero objc = []
objects paddr size (suc n) objc = add32 paddr (u32 (size * objc)) ∷ objects paddr size n (objc + 1)

pub length-objects : (paddr size n objc : ℕ) → length (objects paddr size n objc) ≡ n
length-objects paddr size zero objc = refl
length-objects paddr size (suc n) objc = ap suc (length-objects paddr size n (objc + 1))

-- Without a wrap-around, the objects lie one behind the other.
pub objects_above :
    (paddr size n objc x : ℕ)
    → paddr + size * objc + size * n ≤ 2 ^ 32
    → 0 < size
    → Mem x (objects paddr size n objc)
    → paddr + size * objc ≤ x
objects_above paddr size zero objc x fits some_size m = absurd (not-mem-nil m)
objects_above paddr size (suc n) objc x fits some_size m =
    let here : add32 paddr (u32 (size * objc)) ≡ paddr + size * objc = omega arith in
    elim (ℕ_discrete x (add32 paddr (u32 (size * objc)))) [
      | yes e ↦ omega arith
      | no other ↦
          let above =
            objects_above paddr size n (objc + 1) x (omega arith) some_size
              (mem_of_ne_of_mem other m) in
          omega arith
    ]

pub objects-Nodup :
    (paddr size n objc : ℕ)
    → paddr + size * objc + size * n ≤ 2 ^ 32
    → 0 < size
    → Nodup (objects paddr size n objc)
objects-Nodup paddr size zero objc fits some_size = Nodup-nil
objects-Nodup paddr size (suc n) objc fits some_size =
    let here : add32 paddr (u32 (size * objc)) ≡ paddr + size * objc = omega arith in
    Nodup-cons.1 (
      λ m.
          let above = objects_above paddr size n (objc + 1) _ (omega arith) some_size m in
          absurd (omega arith),
      objects-Nodup paddr size n (objc + 1) (omega arith) some_size,
    )

-- Each object of the slab `p` is on its freelist or one of the objects `live` that are in use, once.
pub record IsSlab (size nums c p : ℕ) (page : Page) (live : List ℕ) : Type 0 where
  pub inside : p < page_num
  pub owner : page.slab_cache ≡ c
  pub shared : Perm (page.freelist ++ live) (objects page.paddr size nums 0)
  pub distinct : Nodup (objects page.paddr size nums 0)
  pub apart : ¬ Mem c (objects page.paddr size nums 0)
  pub count : page.inuse ≡ length live

-- The slabs of a cache, `full` without a free object and `partial` with objects of both kinds.
pub record AreSlabs (size nums c : ℕ) (map : ℕ → Page) (live : ℕ → List ℕ) (full partial : List ℕ)
    : Type 0 where
  pub used_up :
      (p : ℕ) → Mem p full → IsSlab size nums c p (map p) (live p) × ((map p).freelist ≡ [])
  pub mixed :
      (p : ℕ)
      → Mem p partial
      → IsSlab size nums c p (map p) (live p) × ((map p).freelist ≢ []) × (live p ≢ [])
  pub once : Nodup (full ++ partial)

abbrev pub free_objects : (ℕ → Page) → List ℕ → ℕ
free_objects map [] = 0
free_objects map (p ∷ slabs) = length (map p).freelist + free_objects map slabs

-- A cache with the objects `live` in use, by slab. An empty slab has no place in it.
pub record IsCache (c : ℕ) (map : ℕ → Page) (cache : BmemCache) (live : ℕ → List ℕ) : Type 0 where
  pub slabs : AreSlabs cache.size cache.nums c map live cache.slabs_full cache.slabs_partial
  pub no_empty : cache.slabs_free ≡ []
  pub counted : cache.free_objs ≡ u32 (free_objects map cache.slabs_partial)
  pub small : cache.nums < 2 ^ 32

-- Each slab on a list of the cache is one.
pub IsCache-IsSlab :
    {c p : ℕ} {map : ℕ → Page} {cache : BmemCache} {live : ℕ → List ℕ}
    → IsCache c map cache live
    → Mem p (cache.slabs_full ++ cache.slabs_partial)
    → IsSlab cache.size cache.nums c p (map p) (live p)
IsCache-IsSlab {p = p} {cache = cache} h m = elim (dec_mem ℕ_discrete p cache.slabs_partial) [
  | yes in_partial ↦ (h.slabs.mixed p in_partial).0
  | no not_partial ↦ (h.slabs.used_up p (Or.resolve_right Mem-prop (mem-append.0 m) not_partial)).0
]

pub IsSlab-size :
    {size nums c p : ℕ} {page : Page} {live : List ℕ}
    → IsSlab size nums c p page live
    → length page.freelist + length live ≡ nums
IsSlab-size {size} {nums} {page = page} {live = live} h =
    sym (length-append page.freelist live)
    ∙ length-perm h.shared
    ∙ length-objects page.paddr size nums 0

pub free_objects-change :
    (map : ℕ → Page) (p : ℕ) (page : Page) (slabs : List ℕ)
    → ¬ Mem p slabs
    → free_objects (change map p page) slabs ≡ free_objects map slabs
free_objects-change map p page [] h = refl
free_objects-change map p page (q ∷ slabs) h =
    let other : q ≢ p = λ e. h (rw e mem-cons_self) in
    rw
      (
        change_ne map page other,
        free_objects-change map p page slabs (λ m. h (mem-cons_of_mem q m)),
      )
      refl

module _ {size nums c : ℕ} (map : ℕ → Page) (live : ℕ → List ℕ) {full partial : List ℕ} where
  -- A page that is on neither list can change.
  pub AreSlabs-change :
      (p : ℕ) (page : Page) (l : List ℕ)
      → ¬ Mem p (full ++ partial)
      → AreSlabs size nums c map live full partial
      → AreSlabs size nums c (change map p page) (change live p l) full partial
  AreSlabs-change p page l out h = record {
    used_up = λ q m.
        let other : q ≢ p = λ e. out (mem-append_left partial (rw e at m)) in
        rw (change_ne map page other, change_ne live l other) (h.used_up q m);
    mixed = λ q m.
        let other : q ≢ p = λ e. out (mem-append_right full (rw e at m)) in
        rw (change_ne map page other, change_ne live l other) (h.mixed q m);
    once = h.once;
  }

  pub AreSlabs-full :
      (p : ℕ)
      → ¬ Mem p (full ++ partial)
      → IsSlab size nums c p (map p) (live p)
      → (map p).freelist ≡ []
      → AreSlabs size nums c map live full partial
      → AreSlabs size nums c map live (p ∷ full) partial
  AreSlabs-full p out slab empty h = record {
    used_up = λ q m. elim (ℕ_discrete q p) [
      | yes e ↦ rw e (slab, empty)
      | no n ↦ h.used_up q (mem_of_ne_of_mem n m)
    ];
    mixed = h.mixed;
    once = Nodup-cons.1 (out, h.once);
  }

  pub AreSlabs-partial :
      (p : ℕ)
      → ¬ Mem p (full ++ partial)
      → IsSlab size nums c p (map p) (live p)
      → (map p).freelist ≢ []
      → live p ≢ []
      → AreSlabs size nums c map live full partial
      → AreSlabs size nums c map live full (p ∷ partial)
  AreSlabs-partial p out slab left used h = record {
    used_up = h.used_up;
    mixed = λ q m. elim (ℕ_discrete q p) [
      | yes e ↦ rw e (slab, left, used)
      | no n ↦ h.mixed q (mem_of_ne_of_mem n m)
    ];
    once = Perm.nodup (Perm.symm (perm_middle full partial)) (Nodup-cons.1 (out, h.once));
  }

  -- The slab `p` taken off its list.
  pub AreSlabs-unlink :
      (p : ℕ)
      → Mem p (full ++ partial)
      → AreSlabs size nums c map live full partial
      → AreSlabs size nums c map live (unlink p full) (unlink p partial)
        × ¬ Mem p (unlink p full ++ unlink p partial)
  AreSlabs-unlink p m h =
      let (out, once) =
        Nodup-cons.0 (Perm.nodup (Perm.symm (perm-unlink_both p full partial h.once m)) h.once) in
      (
        record {
          used_up = λ q i. h.used_up q (mem_of_mem-unlink p full i);
          mixed = λ q i. h.mixed q (mem_of_mem-unlink p partial i);
          once = once;
        },
        out,
      )

module _ {size nums c : ℕ} where
  pub IsSlab-kept :
      {p : ℕ} {page page' : Page} {live : List ℕ}
      → SameMembers page page'
      → IsSlab size nums c p page live
      → IsSlab size nums c p page' live
  IsSlab-kept same h = record {
    inside = h.inside;
    owner = same.slab_cache ∙ h.owner;
    shared = rw (same.freelist, same.paddr) h.shared;
    distinct = rw same.paddr h.distinct;
    apart = rw same.paddr h.apart;
    count = same.inuse ∙ h.count;
  }

  pub AreSlabs-Kept :
      {map map' : ℕ → Page} {live : ℕ → List ℕ} {full partial : List ℕ}
      → Kept map map'
      → AreSlabs size nums c map live full partial
      → AreSlabs size nums c map' live full partial
  AreSlabs-Kept kept h = record {
    used_up = λ p m.
        let (slab, empty) = h.used_up p m in (IsSlab-kept (kept p) slab, (kept p).freelist ∙ empty);
    mixed = λ p m.
        let (slab, left, used) = h.mixed p m in
        (IsSlab-kept (kept p) slab, (λ e. left (sym (kept p).freelist ∙ e)), used);
    once = h.once;
  }

pub free_objects-Kept :
    {map map' : ℕ → Page} (slabs : List ℕ)
    → Kept map map'
    → free_objects map' slabs ≡ free_objects map slabs
free_objects-Kept [] kept = refl
free_objects-Kept (p ∷ slabs) kept =
    ap₂ ◌+◌ (ap length (kept p).freelist) (free_objects-Kept slabs kept)

pub AreSlabs-same :
    {size nums c : ℕ} {map map' : ℕ → Page} {live : ℕ → List ℕ} {full partial : List ℕ}
    → ((p : ℕ) → Mem p (full ++ partial) → map' p ≡ map p)
    → AreSlabs size nums c map live full partial
    → AreSlabs size nums c map' live full partial
AreSlabs-same {full = full} {partial = partial} same h = record {
  used_up = λ p m. rw (same p (mem-append_left partial m)) (h.used_up p m);
  mixed = λ p m. rw (same p (mem-append_right full m)) (h.mixed p m);
  once = h.once;
}
