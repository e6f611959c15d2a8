-- ===== src/Memblock/Alloc.antt =====
-- src/mm/memblock.c: `memblock_alloc` and `memblock_reserve` on the boot table.
use native.Mathlib.Nat.{pow-le-pow_right}
use elfboot.Base.{
  ℕ, ◌+◌, ◌^◌, ◌≤◌, ◌<◌, ◌≡◌, ◌≢◌, refl, ◌⊎◌, inl, inr, true, false, List, [], ◌∷◌, Option, none,
  some, arith, leb, ◌==◌, if◌then◌else◌, Bool-cases,
}
use elfboot.Base.Run.{ok}
use elfboot.Memblock.{
  Region, MemblockType, Memblock, memblock_end, memblock_start, memblock_limit, memblock_invld,
  reserve_region, memblock_reserve, memblock_alloc_range, memblock_alloc_internal, memblock_alloc,
}
use elfboot.Memblock.Slots.{live}
use elfboot.Memblock.Table.{IsTable}
use elfboot.Memblock.Delete.{removal, is_split, left_size}
use elfboot.Memblock.Find.{FitsIn, IsPlace, memblock_find_in_range-FoundIn}
use elfboot.Memblock.Reserve.{
  page_floor, page_ceil, top, Without, memblock_del_region-removed, removed-Without, removed,
}
use elfboot.Memblock.Returned.{runs_on, removal-behind, removal-Returned}

-- What an allocation of `size` bytes at a multiple of `2 ^ k` leads to. A null pointer comes with the
-- table as it was, or without the block, whose pages do not end inside a region then.
pub data Allocated (size k : ℕ) (t : MemblockType) : Option ℕ → MemblockType → Type 0 where
  got :
      (c : ℕ) (u : MemblockType)
      → IsPlace size k memblock_start memblock_limit c
      → FitsIn c size (live t)
      → runs_on (page_ceil (c + size)) (live t) ≡ true
      → Without c size t u
      → Allocated size k t (some c) u
  full :
      ((d : ℕ) → IsPlace size k memblock_start memblock_limit d → ¬ FitsIn d size (live t))
      → Allocated size k t none t
  lost :
      (c : ℕ) (u : MemblockType)
      → IsPlace size k memblock_start memblock_limit c
      → FitsIn c size (live t)
      → runs_on (page_ceil (c + size)) (live t) ≡ false
      → Without c size t u
      → Allocated size k t none u

module _ (size k : ℕ) (aligned : k < 32) (some_size : 0 < size) (t : MemblockType)
    (sorted : IsTable 0 (live t)) (room : t.cnt < 8) where
  -- With a slot to spare, an allocation from a sorted table ends without a fault.
  alloc-Allocated :
      (p : Option ℕ) × (u : MemblockType) × (memblock_alloc_internal t size
          (2 ^ k)
          memblock_start
          memblock_limit
        ≡ ok (p, u))
      × Allocated size k t p u
  unfolding memblock_alloc_internal memblock_alloc_range reserve_region
  alloc-Allocated =
      let half_word = pow-le-pow_right {n = 2} (omega arith) {i = k} {j = 31} (omega arith) in
      let (c, find, found) =
        memblock_find_in_range-FoundIn size k memblock_start memblock_limit aligned
          (omega arith, omega arith, omega (arith, half_word)) some_size t sorted (omega arith) in
      elim found [
        | inr (nothing, others) ↦ (none, t, rw (find, nothing) refl, full others)
        | inl (place, fits, positive) ↦
            let nend = page_ceil (c + size) in
            let (u, run, left) = memblock_del_region-removed t c size (omega arith) room in
            let gone = removed-Without t c size (omega arith) sorted u left in
            let ret =
              removal-Returned nend (page_floor c) memblock_invld 0 (live t) (omega arith)
                (omega arith) sorted in
            let nonzero : (c == 0) ≡ false = ground arith in
            elim (Bool-cases (runs_on nend (live t))) [
              | inl on ↦
                  let small : (removed t c size).0 ≤ nend = rw on at ret in
                  let good : ((removed t c size).0 == memblock_invld) ≡ false = ground arith in
                  (
                    some c,
                    u,
                    rw (find, nonzero, run, good, nonzero) refl,
                    got c u place fits on gone,
                  )
              | inr off ↦
                  let same : (removed t c size).0 ≡ memblock_invld = rw off at ret in
                  let bad : ((removed t c size).0 == memblock_invld) ≡ true = ground arith in
                  (none, u, rw (find, nonzero, run, bad) refl, lost c u place fits off gone)
            ]
      ]

-- `[base, nend)` runs to the end of one of the regions.
abbrev pub EndsRegion : ℕ → ℕ → List Region → Type 0
EndsRegion base nend [] = ⊥
EndsRegion base nend (x ∷ xs) =
    ((x.base ≤ base) × (nend ≡ x.base + x.size)) ⊎ EndsRegion base nend xs

EndsRegion-within :
    (base nend lo : ℕ) (xs : List Region) → IsTable lo xs → EndsRegion base nend xs → lo ≤ base
EndsRegion-within base nend lo [] s e = absurd e
EndsRegion-within base nend lo (x ∷ xs) s (inl (h, e)) = omega arith
EndsRegion-within base nend lo (x ∷ xs) s (inr e) =
    omega (arith, EndsRegion-within base nend (x.base + x.size) xs s.2 e)

-- A removal up to the end of a region returns what the loop began with.
removal-ends :
    (nend base dbeg lo : ℕ) (xs : List Region)
    → dbeg ≢ 0
    → base < nend
    → IsTable lo xs
    → EndsRegion base nend xs
    → (removal nend base dbeg xs).0 ≡ dbeg
unfolding removal
removal-ends nend base dbeg lo [] d p s e = absurd e
removal-ends nend base dbeg lo (x ∷ xs) d p s (inl (h, e)) =
    let open_ : leb nend x.base ≡ false = ground arith in
    let meets : leb (memblock_end x) base ≡ false = ground arith in
    let whole : is_split nend base x ≡ false = ground arith in
    let same : (dbeg == 0) ≡ false = ground arith in
    let low = if leb (memblock_end x) nend then memblock_end x else base in
    elim (Bool-cases (left_size nend base x == 0)) [
      | inl none_left ↦
          rw (open_, meets, whole, none_left, same)
            (removal-behind nend base dbeg (x.base + x.size) xs s.2 (omega arith))
      | inr some_left ↦
          let back : leb base x.base ≡ false = ground arith in
          rw (open_, meets, whole, some_left, back, same)
            (removal-behind nend low dbeg (x.base + x.size) xs s.2 (omega arith))
    ]
removal-ends nend base dbeg lo (x ∷ xs) d p s (inr e) =
    let far = EndsRegion-within base nend (x.base + x.size) xs s.2 e in
    let open_ : leb nend x.base ≡ false = ground arith in
    let skip : leb (memblock_end x) base ≡ true = ground arith in
    rw (open_, skip) (removal-ends nend base dbeg (x.base + x.size) xs d p s.2 e)

-- `memblock_reserve` on a sorted boot table with a slot to spare, where the range has some bytes, ends
-- a page or more below `2 ^ 32`, and its pages run to the end of a region from inside it: the pages
-- leave the table, and the result says that nothing was reserved.
pub memblock_reserve_lost :
    (m : Memblock) (base size : ℕ)
    → IsTable 0 (live m.bootmem)
    → m.bootmem.cnt < 8
    → base + size ≤ top
    → 0 < size
    → EndsRegion (page_floor base) (page_ceil (base + size)) (live m.bootmem)
    → (u : MemblockType) × (memblock_reserve m base size ≡ ok (false, record m { bootmem = u }))
      × Without base size m.bootmem u
unfolding memblock_reserve
memblock_reserve_lost m base size sorted room fits some_size ends =
    let t = m.bootmem in
    let (u, run, left) = memblock_del_region-removed t base size fits room in
    let code =
      removal-ends (page_ceil (base + size)) (page_floor base) memblock_invld 0 (live t)
        (omega arith) (omega arith) sorted ends in
    (u, rw (run, code) refl, removed-Without t base size fits sorted u left)

-- With a slot to spare in a sorted boot table, `memblock_alloc` of some bytes at an alignment `2 ^ k`
-- of 32 bits ends without a fault. If no region has room in the bounds, it gives a null pointer and
-- the table as it was. Else there is an aligned block in the bounds that lay in one region, whose
-- pages have left the table: where its pages end inside a region, the result is the block; where
-- they do not, it is a null pointer, and nobody owns the block.
pub memblock_alloc-Allocated :
    (m : Memblock) (size k : ℕ)
    → k < 32
    → 0 < size
    → IsTable 0 (live m.bootmem)
    → m.bootmem.cnt < 8
    → (p : Option ℕ) × (u : MemblockType) × (memblock_alloc m size (2 ^ k)
        ≡ ok (p, record m { bootmem = u }))
      × Allocated size k m.bootmem p u
unfolding memblock_alloc
memblock_alloc-Allocated m size k aligned some_size sorted room =
    let (p, u, run, spec) = alloc-Allocated size k aligned some_size m.bootmem sorted room in
    (p, u, rw run refl, spec)
