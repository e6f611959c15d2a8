-- ===== src/Memblock/Tests.antt =====
-- Runs of the memory block table, and the theorems at concrete tables.
use elfboot.Base.{
  ℕ, ◌+◌, ◌-◌, ◌^◌, ◌≡◌, refl, inl, [], ◌∷◌, Option, false, arith, if◌then◌else◌, ◌==◌,
}
use elfboot.Base.Run.{ok}
use elfboot.Memblock.{
  region, MemblockType, Memblock, memblock_start, memblock_limit, load, store, memmove,
  memblock_insert_region, memblock_adjust_region, memblock_add_region, del_step, del_loop,
  memblock_del_region, memblock_reserve, memblock_find_in_range, memblock_alloc,
}
use elfboot.Core.{round_up, round_down}
use elfboot.Memblock.Slots.{live, seg}
use elfboot.Memblock.Reserve.{Without, page_ceil, memblock_del_region-Without}
use elfboot.Memblock.Find.{FoundIn, memblock_find_in_range-FoundIn}
use elfboot.Memblock.Alloc.{Allocated, memblock_alloc-Allocated, memblock_reserve_lost}
use elfboot.Memblock.Fusion.{memblock_add_region_twice}

abbrev empty : MemblockType
empty = record { cnt = 1; total_size = 0; regions = λ i. region 0 0 }

abbrev low_memory : MemblockType
low_memory = record {
  cnt = 1;
  total_size = 0x8_0000;
  regions = λ i. if i == 0 then region 0x1_0000 0x8_0000 else region 0 0;
}

abbrev two_regions : MemblockType
two_regions = record {
  cnt = 2;
  total_size = 0x2_0000;
  regions = λ i.
      if i == 0
      then region 0x1_0000 0x1_0000
      else if i == 1
      then region 0x4_0000 0x1_0000
      else region 0 0;
}

abbrev boot : MemblockType → Memblock
boot t = record { bootmem = t; kernmem = empty }

-- The base and the size of the live regions after a run.
first_region :
    (t : MemblockType) × (memblock_add_region empty 0x1_0234 0x2000 ≡ ok t)
    × (live t ≡ region 0x1_0000 0x3000 ∷ [])
unfolding memblock_add_region memblock_adjust_region load store round_up round_down seg
first_region = (record empty { total_size = 0x3000; regions = _ }, refl, refl)

split_region :
    (t : MemblockType) × (memblock_del_region low_memory 0x2_0000 0x1000 ≡ ok (0x2_0000, t))
    × (live t ≡ region 0x1_0000 0x1_0000 ∷ region 0x2_1000 0x6_f000 ∷ [])
unfolding memblock_del_region memblock_adjust_region del_loop del_step memblock_insert_region load
    store memmove round_up round_down seg
split_region = (_, refl, refl)

memblock_del_region-Without_example :
    (ret : ℕ) × (u : MemblockType) × (memblock_del_region two_regions 0x1_8000 0x3_0000
      ≡ ok (ret, u))
    × Without 0x1_8000 0x3_0000 two_regions u
unfolding seg
memblock_del_region-Without_example =
    memblock_del_region-Without two_regions 0x1_8000 0x3_0000 (omega arith)
      (omega arith, omega arith, (omega arith, omega arith, tt)) (omega arith)

memblock_find_in_range-FoundIn_example :
    (c : ℕ) × (memblock_find_in_range two_regions 0x2000 (2 ^ 12) memblock_start memblock_limit
      ≡ ok c)
    × FoundIn 0x2000 12 memblock_start memblock_limit (live two_regions) c
unfolding seg
memblock_find_in_range-FoundIn_example =
    memblock_find_in_range-FoundIn 0x2000 12 memblock_start memblock_limit (omega arith)
      (omega arith, omega arith, omega arith) (omega arith) two_regions
      (omega arith, omega arith, (omega arith, omega arith, tt)) (omega arith)

memblock_alloc-Allocated_example :
    (p : Option ℕ) × (u : MemblockType) × (memblock_alloc (boot two_regions) 0x2000 (2 ^ 12)
      ≡ ok (p, record (boot two_regions) { bootmem = u }))
    × Allocated 0x2000 12 two_regions p u
unfolding seg
memblock_alloc-Allocated_example =
    memblock_alloc-Allocated (boot two_regions) 0x2000 12 (omega arith) (omega arith)
      (omega arith, omega arith, (omega arith, omega arith, tt)) (omega arith)

memblock_reserve_lost_example :
    (u : MemblockType) × (memblock_reserve (boot two_regions) 0x1_8000 0x8000
      ≡ ok (false, record (boot two_regions) { bootmem = u }))
    × Without 0x1_8000 0x8000 two_regions u
unfolding seg
memblock_reserve_lost_example =
    memblock_reserve_lost (boot two_regions) 0x1_8000 0x8000
      (omega arith, omega arith, (omega arith, omega arith, tt)) (omega arith) (omega arith)
      (omega arith) (inl (omega arith, omega arith))

memblock_add_region_twice_example :
    (u : MemblockType) × (memblock_add_region low_memory 0x9_0000 0x1_0000 ≡ ok u)
    × (live u
        ≡ region 0x1_0000 (page_ceil (0x9_0000 + 0x1_0000) - 0x1_0000)
          ∷ region 0x1_0000 (page_ceil (0x9_0000 + 0x1_0000) - 0x1_0000)
          ∷ [])
memblock_add_region_twice_example =
    memblock_add_region_twice low_memory 0x1_0000 refl (omega arith) (omega arith) (omega arith)
      (omega arith) (omega arith)
