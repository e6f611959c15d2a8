-- ===== src/Memblock/Fusion.antt =====
-- src/mm/memblock.c: `memblock_add_region` where the new range starts at the end of the only region.
use elfboot.Base.{
  ℕ, suc, ◌+◌, ◌-◌, ◌%◌, ◌^◌, ◌≤◌, ◌<◌, ◌≡◌, ◌≢◌, refl, true, false, [], ◌∷◌, arith, ltb, leb, ◌==◌,
}
use elfboot.Base.Run.{ok}
use elfboot.Memblock.{
  Region, region, MemblockType, memblock_end, update, move, fuse_previous, fuse_next,
  memblock_fusion_region, add_step, add_loop, memblock_add_region,
}
use elfboot.Memblock.Slots.{
  seg, live, load_ok, store_ok, memmove_ok, insert_table, memblock_insert_region_ok,
}
use elfboot.Memblock.Reserve.{page_floor, page_ceil, top, memblock_adjust_region_lem}

module _ (t : MemblockType) (size : ℕ) (one : t.cnt ≡ 1) (some_region : 0 < (t.regions 0).size)
    (some_size : 0 < size) (fits : (t.regions 0).base + (t.regions 0).size + size ≤ top)
    (paged : page_floor ((t.regions 0).base + (t.regions 0).size)
      ≡ (t.regions 0).base + (t.regions 0).size)
    (stale : (t.regions 2).base ≢ page_ceil ((t.regions 0).base + (t.regions 0).size + size)) where
  abbrev first : Region
  first = t.regions 0

  abbrev base : ℕ
  base = first.base + first.size

  abbrev nend : ℕ
  nend = page_ceil (base + size)

  -- The table with the new range in slot 1.
  abbrev inserted : MemblockType
  inserted = insert_table t 1 base (nend - base)

  loop_passes : add_loop nend (t.cnt + 1) t 0 base ≡ ok (t, 1, base)
  unfolding add_loop add_step
  loop_passes =
      let e : t.cnt + 1 ≡ suc (suc 0) = omega arith in
      let more : ltb 0 t.cnt ≡ true = ground arith in
      let over : ltb (0 + 1) t.cnt ≡ false = ground arith in
      let below : leb nend first.base ≡ false = ground arith in
      let skip : leb (memblock_end first) base ≡ true = ground arith in
      rw (e, more, load_ok t 0 (omega arith), below, skip, over) refl

  -- The region that the two ranges make.
  abbrev joined : Region
  joined = region first.base (nend - first.base)

  -- The table after the fusion with the predecessor: slots 0 and 1 hold the joined region.
  fused : MemblockType
  fused = record inserted { regions = move (update inserted.regions 1 joined) 0 1 1 }

  fuse_previous-fused : fuse_previous inserted 1 ≡ ok fused
  unfolding fuse_previous fused
  fuse_previous-fused =
      let written = record inserted { regions = update inserted.regions 1 joined } in
      let adjacent : (memblock_end first == base) ≡ true = ground arith in
      let sum : (nend - base + first.size) % 2 ^ 32 ≡ nend - first.base = omega arith in
      let count : (t.cnt + 1 + 2 ^ 32 - 1) % 2 ^ 32 ≡ 1 = omega arith in
      rw (
        load_ok inserted 0 (omega arith),
        load_ok inserted 1 (omega arith),
        adjacent,
        sum,
        store_ok inserted 1 joined (omega arith),
        count,
        memmove_ok written 0 1 1 (omega arith) (omega arith),
      )

  fuse_next-fused : fuse_next fused 1 ≡ ok fused
  unfolding fuse_next fused
  fuse_next-fused =
      let more : ltb 1 (t.cnt + 1) ≡ true = ground arith in
      let apart : (memblock_end (fused.regions 1) == (fused.regions 2).base) ≡ false =
        ground arith in
      rw (more, load_ok fused 2 (omega arith), load_ok fused 1 (omega arith), apart)

  -- The table has one region, not empty and with its end at a page boundary. The range has some
  -- bytes, starts at that end and ends a page or more below `2 ^ 32`, and the unused slot 2 does not
  -- happen to start where it ends. Adding it leaves the joined region in the table twice.
  pub memblock_add_region_twice :
      (u : MemblockType) × (memblock_add_region t base size ≡ ok u)
      × (live u ≡ joined ∷ joined ∷ [])
  unfolding memblock_add_region memblock_fusion_region fused seg
  memblock_add_region_twice =
      let used : (first.size == 0) ≡ false = ground arith in
      let left : ltb base nend ≡ true = ground arith in
      let rest : (nend + 2 ^ 32 - base) % 2 ^ 32 ≡ nend - base = omega arith in
      let several : (t.cnt + 1 == 1) ≡ false = ground arith in
      let two : t.cnt + 1 ≡ 2 = omega arith in
      (
        fused,
        rw (
          memblock_adjust_region_lem base size fits,
          paged,
          load_ok t 0 (omega arith),
          used,
          loop_passes,
          left,
          rest,
          memblock_insert_region_ok t 1 base (nend - base) (omega arith) (omega arith),
          several,
          fuse_previous-fused,
          fuse_next-fused,
        ),
        rw two refl,
      )
