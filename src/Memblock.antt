-- ===== src/Memblock.antt =====
-- src/mm/memblock.c and src/include/elfboot/memblock.h: the boot-time table of free memory regions.
-- An array of regions is a function of the index; an access outside its eight slots is a fault.
-- The loops run on fuel, `cnt + 1` rounds: each round leaves one region less to visit.
pub mod Slots
pub mod Table
pub mod Delete
pub mod Reserve
pub mod Find
pub mod Returned
pub mod Alloc
pub mod Fusion
mod Tests
use elfboot.Base.{
  ℕ, zero, suc, ◌+◌, ◌-◌, ◌*◌, ◌^◌, min, max, Bool, true, false, not, ◌&&◌, ◌||◌, Option, none,
  some, ltb, leb, ◌==◌, if◌then◌else◌,
}
use elfboot.Base.Run.{Run, ok, fault, out_of_fuel, ◌>>=◌, ◌>>◌, assert}
use elfboot.Core.{add32, sub32, round_up, round_down, clamp}

abbrev pub page_size : ℕ
page_size = 4096

abbrev pub memblock_max_regions : ℕ
memblock_max_regions = 8

abbrev pub memblock_start : ℕ
memblock_start = 0x010000

abbrev pub memblock_limit : ℕ
memblock_limit = 0x100000

-- `(int)0xffffffff`, as the bit pattern.
abbrev pub memblock_invld : ℕ
memblock_invld = 0xffff_ffff

pub record Region : Type 0 where
  pub base : ℕ
  pub size : ℕ

abbrev pub region : ℕ → ℕ → Region
region base size = record { base = base; size = size }

abbrev pub memblock_beg : Region → ℕ
memblock_beg r = r.base

abbrev pub memblock_end : Region → ℕ
memblock_end r = add32 r.base r.size

pub record MemblockType : Type 0 where
  pub cnt : ℕ
  pub total_size : ℕ
  pub regions : ℕ → Region

pub record Memblock : Type 0 where
  pub bootmem : MemblockType
  pub kernmem : MemblockType

-- Reading and writing `type->regions[i]`.
unfoldable pub load : MemblockType → ℕ → Run Region
load t i = assert (ltb i memblock_max_regions) >> ok (t.regions i)

abbrev pub update : (ℕ → Region) → ℕ → Region → ℕ → Region
update r i v j = if j == i then v else r j

unfoldable pub store : MemblockType → ℕ → Region → Run MemblockType
store t i v =
    assert (ltb i memblock_max_regions) >> ok (record t { regions = update t.regions i v })

abbrev pub move : (ℕ → Region) → ℕ → ℕ → ℕ → ℕ → Region
move r dst src n i = if leb dst i && ltb i (dst + n) then r (src + (i - dst)) else r i

-- `memmove(&regions[dst], &regions[src], n * sizeof(struct memblock_region))`.
unfoldable pub memmove : MemblockType → ℕ → ℕ → ℕ → Run MemblockType
memmove t dst src n =
    assert (n == 0 || leb (dst + n) memblock_max_regions && leb (src + n) memblock_max_regions)
    >> ok (record t { regions = move t.regions dst src n })

-- The adjusted base and size, and the returned end.
unfoldable pub memblock_adjust_region : ℕ → ℕ → ℕ × ℕ × ℕ
memblock_adjust_region base size =
    let nbase = round_down base page_size in
    let limit = round_up (add32 base size) page_size in
    let nsize = sub32 limit nbase in (nbase, nsize, add32 nbase nsize)

-- The first half of `memblock_fusion_region`: the predecessor.
unfoldable pub fuse_previous : MemblockType → ℕ → Run MemblockType
fuse_previous t index = if index == 0 then ok t else do
  prvreg ← load t (index - 1)
  reg ← load t index
  if memblock_end prvreg == memblock_beg reg
      then (do
        t' ← store t index (region prvreg.base (add32 reg.size prvreg.size))
        memmove t' (index - 1) index (sub32 t.cnt index))
      else ok t

-- The second half: the successor.
unfoldable pub fuse_next : MemblockType → ℕ → Run MemblockType
fuse_next t index =
    if ltb index t.cnt
    then (do
      nxtreg ← load t (index + 1)
      reg ← load t index
      if memblock_end reg == memblock_beg nxtreg
          then (do
            t' ← store t (index + 1) (region reg.base (add32 nxtreg.size reg.size))
            memmove t' index (index + 1) (sub32 t.cnt (index + 1)))
          else ok t)
    else ok t

unfoldable pub memblock_fusion_region : MemblockType → ℕ → Run MemblockType
memblock_fusion_region t index =
    if t.cnt == 1 then ok t else do t' ← fuse_previous t index; fuse_next t' index

unfoldable pub memblock_insert_region : MemblockType → ℕ → ℕ → ℕ → Run MemblockType
memblock_insert_region t index base size = do
  t' ← memmove t (index + 1) index (sub32 t.cnt index)
  t'' ← store t' index (region base size)
  ok (record t'' { total_size = add32 t.total_size size; cnt = t.cnt + 1 })

-- What one round of a loop leads to: its end, or another round.
pub data Round (A : Type 0) (S : Type 0) : Type 0 where
  stop : A → Round A S
  visit : S → Round A S

-- One round of the loop of `memblock_add_region`, at index `i`; `base` is its variable.
unfoldable pub add_step :
    ℕ → MemblockType → ℕ → ℕ → Run (Round (MemblockType × ℕ × ℕ) (MemblockType × ℕ × ℕ))
add_step nend t i base = do
  reg ← load t i
  let rbeg = memblock_beg reg
  let rend = memblock_end reg
  if leb nend rbeg
      then ok (stop (t, i, base))
      else if leb rend base
      then ok (visit (t, i + 1, base))
      else if leb base rbeg
      then (do
        t' ← memblock_insert_region t i base (sub32 rbeg base)
        ok (visit (t', i + 1 + 1, min rend nend)))
      else ok (visit (t, i + 1, min rend nend))

-- The loop: the table, the index and the base that it ends with.
unfoldable pub add_loop : ℕ → ℕ → MemblockType → ℕ → ℕ → Run (MemblockType × ℕ × ℕ)
add_loop nend zero t i base = out_of_fuel
add_loop nend (suc k) t i base =
    if not (ltb i t.cnt)
    then ok (t, i, base)
    else add_step nend t i base >>= λ r. elim r [
      | stop result ↦ ok result
      | visit (t', i', base') ↦ add_loop nend k t' i' base'
    ]

unfoldable pub memblock_add_region : MemblockType → ℕ → ℕ → Run MemblockType
memblock_add_region t base₀ size₀ =
    let (base, size, nend) = memblock_adjust_region base₀ size₀ in
    do
      first ← load t 0
      if first.size == 0
          then (do
            t' ← store t 0 (region base size)
            ok (record t' { total_size = add32 t.total_size size }))
          else (do
            (t', i, rest) ← add_loop nend (t.cnt + 1) t 0 base
            t'' ←
                if ltb rest nend then memblock_insert_region t' i rest (sub32 nend rest) else ok t'
            memblock_fusion_region t'' i)

-- One round of the loop of `memblock_del_region`; `base` and `dbeg` are its variables. A result is
-- what the function returns, with the table. A region that becomes empty is moved over, and its
-- index is visited again.
unfoldable pub del_step :
    ℕ → MemblockType → ℕ → ℕ → ℕ → Run (Round (ℕ × MemblockType) (MemblockType × ℕ × ℕ × ℕ))
del_step nend t i base dbeg = do
  reg ← load t i
  let rbeg = memblock_beg reg
  let rend = memblock_end reg
  let mbeg = max rbeg base
  let mend = min rend nend
  let dbeg' = if dbeg == 0 then mbeg else dbeg
  let left = sub32 reg.size (sub32 mend mbeg)
  let total = sub32 t.total_size (sub32 mend mbeg)
  if leb nend rbeg
      then ok (stop (dbeg, t))
      else if leb rend base
      then ok (visit (t, i + 1, base, dbeg))
      else if ltb rbeg base && ltb nend rend
      then (do
        t' ← store t i (region rbeg (sub32 base rbeg))
        t'' ← memblock_insert_region t' (i + 1) nend (sub32 rend nend)
        ok (stop (base, t'')))
      else if left == 0
      then (do
        t' ← store t i (region rbeg left)
        t'' ← memmove t' i (i + 1) (sub32 t.cnt (i + 1))
        ok (visit (record t'' { total_size = total; cnt = t.cnt - 1 }, i, base, dbeg')))
      else if leb base rbeg
      then (do
        t' ← store t i (region nend left)
        ok (stop (base, record t' { total_size = total })))
      else (do
        t' ← store t i (region rbeg left)
        let base' = if leb rend nend then rend else base
        ok (visit (record t' { total_size = total }, i + 1, base', dbeg')))

unfoldable pub del_loop : ℕ → ℕ → MemblockType → ℕ → ℕ → ℕ → Run (ℕ × MemblockType)
del_loop nend zero t i base dbeg = out_of_fuel
del_loop nend (suc k) t i base dbeg =
    if not (ltb i t.cnt)
    then ok (dbeg, t)
    else del_step nend t i base dbeg >>= λ r. elim r [
      | stop result ↦ ok result
      | visit (t', i', base', dbeg') ↦ del_loop nend k t' i' base' dbeg'
    ]

unfoldable pub memblock_del_region : MemblockType → ℕ → ℕ → Run (ℕ × MemblockType)
memblock_del_region t base₀ size₀ =
    let (base, _, nend) = memblock_adjust_region base₀ size₀ in
    del_loop nend (t.cnt + 1) t 0 base memblock_invld

unfoldable pub memblock_add : Memblock → ℕ → ℕ → Run Memblock
memblock_add m base size = do
  t ← memblock_add_region m.bootmem base size
  ok (record m { bootmem = t })

unfoldable pub memblock_add_kernel : Memblock → ℕ → ℕ → Run Memblock
memblock_add_kernel m base size = do
  t ← memblock_add_region m.kernmem base size
  ok (record m { kernmem = t })

-- `__memblock_reserve`: whether the deletion returned something else than `MEMBLOCK_INVLD`.
unfoldable pub reserve_region : MemblockType → ℕ → ℕ → Run (Bool × MemblockType)
reserve_region t base size = do
  (ret, t') ← memblock_del_region t base size
  ok (not (ret == memblock_invld), t')

unfoldable pub memblock_reserve : Memblock → ℕ → ℕ → Run (Bool × Memblock)
memblock_reserve m base size = do
  (ret, t) ← memblock_del_region m.bootmem base size
  ok (not (ret == memblock_invld), record m { bootmem = t })

-- The loop of `memblock_find_in_range`, with the rounds left.
unfoldable pub find_loop : MemblockType → ℕ → ℕ → ℕ → ℕ → ℕ → ℕ → Run ℕ
find_loop t size align start end zero i = ok 0
find_loop t size align start end (suc k) i = do
  reg ← load t i
  let rbeg = clamp (memblock_beg reg) start end
  let rend = clamp (memblock_end reg) start end
  let cand = round_up rbeg align
  let next = find_loop t size align start end k (i + 1)
  if ltb cand rend && leb size (rend - cand) then ok cand else next

unfoldable pub memblock_find_in_range : MemblockType → ℕ → ℕ → ℕ → ℕ → Run ℕ
memblock_find_in_range t size align start end = find_loop t size align start end t.cnt 0

unfoldable pub memblock_alloc_range : MemblockType → ℕ → ℕ → ℕ → ℕ → Run (ℕ × MemblockType)
memblock_alloc_range t size align start end = do
  base ← memblock_find_in_range t size align start end
  if base == 0
      then ok (0, t)
      else do (done, t') ← reserve_region t base size; ok (if done then base else 0, t')

-- A null pointer is `none`.
unfoldable pub memblock_alloc_internal :
    MemblockType → ℕ → ℕ → ℕ → ℕ → Run (Option ℕ × MemblockType)
memblock_alloc_internal t size align start end = do
  (base, t') ← memblock_alloc_range t size align start end
  ok (if base == 0 then none else some base, t')

unfoldable pub memblock_alloc : Memblock → ℕ → ℕ → Run (Option ℕ × Memblock)
memblock_alloc m size align = do
  (p, t) ← memblock_alloc_internal m.bootmem size align memblock_start memblock_limit
  ok (p, record m { bootmem = t })

unfoldable pub memblock_alloc_kernel : Memblock → ℕ → ℕ → Run (Option ℕ × Memblock)
memblock_alloc_kernel m size align = do
  (p, t) ← memblock_alloc_internal m.kernmem size align memblock_limit memblock_invld
  ok (p, record m { kernmem = t })
