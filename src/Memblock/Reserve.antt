-- ===== src/Memblock/Reserve.antt =====
-- src/mm/memblock.c: `memblock_del_region` on the addresses of a table.
use elfboot.Base.{
  ℕ, ◌+◌, ◌-◌, ◌*◌, ◌/◌, ◌%◌, ◌^◌, ◌≤◌, ◌<◌, ◌≡◌, not, ◌&&◌, List, arith, ◌∙◌, subst,
}
use elfboot.Base.Run.{ok}
use elfboot.Core.Round.{round_down_lem, round_up_lem}
use elfboot.Core.{round_up, round_down}
use elfboot.Memblock.{
  Region, MemblockType, page_size, memblock_adjust_region, memblock_del_region, memblock_invld,
  del_loop,
}
use elfboot.Memblock.Slots.{live, seg}
use elfboot.Memblock.Table.{in_range, covers, IsTable}
use elfboot.Memblock.Delete.{removal}
use elfboot.Memblock.Delete.Agreement.{Agrees, Agrees-loop}
use elfboot.Memblock.Delete.Coverage.{removal-covers, removal-IsTable}

-- The page boundaries at or below, and at or above an address.
abbrev pub page_floor : ℕ → ℕ
page_floor a = a / 4096 * 4096

abbrev pub page_ceil : ℕ → ℕ
page_ceil a = (a + 4095) / 4096 * 4096

-- The last address at which a range may end, so that rounding up does not wrap.
abbrev pub top : ℕ
top = 2 ^ 32 - 4096

page_up : (x : ℕ) → x ≤ top → round_up x page_size ≡ page_ceil x
page_up x h = let (a, b, c) = round_up_lem x 12 h (omega arith) in omega arith

page_down : (x : ℕ) → x < 2 ^ 32 → round_down x page_size ≡ page_floor x
page_down x h = round_down_lem x 12 h (omega arith) ∙ omega arith

pub memblock_adjust_region_lem :
    (base size : ℕ)
    → base + size ≤ top
    → memblock_adjust_region base size
      ≡ (page_floor base, page_ceil (base + size) - page_floor base, page_ceil (base + size))
unfolding memblock_adjust_region
memblock_adjust_region_lem base size h =
    let e : (base + size) % 2 ^ 32 ≡ base + size = omega arith in
    rw (page_down base (omega arith), e, page_up (base + size) h) (ground arith)

-- The removal that `memblock_del_region` makes.
abbrev pub removed : MemblockType → ℕ → ℕ → ℕ × List Region
removed t base size = removal (page_ceil (base + size)) (page_floor base) memblock_invld (live t)

-- The table `u` is what `t` is without the pages of `[base, base + size)`.
pub record Without (base size : ℕ) (t u : MemblockType) : Type 0 where
  pub sorted : IsTable 0 (live u)
  pub coverage :
      (a : ℕ)
      → covers a (live u)
        ≡ (covers a (live t) && not (in_range (page_floor base) (page_ceil (base + size)) a))

module _ (t : MemblockType) (base size : ℕ) (fits : base + size ≤ top) where
  pub removed-Without :
      IsTable 0 (live t)
      → (u : MemblockType) → live u ≡ (removed t base size).1
      → Without base size t u
  removed-Without sorted u left =
      let nend = page_ceil (base + size) in
      let low = page_floor base in
      record {
        sorted = rw left (
            removal-IsTable nend 0 (omega arith) low memblock_invld 0 (live t) sorted
              (omega arith));
        coverage = λ a. rw left (
            removal-covers nend a (omega arith) low memblock_invld 0 (live t) sorted (omega arith));
      }

  pub memblock_del_region-removed :
      t.cnt < 8
      → (t' : MemblockType) × (memblock_del_region t base size ≡ ok ((removed t base size).0, t'))
        × (live t' ≡ (removed t base size).1)
  unfolding memblock_del_region Agrees seg
  memblock_del_region-removed room =
      let nend = page_ceil (base + size) in
      let low = page_floor base in
      let whole : t.cnt - 0 ≡ t.cnt = omega arith in
      rw (memblock_adjust_region_lem base size fits) (
        subst
          (λ n.
            Agrees t 0 (removal nend low memblock_invld (seg t.regions 0 n))
              (del_loop nend (t.cnt + 1) t 0 low memblock_invld))
          whole
          (Agrees-loop nend (t.cnt + 1) t 0 low memblock_invld (omega arith) (omega arith) room))

  -- For a range that ends a page or more below `2 ^ 32`, and a sorted table with a slot to spare,
  -- deletion ends without a fault. The table stays sorted, and loses the addresses of the pages of
  -- the range and no others.
  pub memblock_del_region-Without :
      IsTable 0 (live t)
      → t.cnt < 8
      → (ret : ℕ) × (u : MemblockType) × (memblock_del_region t base size ≡ ok (ret, u))
        × Without base size t u
  memblock_del_region-Without sorted room =
      let (u, run, left) = memblock_del_region-removed room in
      ((removed t base size).0, u, run, removed-Without sorted u left)
