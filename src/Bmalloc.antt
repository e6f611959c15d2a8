-- ===== src/Bmalloc.antt =====
-- src/mm/slub.c and src/mm/util.c: `bmalloc` and its caches by size, the creation of caches, and
-- the copies of strings. A null pointer is `none`, or 0 in `bmalloc_caches`.
pub mod Sizes
mod Tests
use elfboot.Base.{
  ℕ, zero, suc, ◌+◌, ◌-◌, ◌*◌, ◌/◌, ◌^◌, Bool, true, false, not, ◌&&◌, Option, none, some, List, [],
  ◌∷◌, get_or, length, ltb, leb, ◌==◌, if◌then◌else◌, min, max,
}
use elfboot.Base.Int.{ℤ, pos, negsuc, sub_ℕ}
use elfboot.Base.Run.{Run, ok, fault, ◌>>=◌}
use elfboot.Core.{u32, add32, sub32}
use elfboot.Math.{log2, round_up_pow2}
use elfboot.Memblock.{page_size}
use elfboot.PageAlloc.{change}
use elfboot.Str.{strlen}
use elfboot.Slub.{
  Ctor, no_ctor, cache_ctor, BmemCache, Slub, set_cache, bmem_cache_init, bmem_cache_alloc, bfree,
}

abbrev pub kmalloc_cache_num : ℕ
kmalloc_cache_num = 13

abbrev pub kmalloc_min_size : ℕ
kmalloc_min_size = 8

abbrev pub kmalloc_min_shift : ℕ
kmalloc_min_shift = 0

-- The address of the static `bmem_cache`, which no object has.
abbrev pub bmem_cache : ℕ
bmem_cache = 0

-- `sizeof(struct bmem_cache)`
abbrev pub bmem_cache_size : ℕ
bmem_cache_size = 64

-- The sizes of `bmalloc_info`, and what its names end in.
abbrev pub bmalloc_info : List (ℕ × List ℕ)
bmalloc_info =
    (0x8, 56 ∷ [])
    ∷ (0x10, 49 ∷ 54 ∷ [])
    ∷ (0x20, 51 ∷ 50 ∷ [])
    ∷ (0x40, 54 ∷ 52 ∷ [])
    ∷ (0x80, 49 ∷ 50 ∷ 56 ∷ [])
    ∷ (0x100, 50 ∷ 53 ∷ 54 ∷ [])
    ∷ (0x200, 53 ∷ 49 ∷ 50 ∷ [])
    ∷ (0x400, 49 ∷ 48 ∷ 50 ∷ 52 ∷ [])
    ∷ (0x800, 50 ∷ 48 ∷ 52 ∷ 56 ∷ [])
    ∷ (0x1000, 52 ∷ 48 ∷ 57 ∷ 54 ∷ [])
    ∷ (0x2000, 56 ∷ 49 ∷ 57 ∷ 50 ∷ [])
    ∷ (0x4000, 49 ∷ 54 ∷ 51 ∷ 56 ∷ 52 ∷ [])
    ∷ (0x8000, 51 ∷ 50 ∷ 55 ∷ 54 ∷ 56 ∷ [])
    ∷ []

-- "bmalloc-" and the rest.
abbrev pub bmalloc_name : List ℕ → List ℕ
bmalloc_name digits = 98 ∷ 109 ∷ 97 ∷ 108 ∷ 108 ∷ 111 ∷ 99 ∷ 45 ∷ digits

-- `log2(size) - 3` of the rounded size.
unfoldable pub size_index : ℕ → ℤ
size_index size =
    if leb size kmalloc_min_size
    then pos kmalloc_min_shift
    else if ltb kmalloc_min_size size && leb size (2 ^ 15)
    then elim (log2 size) [ pos n ↦ sub_ℕ n 3 | negsuc n ↦ negsuc (n + 3) ]
    else negsuc 0

unfoldable pub bmalloc_index : ℕ → Run ℤ
bmalloc_index size =
    if size == 0 then ok (pos 0) else (do rounded ← round_up_pow2 size; ok (size_index rounded))

-- An entry of `bmalloc_caches`, which has `kmalloc_cache_num`.
unfoldable pub bmalloc_entry : Slub → ℤ → Run ℕ
bmalloc_entry s (pos i) = if ltb i kmalloc_cache_num then ok (s.bmalloc_caches i) else fault
bmalloc_entry s (negsuc i) = ok 0

unfoldable pub bmalloc_cache : Slub → ℕ → Run ℕ
bmalloc_cache s size = do index ← bmalloc_index size; bmalloc_entry s index

-- `log2(size - 1) + 1` as a `uint32_t`.
unfoldable pub cache_shift : ℤ → ℕ
cache_shift (pos n) = n + 1
cache_shift (negsuc n) = u32 (2 ^ 32 - n)

unfoldable pub calculate_cache_order : ℕ → ℕ
calculate_cache_order size = let ret = cache_shift (log2 (sub32 size 1)) in ret - min ret 12

unfoldable pub bmalloc : Slub → ℕ → Run (Option ℕ × Slub)
bmalloc s size = do c ← bmalloc_cache s size; if c == 0 then ok (none, s) else bmem_cache_alloc s c

-- `n` bytes from `addr` on.
abbrev pub fill : (ℕ → ℕ) → ℕ → List ℕ → ℕ → ℕ
fill memory addr [] = memory
fill memory addr (c ∷ bytes) = fill (change memory addr c) (addr + 1) bytes

abbrev pub zeros : ℕ → List ℕ
zeros zero = []
zeros (suc n) = 0 ∷ zeros n

abbrev pub put_bytes : Slub → ℕ → List ℕ → Slub
put_bytes s addr bytes = record s { memory = fill s.memory addr bytes }

unfoldable pub bzalloc : Slub → ℕ → Run (Option ℕ × Slub)
bzalloc s size = do
  (obj, s') ← bmalloc s size
  elim obj [ none ↦ ok (none, s') | some objp ↦ ok (some objp, put_bytes s' objp (zeros size)) ]

abbrev pub terminated : List ℕ → List ℕ
terminated [] = 0 ∷ []
terminated (c ∷ str) = c ∷ terminated str

unfoldable pub bstrdup : Slub → Option (List ℕ) → Run (Option ℕ × Slub)
bstrdup s none = ok (none, s)
bstrdup s (some str) = do
  (obj, s') ← bmalloc s (strlen str + 1)
  elim obj [ none ↦ ok (none, s') | some buf ↦ ok (some buf, put_bytes s' buf (terminated str)) ]

-- `is_elfboot_rodata`, with the bounds of the section as arguments.
unfoldable pub is_elfboot_rodata : ℕ → ℕ → ℕ → Bool
is_elfboot_rodata rodata_start rodata_end addr = leb rodata_start addr && ltb addr rodata_end

unfoldable pub bfree_const : ℕ → ℕ → Slub → ℕ → Run Slub
bfree_const rodata_start rodata_end s ptr =
    if not (is_elfboot_rodata rodata_start rodata_end ptr) then bfree s ptr else ok s

-- `PAGE_SIZE / size`, one object at least.
unfoldable pub slab_objects : ℕ → Run ℕ
slab_objects size = if size == 0 then fault else ok (max (page_size / size) 1)

-- The members that are set when a cache is created, and the new cache on the list.
unfoldable pub describe : Slub → ℕ → List ℕ → ℕ → Run Slub
describe s c name size = do
  nums ← slab_objects size
  ok (
      set_cache s c (record (s.caches c) {
        name = name;
        size = size;
        nums = nums;
        order = calculate_cache_order size;
      }))

abbrev pub add_cache : Slub → ℕ → Slub
add_cache s c = record s { bmem_caches = c ∷ s.bmem_caches }

-- What `bmem_cache_create` does with the cache that it allocated, from the copied name on.
unfoldable pub create_named : Slub → ℕ → Option (List ℕ) → ℕ → Ctor → Run (Option ℕ × Slub)
create_named s c none size ctor = do s' ← bfree s c; ok (none, s')
create_named s c (some name) size ctor = do
  rounded ← round_up_pow2 size
  s₁ ← describe s c name rounded
  let s₂ = set_cache s₁ c (record (s₁.caches c) { ctor = ctor })
  ok (some c, add_cache s₂ c)

-- The name, where the copy succeeded.
abbrev pub copied : Option ℕ → List ℕ → Option (List ℕ)
copied none name = none
copied (some buf) name = some name

unfoldable pub bmem_cache_create : Slub → List ℕ → ℕ → Ctor → Run (Option ℕ × Slub)
bmem_cache_create s name size ctor = do
  (cache, s₁) ← bmem_cache_alloc s bmem_cache
  elim cache [
    | none ↦ ok (none, s₁)
    | some c ↦ do (buf, s₂) ← bstrdup s₁ (some name); create_named s₂ c (copied buf name) size ctor
  ]

unfoldable pub bmalloc_create_cache : Slub → ℕ × List ℕ → Run (Option ℕ × Slub)
bmalloc_create_cache s info = do
  (cache, s₁) ← bmem_cache_alloc s bmem_cache
  elim cache [
    | none ↦ ok (none, s₁)
    | some c ↦ do s₂ ← describe s₁ c (bmalloc_name info.1) info.0; ok (some c, s₂)
  ]

abbrev set_entry : Slub → ℕ → ℕ → Slub
set_entry s i c = record s { bmalloc_caches = change s.bmalloc_caches i c }

-- The loop of `bmalloc_create_all_caches`, by the entries left, from the entry `i` on: whether the
-- result is 0.
unfoldable pub create_caches : List (ℕ × List ℕ) → Slub → ℕ → Run (Bool × Slub)
create_caches [] s i = ok (true, s)
create_caches (info ∷ infos) s i = do
  (cache, s₁) ← bmalloc_create_cache s info
  elim cache [
    | none ↦ ok (false, set_entry s₁ i 0)
    | some c ↦ create_caches infos (add_cache (set_entry s₁ i c) c) (i + 1)
  ]

unfoldable pub bmalloc_create_all_caches : Slub → Run (Bool × Slub)
bmalloc_create_all_caches s = create_caches bmalloc_info s 0

-- "bmem_cache"
abbrev pub boot_name : List ℕ
boot_name = 98 ∷ 109 ∷ 101 ∷ 109 ∷ 95 ∷ 99 ∷ 97 ∷ 99 ∷ 104 ∷ 101 ∷ []

unfoldable pub bmalloc_create_boot_cache : Slub → Run Slub
bmalloc_create_boot_cache s = do
  size ← round_up_pow2 bmem_cache_size
  s₁ ← describe (bmem_cache_init bmem_cache s) bmem_cache boot_name size
  let s₂ = set_cache s₁ bmem_cache (record (s₁.caches bmem_cache) { ctor = cache_ctor })
  ok (add_cache s₂ bmem_cache)

-- Whether the result is 0.
unfoldable pub bmalloc_init : Slub → Run (Bool × Slub)
bmalloc_init s = do s' ← bmalloc_create_boot_cache s; bmalloc_create_all_caches s'
