-- ===== src/Bmalloc/Tests.antt =====
-- Runs of the allocator by size, and the theorems at concrete sizes.
use elfboot.Base.{ℕ, ◌^◌, ◌≡◌, arith}
use elfboot.Base.Int.{pos}
use elfboot.Base.Run.{ok}
use elfboot.Bmalloc.{bmalloc_index, slab_objects, calculate_cache_order}
use elfboot.Bmalloc.Sizes.{SizeClass, bmalloc_index-SizeClass, Fills, slab_objects-Fills}

bmalloc_index-SizeClass_example : (i : ℕ) × (bmalloc_index 100 ≡ ok (pos i)) × SizeClass 100 i
bmalloc_index-SizeClass_example = bmalloc_index-SizeClass 100 (omega arith) (omega arith)

slab_objects-Fills_example :
    (nums : ℕ) × (slab_objects (2 ^ 6) ≡ ok nums)
    × Fills (2 ^ 6) nums (calculate_cache_order (2 ^ 6))
slab_objects-Fills_example = slab_objects-Fills 6 (omega arith)
