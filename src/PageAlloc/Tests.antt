-- ===== src/PageAlloc/Tests.antt =====
-- Runs of the page allocator, and the theorems at concrete regions.
use elfboot.Base.{
  ◌<◌, ℕ, ◌+◌, ◌*◌, ◌/◌, ◌==◌, ◌||◌, if◌then◌else◌, ◌^◌, ◌≡◌, refl, false, some, List, [], ◌∷◌,
  arith,
}
use elfboot.Base.Run.{ok, ◌>>=◌}
use elfboot.Memblock.{region}
use elfboot.PageAlloc.{
  Pages, change, get_page, set_page, page_buddy, free_page_add, is_linked, free_page_del,
  free_area_get_first, set_heads, page_set_compound_head, fix_loop, free_page_fix, find_area,
  take_pages, get_free_pages, alloc_pages, merge_pages, merge_loop, merge_free_page, free_pages,
  free_page, page_map_free_region,
}
use elfboot.PageAlloc.Buddy.{Buddies, page_buddy-Buddies}
use elfboot.PageAlloc.Bootmem.{Tiles, appended, page_map_free_region-Tiles}

abbrev none_free : Pages
none_free = record {
  page_map = λ p. record {
    is_free = false;
    paddr = 0;
    order = 0;
    compound_head = 0;
    slab_cache = 0;
    inuse = 0;
    freelist = [];
  };
  nr_free = λ order. 0;
  areas = λ order. [];
}

page_buddy-Buddies_example : (b : ℕ) × (b < 2 ^ 20) × Buddies 3 (5 * 2 ^ 3) b
page_buddy-Buddies_example = page_buddy-Buddies 5 3 (omega arith) (omega arith)

page_map_free_region-Tiles_example :
    (s' : Pages) × (blocks : List (ℕ × ℕ)) × (page_map_free_region none_free
        (region 0x1_1000 0x8000)
      ≡ ok s')
    × Tiles 0x1_1000 (0x1_1000 + 0x8000) blocks
    × (s'.areas ≡ appended none_free.areas blocks)
page_map_free_region-Tiles_example =
    page_map_free_region-Tiles none_free (region 0x1_1000 0x8000) 17 8 refl refl (omega arith)

-- A free block of four pages, from which one page is split off.
abbrev some_free : Pages
some_free = record none_free {
  page_map = λ p. record {
    is_free = p / 4 == 4;
    paddr = p * 4096;
    order = 2;
    compound_head = 16;
    slab_cache = 0;
    inuse = 0;
    freelist = [];
  };
  nr_free = change none_free.nr_free 2 1;
  areas = change none_free.areas 2 (16 ∷ []);
}

splits :
    (s : Pages) × (alloc_pages some_free 0 ≡ ok (some 16, s))
    × (s.areas 0 ≡ 17 ∷ [])
    × (s.areas 1 ≡ 18 ∷ [])
    × (s.areas 2 ≡ [])
unfolding alloc_pages get_free_pages find_area free_area_get_first take_pages is_linked
    free_page_del free_page_fix fix_loop get_page set_page page_buddy free_page_add
    page_set_compound_head set_heads
splits = (_, refl, refl, refl, refl)

-- The areas of the first three orders.
abbrev areas_of : Pages → List ℕ × List ℕ × List ℕ
areas_of s = (s.areas 0, s.areas 1, s.areas 2)

-- Freeing the page again merges both splits.
merges :
    (do (_, s) ← alloc_pages some_free 0; t ← free_page s 0x1_0000; ok (areas_of t))
    ≡ ok ([], [], 16 ∷ [])
unfolding alloc_pages get_free_pages find_area free_area_get_first take_pages is_linked
    free_page_del free_page_fix fix_loop get_page set_page page_buddy free_page_add
    page_set_compound_head set_heads free_page free_pages merge_free_page merge_loop merge_pages
merges = refl

-- Pages 16 and 17 are an allocated block, page 18 is free, and page 19 is allocated.
abbrev half_free : Pages
half_free = record none_free {
  page_map = λ p. record {
    is_free = p == 18;
    paddr = p * 4096;
    order = if p == 16 || p == 17 then 1 else 0;
    compound_head = 16;
    slab_cache = 0;
    inuse = 0;
    freelist = [];
  };
  nr_free = change none_free.nr_free 0 1;
  areas = change none_free.areas 0 (18 ∷ []);
}

-- Freeing the block merges it with page 18: the free block of order 2 at page 16 contains page 19.
overlaps : (do t ← free_page half_free 0x1_0000; ok (areas_of t)) ≡ ok ([], [], 16 ∷ [])
unfolding get_page set_page page_buddy free_page_add is_linked free_page_del page_set_compound_head
    set_heads free_page free_pages merge_free_page merge_loop merge_pages
overlaps = refl
