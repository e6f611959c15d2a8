-- ===== src/Memblock/Slots.antt =====
-- src/mm/memblock.c: the array of regions read as a list: what writing one slot and moving a range of slots do to it.
use mathlib.Core.List.{append_assoc}
use elfboot.Base.{
  ℕ, zero, suc, ◌+◌, ◌-◌, ◌≤◌, ◌<◌, ◌≡◌, refl, ap, ap₂, ◌∙◌, List, [], ◌∷◌, ◌++◌, arith, ltb, leb,
  ◌==◌, true, ◌||◌, ◌&&◌,
}
use elfboot.Memblock.{
  Region, region, MemblockType, update, move, load, store, memmove, memblock_insert_region,
}
use elfboot.Base.Run.{ok}
use elfboot.Core.{add32, sub32}

-- The `n` slots from index `i` on.
unfoldable pub seg : (ℕ → Region) → ℕ → ℕ → List Region
seg r i zero = []
seg r i (suc n) = r i ∷ seg r (i + 1) n

-- The regions that the table counts.
abbrev pub live : MemblockType → List Region
live t = seg t.regions 0 t.cnt

pub seg_cong :
    (r s : ℕ → Region) (i j n : ℕ)
    → ((a b : ℕ) → i ≤ a → a < i + n → a + j ≡ b + i → r a ≡ s b)
    → seg r i n ≡ seg s j n
unfolding seg
seg_cong r s i j zero h = refl
seg_cong r s i j (suc n) h =
    ap₂ ◌∷◌ (h i j (omega arith) (omega arith) (omega arith))
      (seg_cong r s (i + 1) (j + 1) n λ a b p q e. h a b (omega arith) (omega arith) (omega arith))

-- At equal indices.
pub seg_ext :
    (r s : ℕ → Region) (i n : ℕ) → ((a : ℕ) → i ≤ a → a < i + n → r a ≡ s a) → seg r i n ≡ seg s i n
seg_ext r s i n h =
    seg_cong r s i i n λ a b p q e. let same : a ≡ b = omega arith in h a p q ∙ ap s same

module _ (r : ℕ → Region) where
  pub seg-append : (i n m : ℕ) → seg r i (n + m) ≡ seg r i n ++ seg r (i + n) m
  unfolding seg
  seg-append i zero m =
      let e : 0 + m ≡ m = omega arith in let f : i + 0 ≡ i = omega arith in rw (e, f)
  seg-append i (suc n) m =
      let e : suc n + m ≡ suc (n + m) = omega arith in
      let f : i + suc n ≡ i + 1 + n = omega arith in
      rw (e, f) (ap (◌∷◌ (r i)) (seg-append (i + 1) n m))

  pub seg_step : (i n : ℕ) → i < n → seg r i (n - i) ≡ r i ∷ seg r (i + 1) (n - (i + 1))
  unfolding seg
  seg_step i n h = let e : n - i ≡ suc (n - (i + 1)) = omega arith in rw e

  pub seg_split : (i n : ℕ) → i ≤ n → seg r 0 n ≡ seg r 0 i ++ seg r i (n - i)
  seg_split i n h =
      let e : n ≡ i + (n - i) = omega arith in
      let f : 0 + i ≡ i = omega arith in
      ap (seg r 0) e ∙ seg-append 0 i (n - i) ∙ ap (λ (a : ℕ). seg r 0 i ++ seg r a (n - i)) f

  pub seg_snoc : (i : ℕ) → seg r 0 (i + 1) ≡ seg r 0 i ++ r i ∷ []
  unfolding seg
  seg_snoc i =
      let f : 0 + i ≡ i = omega arith in seg-append 0 i 1 ∙ ap (λ (a : ℕ). seg r 0 i ++ r a ∷ []) f

  -- A write behind a segment, and one before it.
  pub seg-update_after : (v : Region) (i j n : ℕ) → i + n ≤ j → seg (update r j v) i n ≡ seg r i n
  seg-update_after v i j n h = seg_ext _ r i n (λ a p q. ground arith)

  pub seg-update_before : (v : Region) (i j n : ℕ) → j < i → seg (update r j v) i n ≡ seg r i n
  seg-update_before v i j n h = seg_ext _ r i n (λ a p q. ground arith)

  -- Moving the slots behind `i` down by one.
  pub seg-move_down_before : (i n : ℕ) → seg (move r i (i + 1) n) 0 i ≡ seg r 0 i
  seg-move_down_before i n = seg_ext _ r 0 i (λ a p q. ground arith)

  pub seg-move_down : (i n : ℕ) → seg (move r i (i + 1) n) i n ≡ seg r (i + 1) n
  seg-move_down i n =
      seg_cong _ r i (i + 1) n
        λ a b p q e. let f : i + 1 + (a - i) ≡ b = omega arith in ground arith

  -- Moving the slots from `i` on up by one.
  pub seg-move_up_before : (i n : ℕ) → seg (move r (i + 1) i n) 0 i ≡ seg r 0 i
  seg-move_up_before i n = seg_ext _ r 0 i (λ a p q. ground arith)

  pub seg-move_up : (i n : ℕ) → seg (move r (i + 1) i n) (i + 1) n ≡ seg r i n
  seg-move_up i n =
      seg_cong _ r (i + 1) i n
        λ a b p q e. let f : i + (a - (i + 1)) ≡ b = omega arith in ground arith

-- Accesses inside the array.
module _ (t : MemblockType) where
  pub load_ok : (i : ℕ) → i < 8 → load t i ≡ ok (t.regions i)
  unfolding load
  load_ok i h = ground arith

  pub store_ok :
      (i : ℕ) (v : Region) → i < 8 → store t i v ≡ ok (record t { regions = update t.regions i v })
  unfolding store
  store_ok i v h = let e : ltb i 8 ≡ true = ground arith in rw e

  pub memmove_ok :
      (dst src n : ℕ)
      → dst + n ≤ 8
      → src + n ≤ 8
      → memmove t dst src n ≡ ok (record t { regions = move t.regions dst src n })
  unfolding memmove
  memmove_ok dst src n h g =
      let e : (n == 0 || leb (dst + n) 8 && leb (src + n) 8) ≡ true = ground arith in rw e

-- The table after an insertion.
abbrev pub insert_table : MemblockType → ℕ → ℕ → ℕ → MemblockType
insert_table t index base size = record {
  cnt = t.cnt + 1;
  total_size = add32 t.total_size size;
  regions = update (move t.regions (index + 1) index (t.cnt - index)) index (region base size);
}

pub update_self : (r : ℕ → Region) (i : ℕ) (v : Region) → update r i v i ≡ v
update_self r i v = ground arith

-- Writing slot `i`, seen from the front.
pub seg-update_last :
    (r : ℕ → Region) (i : ℕ) (v : Region) → seg (update r i v) 0 (i + 1) ≡ seg r 0 i ++ v ∷ []
seg-update_last r i v =
    seg_snoc _ i
    ∙ ap₂ (λ (l : List Region) (x : Region). l ++ x ∷ []) (seg-update_after r v 0 i i (omega arith))
        (update_self r i v)

-- An insertion puts the new region in front of those from `index` on.
pub live-insert :
    (t : MemblockType) (index base size : ℕ)
    → index ≤ t.cnt
    → live (insert_table t index base size)
      ≡ seg t.regions 0 index ++ region base size ∷ seg t.regions index (t.cnt - index)
live-insert t p base size h =
    let r = t.regions in
    let n = t.cnt - p in
    let e : t.cnt + 1 - (p + 1) ≡ n = omega arith in
    let front =
      seg-update_last (move r (p + 1) p n) p (region base size)
      ∙ ap (λ (l : List Region). l ++ region base size ∷ []) (seg-move_up_before r p n) in
    let back =
      seg-update_before (move r (p + 1) p n) (region base size) (p + 1) p n (omega arith)
      ∙ seg-move_up r p n in
    seg_split _ (p + 1) (t.cnt + 1) (omega arith)
    ∙ rw e (ap₂ ◌++◌ front back)
    ∙ append_assoc (seg r 0 p) (region base size ∷ []) (seg r p n)

-- With a slot to spare an insertion stays inside the array.
pub memblock_insert_region_ok :
    (t : MemblockType) (index base size : ℕ)
    → index ≤ t.cnt
    → t.cnt < 8
    → memblock_insert_region t index base size ≡ ok (insert_table t index base size)
unfolding memblock_insert_region
memblock_insert_region_ok t index base size h room =
    let e : sub32 t.cnt index ≡ t.cnt - index = omega arith in
    rw (
      e,
      memmove_ok t (index + 1) index (t.cnt - index) (omega arith) (omega arith),
      store_ok _ index (region base size) (omega arith),
    )
