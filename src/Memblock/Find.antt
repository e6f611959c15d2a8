-- ===== src/Memblock/Find.antt =====
-- src/mm/memblock.c: `memblock_find_in_range`, the search for a place.
use native.Mathlib.Nat.{div-add-mod', mul-le-mul_right}
use elfboot.Base.{
  ℕ, zero, suc, ◌+◌, ◌-◌, ◌/◌, ◌%◌, ◌^◌, ◌≤◌, ◌<◌, ◌≡◌, refl, ◌⊎◌, inl, inr, Bool, true, false,
  ◌&&◌, List, [], ◌∷◌, arith, ltb, leb, Bool-cases, dec_lt,
}
use elfboot.Base.Run.{ok}
use elfboot.Core.{round_up, clamp}
use elfboot.Core.Round.{round_up_lem}
use elfboot.Memblock.{Region, MemblockType, memblock_end, find_loop, memblock_find_in_range}
use elfboot.Memblock.Slots.{seg, live, load_ok}
use elfboot.Memblock.Table.{IsTable}

multiple-le : (a b m : ℕ) → a % m ≡ 0 → b % m ≡ 0 → a < b + m → a ≤ b
multiple-le a b m p q h = elim (dec_lt (b / m) (a / m)) [
  | yes more ↦ absurd (omega (arith, div-add-mod' a m, div-add-mod' b m, mul-le-mul_right m more))
  | no less ↦ omega (
    arith,
    div-add-mod' a m,
    div-add-mod' b m,
    mul-le-mul_right {m = a / m} {n = b / m} m (omega arith),
  )
]

-- `[c, c + size)` lies in one of the regions.
abbrev pub FitsIn : ℕ → ℕ → List Region → Type 0
FitsIn c size [] = ⊥
FitsIn c size (x ∷ xs) = ((x.base ≤ c) × (c + size ≤ x.base + x.size)) ⊎ FitsIn c size xs

module _ (size k start end : ℕ) where
  -- `c` is a multiple of the alignment, and `[c, c + size)` lies in the bounds.
  abbrev pub IsPlace : ℕ → Type 0
  IsPlace c = (c % 2 ^ k ≡ 0) × (start ≤ c) × (c + size ≤ end)

  -- A place in the regions, or 0 if they have none.
  abbrev pub FoundIn : List Region → ℕ → Type 0
  FoundIn xs c =
      (IsPlace c × FitsIn c size xs × (0 < c))
      ⊎ ((c ≡ 0) × ((d : ℕ) → IsPlace d → ¬ FitsIn d size xs))

  module _ (aligned : k < 32) (bounds : (0 < start) × (start ≤ end) × (end ≤ 2 ^ 32 - 2 ^ k))
      (some_size : 0 < size) where
    abbrev low : Region → ℕ
    low x = clamp x.base start end

    abbrev high : Region → ℕ
    high x = clamp (memblock_end x) start end

    abbrev cand : Region → ℕ
    cand x = round_up (low x) (2 ^ k)

    abbrev taken : Region → Bool
    taken x = ltb (cand x) (high x) && leb size (high x - cand x)

    end_exact : (x : Region) → x.base + x.size < 2 ^ 32 → memblock_end x ≡ x.base + x.size
    end_exact x small = omega arith

    inside :
        (b e c : ℕ)
        → clamp b start end ≤ c
        → c < clamp e start end
        → size ≤ clamp e start end - c
        → (start ≤ c) × (c + size ≤ end) × (b ≤ c) × (c + size ≤ e)
    inside b e c p q r = omega arith

    taken-place :
        (x : Region) (xs : List Region)
        → x.base + x.size < 2 ^ 32
        → taken x ≡ true
        → FoundIn (x ∷ xs) (cand x)
    taken-place x xs small h =
        let (above, near, multiple) = round_up_lem (low x) k (omega arith) aligned in
        let (p, q, r, s) =
          inside x.base (memblock_end x) (cand x) above (ground arith) (ground arith) in
        inl ((multiple, p, q), inl (r, omega (arith, end_exact x small)), omega arith)

    untaken :
        (x : Region) (d : ℕ)
        → x.base + x.size < 2 ^ 32
        → taken x ≡ false
        → IsPlace d
        → x.base ≤ d
        → ¬ (d + size ≤ x.base + x.size)
    untaken x d small h (m, s, e) p q =
        let (above, near, multiple) = round_up_lem (low x) k (omega arith) aligned in
        let least : cand x ≤ d = multiple-le (cand x) d (2 ^ k) multiple m (omega arith) in
        absurd (ground (arith, end_exact x small))

    find_loop-FoundIn :
        (t : MemblockType) (n i lo : ℕ)
        → i + n ≤ 8
        → IsTable lo (seg t.regions i n)
        → (c : ℕ) × (find_loop t size (2 ^ k) start end n i ≡ ok c) × FoundIn (seg t.regions i n) c
    unfolding find_loop seg
    find_loop-FoundIn t zero i lo h s = (0, refl, inr (refl, λ d _ f. f))
    find_loop-FoundIn t (suc n) i lo h s =
        let x = t.regions i in
        let (c, run, found) = find_loop-FoundIn t n (i + 1) (x.base + x.size) (omega arith) s.2 in
        elim (Bool-cases (taken x)) [
          | inl yes_here ↦ (
            cand x,
            rw (load_ok t i (omega arith), yes_here),
            taken-place x (seg t.regions (i + 1) n) s.1 yes_here,
          )
          | inr not_here ↦ (
            c,
            rw (load_ok t i (omega arith), not_here) run,
            elim found [
              | inl (place, fits, positive) ↦ inl (place, inr fits, positive)
              | inr (nothing, others) ↦ inr (
                nothing,
                λ d place fits. elim fits [
                  | inl (p, q) ↦ untaken x d s.1 not_here place p q
                  | inr deeper ↦ others d place deeper
                ],
              )
            ],
          )
        ]

    -- For a sorted table of at most 8 regions, an alignment `2 ^ k` of 32 bits, some bytes and bounds
    -- above 0 that leave room to round up, the search ends without a fault. It returns an aligned
    -- place inside the bounds and inside one region; or 0, and then no region has such a place.
    pub memblock_find_in_range-FoundIn :
        (t : MemblockType)
        → IsTable 0 (live t)
        → t.cnt ≤ 8
        → (c : ℕ) × (memblock_find_in_range t size (2 ^ k) start end ≡ ok c) × FoundIn (live t) c
    unfolding memblock_find_in_range
    memblock_find_in_range-FoundIn t s h = find_loop-FoundIn t t.cnt 0 0 (omega arith) s
