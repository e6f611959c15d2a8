-- ===== src/Memblock/Table.antt =====
-- What a table of regions stands for: the addresses that it covers, and the order of its regions.
use elfboot.Base.{
  ℕ, ◌+◌, ◌^◌, ◌≤◌, ◌<◌, ◌≡◌, Bool, true, false, ◌&&◌, ◌||◌, List, [], ◌∷◌, arith, ltb, leb, inl,
  inr, Bool-cases,
}
use elfboot.Memblock.{Region}

-- The address `a` lies in `[lo, hi)`.
abbrev pub in_range : ℕ → ℕ → ℕ → Bool
in_range lo hi a = leb lo a && ltb a hi

unfoldable pub covers : ℕ → List Region → Bool
covers a [] = false
covers a (x ∷ xs) = in_range x.base (x.base + x.size) a || covers a xs

-- From `lo` on the regions follow one another without overlap, and end below `2 ^ 32`.
abbrev pub IsTable : ℕ → List Region → Type 0
IsTable lo [] = Unit {0}
IsTable lo (x ∷ xs) = (lo ≤ x.base) × (x.base + x.size < 2 ^ 32) × IsTable (x.base + x.size) xs

pub IsTable-covers : (lo a : ℕ) (xs : List Region) → IsTable lo xs → covers a xs ≡ true → lo ≤ a
unfolding covers
IsTable-covers lo a [] t h = cc
IsTable-covers lo a (x ∷ xs) t h = elim (Bool-cases (in_range x.base (x.base + x.size) a)) [
  | inl e ↦ ground arith
  | inr e ↦ let deeper = IsTable-covers (x.base + x.size) a xs t.2 (rw e at h) in omega arith
]

pub IsTable-lower : (lo lo' : ℕ) (xs : List Region) → lo' ≤ lo → IsTable lo xs → IsTable lo' xs
IsTable-lower lo lo' [] h t = tt
IsTable-lower lo lo' (x ∷ xs) h t = (omega arith, t.1, t.2)
