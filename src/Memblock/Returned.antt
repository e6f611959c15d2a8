-- ===== src/Memblock/Returned.antt =====
-- src/mm/memblock.c: the base that `memblock_del_region` returns.
use elfboot.Base.{
  ℕ, ◌+◌, ◌≤◌, ◌≡◌, ◌≢◌, refl, inl, inr, true, false, List, [], ◌∷◌, arith, ltb, leb, Bool, ◌&&◌,
  ◌==◌, if◌then◌else◌, Bool-cases,
}
use elfboot.Memblock.{Region, memblock_end}
use elfboot.Memblock.Table.{IsTable}
use elfboot.Memblock.Delete.{removal, is_split, left_size}

-- Whether `nend` lies inside one of the regions.
abbrev pub runs_on : ℕ → List Region → Bool
runs_on nend [] = false
runs_on nend (x ∷ xs) =
    if ltb x.base nend && ltb nend (x.base + x.size) then true else runs_on nend xs

runs_on-behind :
    (nend lo : ℕ) (xs : List Region) → IsTable lo xs → nend ≤ lo → runs_on nend xs ≡ false
runs_on-behind nend lo [] s h = refl
runs_on-behind nend lo (x ∷ xs) s h =
    let e : (ltb x.base nend && ltb nend (x.base + x.size)) ≡ false = ground arith in
    rw e (runs_on-behind nend (x.base + x.size) xs s.2 (omega arith))

-- Behind the range nothing is found any more.
pub removal-behind :
    (nend base dbeg lo : ℕ) (xs : List Region)
    → IsTable lo xs
    → nend ≤ lo
    → (removal nend base dbeg xs).0 ≡ dbeg
unfolding removal
removal-behind nend base dbeg lo [] s h = refl
removal-behind nend base dbeg lo (x ∷ xs) s h =
    let past : leb nend x.base ≡ true = ground arith in rw past

-- What a removal returns: an address up to the end of the range where a region goes on behind it, and
-- what the loop began with where none does.
abbrev Returned : ℕ → ℕ → ℕ → Bool → Type 0
Returned nend dbeg ret true = ret ≤ nend
Returned nend dbeg ret false = ret ≡ dbeg

pub removal-Returned :
    (nend base dbeg lo : ℕ) (xs : List Region)
    → dbeg ≢ 0
    → base ≤ nend
    → IsTable lo xs
    → Returned nend dbeg (removal nend base dbeg xs).0 (runs_on nend xs)
unfolding removal
removal-Returned nend base dbeg lo [] d p s = refl
removal-Returned nend base dbeg lo (x ∷ xs) d p s =
    let same : (dbeg == 0) ≡ false = ground arith in
    elim (Bool-cases (leb nend x.base)) [
      | inl past ↦
          let off : (ltb x.base nend && ltb nend (x.base + x.size)) ≡ false = ground arith in
          let behind = runs_on-behind nend (x.base + x.size) xs s.2 (ground arith) in
          rw (past, off, behind) refl
      | inr open_ ↦ elim (Bool-cases (leb (memblock_end x) base)) [
        | inl skip ↦
            let off : (ltb x.base nend && ltb nend (x.base + x.size)) ≡ false = ground arith in
            rw (open_, skip, off) (removal-Returned nend base dbeg (x.base + x.size) xs d p s.2)
        | inr meets ↦ elim (Bool-cases (is_split nend base x)) [
          | inl split ↦
              let on : (ltb x.base nend && ltb nend (x.base + x.size)) ≡ true = ground arith in
              rw (open_, meets, split, on) p
          | inr whole ↦ elim (Bool-cases (left_size nend base x == 0)) [
            | inl none_left ↦
                let off : (ltb x.base nend && ltb nend (x.base + x.size)) ≡ false = ground arith in
                rw (open_, meets, whole, none_left, same, off)
                  (removal-Returned nend base dbeg (x.base + x.size) xs d p s.2)
            | inr some_left ↦ elim (Bool-cases (leb base x.base)) [
              | inl front ↦
                  let on : (ltb x.base nend && ltb nend (x.base + x.size)) ≡ true = ground arith in
                  rw (open_, meets, whole, some_left, front, on) p
              | inr back ↦
                  let off : (ltb x.base nend && ltb nend (x.base + x.size)) ≡ false =
                    ground arith in
                  let ends : leb (memblock_end x) nend ≡ true = ground arith in
                  rw (open_, meets, whole, some_left, back, ends, same, off)
                    (removal-Returned nend (memblock_end x) dbeg (x.base + x.size) xs d
                      (ground arith) s.2)
            ]
          ]
        ]
      ]
    ]
