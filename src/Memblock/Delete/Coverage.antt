-- ===== src/Memblock/Delete/Coverage.antt =====
-- The addresses that a removal leaves in a sorted table, for src/mm/memblock.c.
use elfboot.Base.{
  ℕ, ◌+◌, ◌-◌, ◌^◌, ◌≤◌, ◌<◌, ◌≡◌, refl, List, [], ◌∷◌, arith, leb, ◌==◌, if◌then◌else◌, ◌&&◌, ◌||◌,
  Bool, true, false, inl, inr, Bool-cases, not, min, max,
}
use elfboot.Core.{sub32}
use elfboot.Memblock.{Region, memblock_end}
use elfboot.Memblock.Table.{in_range, covers, IsTable, IsTable-covers, IsTable-lower}
use elfboot.Memblock.Delete.{removal, left_size, first_hit, is_split}

sub32_exact : (a b : ℕ) → b ≤ a → a < 2 ^ 32 → sub32 a b ≡ a - b
sub32_exact a b h g = omega arith

end_exact : (x : Region) → x.base + x.size < 2 ^ 32 → memblock_end x ≡ x.base + x.size
end_exact x h = omega arith

-- What is left of a region that the range meets.
left_exact :
    (nend base : ℕ) (x : Region)
    → x.base + x.size < 2 ^ 32
    → base ≤ nend
    → x.base < nend
    → base < x.base + x.size
    → left_size nend base x ≡ x.size - (min (x.base + x.size) nend - max x.base base)
left_exact nend base x small le p q = omega arith

-- The case in which the end of a region is cut off, with the regions behind it as two tests.
cut_back :
    (nend base b s l m a : ℕ) (old new : Bool)
    → b < base
    → base < b + s
    → b + s ≤ nend
    → l ≡ base - b
    → m ≡ b + s
    → (old ≡ true → b + s ≤ a)
    → new ≡ (old && not (in_range m nend a))
    → (in_range b (b + l) a || new) ≡ ((in_range b (b + s) a || old) && not (in_range base nend a))
cut_back nend base b s l m a true new p q r e f deeper i =
    let high = deeper refl in rw (i, e) (ground arith)
cut_back nend base b s l m a false new p q r e f deeper i = rw (i, e) (ground arith)

module _ (nend a : ℕ) (small : nend < 2 ^ 32) where
  pub removal-covers :
      (base dbeg lo : ℕ) (xs : List Region)
      → IsTable lo xs
      → base ≤ nend
      → covers a (removal nend base dbeg xs).1 ≡ (covers a xs && not (in_range base nend a))
  unfolding removal covers
  removal-covers base dbeg lo [] t le = refl
  removal-covers base dbeg lo (x ∷ xs) t le =
      let e = end_exact x t.1 in
      let deeper = IsTable-covers (x.base + x.size) a xs t.2 in
      elim (Bool-cases (leb nend x.base)) [
        | inl h ↦ rw h (ground (arith, deeper))
        | inr h ↦ elim (Bool-cases (leb (memblock_end x) base)) [
          | inl g ↦
              rw (h, g)
                (ground (arith, e, deeper, removal-covers base dbeg (x.base + x.size) xs t.2 le))
          | inr g ↦
              let l = left_exact nend base x t.1 le (ground arith) (ground (arith, e)) in
              elim (Bool-cases (is_split nend base x)) [
                | inl c ↦ rw (h, g, c) (ground (arith, e, deeper))
                | inr c ↦ elim (Bool-cases (left_size nend base x == 0)) [
                  | inl d ↦
                      rw (h, g, c, d)
                        (ground (
                          arith,
                          e,
                          l,
                          deeper,
                          removal-covers base (first_hit base dbeg x) (x.base + x.size) xs t.2 le,
                        ))
                  | inr d ↦ elim (Bool-cases (leb base x.base)) [
                    | inl f ↦ rw (h, g, c, d, f) (ground (arith, e, l, deeper))
                    | inr f ↦
                        let last : leb (memblock_end x) nend ≡ true = ground (arith, e) in
                        let ih =
                          removal-covers (memblock_end x) (first_hit base dbeg x) (x.base + x.size)
                            xs t.2 (ground arith) in
                        rw (h, g, c, d, f, last)
                          (cut_back nend base x.base x.size (left_size nend base x) (memblock_end x)
                            a (covers a xs) _ (ground arith) (ground (arith, e)) (ground (arith, e))
                            (ground (arith, e, l)) e deeper ih)
                  ]
                ]
              ]
        ]
      ]

  -- The order of the regions stays.
  pub removal-IsTable :
      (base dbeg lo : ℕ) (xs : List Region)
      → IsTable lo xs
      → base ≤ nend
      → IsTable lo (removal nend base dbeg xs).1
  unfolding removal
  removal-IsTable base dbeg lo [] t le = tt
  removal-IsTable base dbeg lo (x ∷ xs) t le =
      let e = end_exact x t.1 in
      elim (Bool-cases (leb nend x.base)) [
        | inl h ↦ rw h t
        | inr h ↦ elim (Bool-cases (leb (memblock_end x) base)) [
          | inl g ↦ rw (h, g) (t.0, t.1, removal-IsTable base dbeg (x.base + x.size) xs t.2 le)
          | inr g ↦
              let l = left_exact nend base x t.1 le (ground arith) (ground (arith, e)) in
              elim (Bool-cases (is_split nend base x)) [
                | inl c ↦
                    rw (h, g, c)
                      (
                        t.0,
                        ground (arith, e),
                        (
                          ground (arith, e),
                          ground (arith, e),
                          IsTable-lower (x.base + x.size) _ xs (ground (arith, e)) t.2,
                        ),
                      )
                | inr c ↦ elim (Bool-cases (left_size nend base x == 0)) [
                  | inl d ↦
                      rw (h, g, c, d)
                        (removal-IsTable base (first_hit base dbeg x) lo xs
                          (IsTable-lower (x.base + x.size) lo xs (omega arith) t.2) le)
                  | inr d ↦ elim (Bool-cases (leb base x.base)) [
                    | inl f ↦
                        rw (h, g, c, d, f)
                          (
                            ground arith,
                            ground (arith, l),
                            IsTable-lower (x.base + x.size) _ xs (ground (arith, e, l)) t.2,
                          )
                    | inr f ↦
                        rw (h, g, c, d, f)
                          (
                            t.0,
                            ground (arith, l),
                            removal-IsTable
                                (if leb (memblock_end x) nend then memblock_end x else base)
                                (first_hit base dbeg x) (x.base + left_size nend base x) xs
                                (IsTable-lower (x.base + x.size) (x.base + left_size nend base x) xs
                                  (ground (arith, l)) t.2)
                                (ground arith),
                          )
                  ]
                ]
              ]
        ]
      ]
