-- ===== src/Memblock/Delete/Agreement.antt =====
-- src/mm/memblock.c: the loop of `memblock_del_region` beside the recursion on the live regions.
use mathlib.Core.List.{append_assoc, append-nil}
use elfboot.Base.{
  ℕ, zero, suc, ◌+◌, ◌-◌, ◌≤◌, ◌<◌, ◌≡◌, sym, ap, ap₂, ◌∙◌, List, [], ◌∷◌, ◌++◌, arith, ltb, leb,
  ◌==◌, if◌then◌else◌, true, false, inl, inr, Bool-cases, dec_lt,
}
use elfboot.Base.Run.{Run, ok}
use elfboot.Core.{sub32}
use elfboot.Memblock.{
  Region, region, MemblockType, memblock_end, update, stop, visit, del_step, del_loop,
}
use elfboot.Memblock.Slots.{
  seg, live, seg_step, seg_split, seg_snoc, seg-update_last, live-insert, seg-update_after,
  seg-update_before, seg-move_down_before, seg-move_down,
}
use elfboot.Memblock.Delete.{
  removal, left_size, keep, split_table, drop_table, cut_table, first_hit, is_split, del_step-past,
  del_step-skip, del_step-split, del_step-drop, del_step-front, del_step-back,
}

-- The live regions before `i`, and those from `i` on.
abbrev pub before : MemblockType → ℕ → List Region
before t i = seg t.regions 0 i

abbrev pub rest : MemblockType → ℕ → List Region
rest t i = seg t.regions i (t.cnt - i)

-- A result of the loop agrees with the recursion.
unfoldable pub Agrees : MemblockType → ℕ → ℕ × List Region → Run (ℕ × MemblockType) → Type 0
Agrees t i spec run =
    (t' : MemblockType) × (run ≡ ok (spec.0, t')) × (live t' ≡ before t i ++ spec.1)

module _ (nend : ℕ) (t : MemblockType) (i base dbeg : ℕ) (inside : i < t.cnt) where
  loop-stop :
      (k : ℕ) {r : ℕ × MemblockType}
      → del_step nend t i base dbeg ≡ ok (stop r)
      → del_loop nend (suc k) t i base dbeg ≡ ok r
  unfolding del_loop
  loop-stop k e = let more : ltb i t.cnt ≡ true = ground arith in rw (more, e)

  loop-visit :
      (k : ℕ) {t' : MemblockType} {i' base' dbeg' : ℕ}
      → del_step nend t i base dbeg ≡ ok (visit (t', i', base', dbeg'))
      → del_loop nend (suc k) t i base dbeg ≡ del_loop nend k t' i' base' dbeg'
  unfolding del_loop
  loop-visit k e = let more : ltb i t.cnt ≡ true = ground arith in rw (more, e)

Agrees-done :
    (nend k : ℕ) (t : MemblockType) (i base dbeg : ℕ)
    → i ≡ t.cnt
    → Agrees t i (removal nend base dbeg (rest t i)) (del_loop nend (suc k) t i base dbeg)
unfolding Agrees del_loop removal seg
Agrees-done nend k t i base dbeg e =
    let none_left : t.cnt - i ≡ 0 = omega arith in
    let over : ltb i t.cnt ≡ false = ground arith in
    (t, rw (none_left, over), rw (none_left, e) (sym (append-nil (live t))))

-- A region that stays in front of the rest.
Agrees-keep :
    (t u : MemblockType) (i : ℕ) (x : Region) (spec : ℕ × List Region)
    (run : Run (ℕ × MemblockType))
    → before u (i + 1) ≡ before t i ++ x ∷ []
    → Agrees u (i + 1) spec run
    → Agrees t i (keep x spec) run
unfolding Agrees
Agrees-keep t u i x spec run e (t', r, l) =
    (t', r, l ∙ ap (λ (p : List Region). p ++ spec.1) e ∙ append_assoc (before t i) (x ∷ []) spec.1)

-- A change that leaves the front alone.
Agrees-drop :
    (t u : MemblockType) (i : ℕ) (spec : ℕ × List Region) (run : Run (ℕ × MemblockType))
    → before u i ≡ before t i
    → Agrees u i spec run
    → Agrees t i spec run
unfolding Agrees
Agrees-drop t u i spec run e (t', r, l) = (t', r, l ∙ ap (λ (p : List Region). p ++ spec.1) e)

module _ (t : MemblockType) (i : ℕ) (inside : i < t.cnt) where
  rest_step : rest t i ≡ t.regions i ∷ rest t (i + 1)
  rest_step = seg_step t.regions i t.cnt inside

  live_split : live t ≡ before t i ++ t.regions i ∷ rest t (i + 1)
  live_split =
      seg_split t.regions i t.cnt (omega arith)
      ∙ ap (λ (l : List Region). before t i ++ l) rest_step

  module _ (nend base : ℕ) where
    before-drop : before (drop_table nend t i base) i ≡ before t i
    before-drop =
        seg-move_down_before _ i (t.cnt - (i + 1))
        ∙ seg-update_after t.regions _ 0 i i (omega arith)

    rest-drop : rest (drop_table nend t i base) i ≡ rest t (i + 1)
    rest-drop =
        let e : t.cnt - 1 - i ≡ t.cnt - (i + 1) = omega arith in
        rw e (
          seg-move_down _ i (t.cnt - (i + 1))
          ∙ seg-update_before t.regions _ (i + 1) i (t.cnt - (i + 1)) (omega arith))

    before-cut :
        (b : ℕ)
        → before (cut_table nend t i base b) (i + 1)
          ≡ before t i ++ region b (left_size nend base (t.regions i)) ∷ []
    before-cut b = seg-update_last t.regions i (region b (left_size nend base (t.regions i)))

    rest-cut : (b : ℕ) → rest (cut_table nend t i base b) (i + 1) ≡ rest t (i + 1)
    rest-cut b = seg-update_before t.regions _ (i + 1) i (t.cnt - (i + 1)) (omega arith)

    live-cut :
        (b : ℕ)
        → live (cut_table nend t i base b)
          ≡ before t i ++ region b (left_size nend base (t.regions i)) ∷ rest t (i + 1)
    live-cut b =
        seg_split _ (i + 1) t.cnt (omega arith)
        ∙ ap₂ ◌++◌ (before-cut b) (rest-cut b)
        ∙ append_assoc (before t i) (region b (left_size nend base (t.regions i)) ∷ [])
            (rest t (i + 1))

    live-split :
        live (split_table nend t i base)
        ≡ before t i
          ++ region (t.regions i).base (sub32 base (t.regions i).base)
            ∷ region nend (sub32 (memblock_end (t.regions i)) nend)
            ∷ rest t (i + 1)
    live-split =
        let x = t.regions i in
        let head = region x.base (sub32 base x.base) in
        let size = sub32 (memblock_end x) nend in
        let written = record t { regions = update t.regions i head } in
        live-insert written (i + 1) nend size (omega arith)
        ∙ ap₂ (λ (l m : List Region). l ++ region nend size ∷ m) (seg-update_last t.regions i head)
            (seg-update_before t.regions head (i + 1) i (t.cnt - (i + 1)) (omega arith))
        ∙ append_assoc (before t i) (head ∷ []) (region nend size ∷ rest t (i + 1))

-- The loop computes the removal, and ends within its fuel, if there is a slot to spare.
pub Agrees-loop :
    (nend k : ℕ) (t : MemblockType) (i base dbeg : ℕ)
    → t.cnt - i < k
    → i ≤ t.cnt
    → t.cnt < 8
    → Agrees t i (removal nend base dbeg (rest t i)) (del_loop nend k t i base dbeg)
unfolding removal Agrees
Agrees-loop nend zero t i base dbeg fuel le room = absurd (omega arith)
Agrees-loop nend (suc k) t i base dbeg fuel le room = elim (dec_lt i t.cnt) [
  | no done ↦ Agrees-done nend k t i base dbeg (omega arith)
  | yes inside ↦
      let x = t.regions i in
      let b' = if leb (memblock_end x) nend then memblock_end x else base in
      let first = first_hit base dbeg x in
      let dropped = drop_table nend t i base in
      let shorter = cut_table nend t i base x.base in
      rw (rest_step t i inside) (elim (Bool-cases (leb nend x.base)) [
        | inl h ↦ rw h (
          t,
          loop-stop nend t i base dbeg inside k (del_step-past nend t i base dbeg inside room h),
          live_split t i inside,
        )
        | inr h ↦ elim (Bool-cases (leb (memblock_end x) base)) [
          | inl g ↦
              rw
                (
                  h,
                  g,
                  loop-visit nend t i base dbeg inside k
                      (del_step-skip nend t i base dbeg inside room h g),
                )
                (Agrees-keep t t i x _ _ (seg_snoc t.regions i)
                  (Agrees-loop nend k t (i + 1) base dbeg (omega arith) (omega arith) room))
          | inr g ↦ elim (Bool-cases (is_split nend base x)) [
            | inl c ↦
                rw (h, g, c)
                  (
                    split_table nend t i base,
                    loop-stop nend t i base dbeg inside k
                        (del_step-split nend t i base dbeg inside room h g c),
                    live-split t i inside nend base,
                  )
            | inr c ↦ elim (Bool-cases (left_size nend base x == 0)) [
              | inl d ↦
                  rw
                    (
                      h,
                      g,
                      c,
                      d,
                      loop-visit nend t i base dbeg inside k
                          (del_step-drop nend t i base dbeg inside room h g c d),
                    )
                    (Agrees-drop t dropped i _ _ (before-drop t i inside nend base) (
                      rw (← rest-drop t i inside nend base) (
                        Agrees-loop nend k dropped i base first (omega arith) (omega arith)
                          (omega arith))))
              | inr d ↦ elim (Bool-cases (leb base x.base)) [
                | inl f ↦
                    rw (h, g, c, d, f)
                      (
                        cut_table nend t i base nend,
                        loop-stop nend t i base dbeg inside k
                            (del_step-front nend t i base dbeg inside room h g c d f),
                        live-cut t i inside nend base nend,
                      )
                | inr f ↦
                    rw
                      (
                        h,
                        g,
                        c,
                        d,
                        f,
                        loop-visit nend t i base dbeg inside k
                            (del_step-back nend t i base dbeg inside room h g c d f),
                      )
                      (Agrees-keep t shorter i (region x.base (left_size nend base x)) _ _
                        (before-cut t i inside nend base x.base)
                        (rw (← rest-cut t i inside nend base x.base) (
                          Agrees-loop nend k shorter (i + 1) b' first (omega arith) (omega arith)
                            room)))
              ]
            ]
          ]
        ]
      ])
]
