-- ===== src/Memblock/Delete.antt =====
-- src/mm/memblock.c: what one round of `memblock_del_region` does, and its recursion on the list of live regions.
pub mod Agreement
pub mod Coverage
use mathlib.Core.List.{append_assoc}
use elfboot.Base.{
  ℕ, zero, suc, ◌+◌, ◌-◌, ◌≤◌, ◌<◌, ◌≡◌, refl, sym, ap, ap₂, ◌∙◌, List, [], ◌∷◌, ◌++◌, arith, ltb,
  leb, ◌==◌, if◌then◌else◌, ◌&&◌, Bool, true, false, min, max, inl, inr, Bool-cases, not,
}
use elfboot.Base.Run.{Run, ok, ◌>>=◌}
use elfboot.Core.{add32, sub32}
use elfboot.Memblock.{
  Region, region, MemblockType, memblock_beg, memblock_end, load, store, memmove, update, move,
  memblock_insert_region, Round, stop, visit, del_step, del_loop, memblock_max_regions,
}
use elfboot.Memblock.Slots.{
  seg, live, load_ok, store_ok, memmove_ok, insert_table, memblock_insert_region_ok, seg_step,
  seg_split, seg_snoc, seg-update_after, seg-update_before, seg-move_down_before, seg-move_down,
  seg-move_up_before, seg-move_up,
}

-- What is left of `x` when `[base, nend)` is cut from its front or its back.
abbrev pub left_size : ℕ → ℕ → Region → ℕ
left_size nend base x = sub32 x.size (sub32 (min (memblock_end x) nend) (max (memblock_beg x) base))

abbrev pub keep : Region → ℕ × List Region → ℕ × List Region
keep x p = (p.0, x ∷ p.1)

-- The returned value and the regions that are left, by recursion on the live regions.
unfoldable pub removal : ℕ → ℕ → ℕ → List Region → ℕ × List Region
removal nend base dbeg [] = (dbeg, [])
removal nend base dbeg (x ∷ xs) =
    let rbeg = memblock_beg x in
    let rend = memblock_end x in
    let dbeg' = if dbeg == 0 then max rbeg base else dbeg in
    let skip = removal nend base dbeg xs in
    let drop = removal nend base dbeg' xs in
    let cut = removal nend (if leb rend nend then rend else base) dbeg' xs in
    let left = left_size nend base x in
    if leb nend rbeg
    then (dbeg, x ∷ xs)
    else if leb rend base
    then keep x skip
    else if ltb rbeg base && ltb nend rend
    then (base, region rbeg (sub32 base rbeg) ∷ region nend (sub32 rend nend) ∷ xs)
    else if left == 0
    then drop
    else if leb base rbeg
    then (base, region nend left ∷ xs)
    else keep (region rbeg left) cut

-- The tables that the branches of a round lead to.
abbrev pub split_table : ℕ → MemblockType → ℕ → ℕ → MemblockType
split_table nend t i base =
    let x = t.regions i in
    let written = record t { regions = update t.regions i (region x.base (sub32 base x.base)) } in
    insert_table written (i + 1) nend (sub32 (memblock_end x) nend)

abbrev pub total_left : ℕ → MemblockType → ℕ → ℕ → ℕ
total_left nend t i base =
    let x = t.regions i in
    sub32 t.total_size (sub32 (min (memblock_end x) nend) (max (memblock_beg x) base))

abbrev pub drop_table : ℕ → MemblockType → ℕ → ℕ → MemblockType
drop_table nend t i base =
    let x = t.regions i in
    let written = update t.regions i (region x.base (left_size nend base x)) in
    record {
      cnt = t.cnt - 1;
      total_size = total_left nend t i base;
      regions = move written i (i + 1) (t.cnt - (i + 1));
    }

-- A shorter region with base `b` at index `i`.
abbrev pub cut_table : ℕ → MemblockType → ℕ → ℕ → ℕ → MemblockType
cut_table nend t i base b = record t {
  total_size = total_left nend t i base;
  regions = update t.regions i (region b (left_size nend base (t.regions i)));
}

abbrev pub first_hit : ℕ → ℕ → Region → ℕ
first_hit base dbeg x = if dbeg == 0 then max x.base base else dbeg

abbrev pub is_split : ℕ → ℕ → Region → Bool
is_split nend base x = ltb x.base base && ltb nend (memblock_end x)

module _ (nend : ℕ) (t : MemblockType) (i base dbeg : ℕ) (inside : i < t.cnt)
    (room : t.cnt < 8) where
  slots_behind : sub32 t.cnt (i + 1) ≡ t.cnt - (i + 1)
  slots_behind = omega arith

  here : load t i ≡ ok (t.regions i)
  here = load_ok t i (omega arith)

  pub del_step-past :
      leb nend (t.regions i).base ≡ true → del_step nend t i base dbeg ≡ ok (stop (dbeg, t))
  unfolding del_step
  del_step-past h = rw (here, h)

  pub del_step-skip :
      leb nend (t.regions i).base ≡ false
      → leb (memblock_end (t.regions i)) base ≡ true
      → del_step nend t i base dbeg ≡ ok (visit (t, i + 1, base, dbeg))
  unfolding del_step
  del_step-skip h g = rw (here, h, g)

  module _ (h : leb nend (t.regions i).base ≡ false)
      (g : leb (memblock_end (t.regions i)) base ≡ false) where
    pub del_step-split :
        is_split nend base (t.regions i) ≡ true
        → del_step nend t i base dbeg ≡ ok (stop (base, split_table nend t i base))
    unfolding del_step
    del_step-split c =
        let x = t.regions i in
        let written = record t {
          regions = update t.regions i (region x.base (sub32 base x.base));
        } in
        let size = sub32 (memblock_end x) nend in
        rw (
          here,
          h,
          g,
          c,
          store_ok t i _ (omega arith),
          memblock_insert_region_ok written (i + 1) nend size (omega arith) (omega arith),
        )

    module _ (c : is_split nend base (t.regions i) ≡ false) where
      pub del_step-drop :
          (left_size nend base (t.regions i) == 0) ≡ true
          → del_step nend t i base dbeg
            ≡ ok (visit (drop_table nend t i base, i, base, first_hit base dbeg (t.regions i)))
      unfolding del_step
      del_step-drop d = rw (
        here,
        h,
        g,
        c,
        d,
        slots_behind,
        store_ok t i _ (omega arith),
        memmove_ok _ i (i + 1) (t.cnt - (i + 1)) (omega arith) (omega arith),
      )

      module _ (d : (left_size nend base (t.regions i) == 0) ≡ false) where
        pub del_step-front :
            leb base (t.regions i).base ≡ true
            → del_step nend t i base dbeg ≡ ok (stop (base, cut_table nend t i base nend))
        unfolding del_step
        del_step-front f = rw (here, h, g, c, d, f, store_ok t i _ (omega arith))

        pub del_step-back :
            leb base (t.regions i).base ≡ false
            → del_step nend t i base dbeg
              ≡ ok (
                  visit (
                    cut_table nend t i base (t.regions i).base,
                    i + 1,
                    if leb (memblock_end (t.regions i)) nend
                        then memblock_end (t.regions i)
                        else base,
                    first_hit base dbeg (t.regions i),
                  ))
        unfolding del_step
        del_step-back f = rw (here, h, g, c, d, f, store_ok t i _ (omega arith))
