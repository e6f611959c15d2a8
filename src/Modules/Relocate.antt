-- ===== src/Modules/Relocate.antt =====
-- src/core/module.c: what the relocations of a section do to the memory.
use elfboot.Base.{
  ℕ, ◌+◌, ◌/◌, ◌%◌, ◌^◌, ◌≤◌, ◌<◌, ◌≡◌, ◌⊎◌, refl, sym, ◌∙◌, inl, inr, true, false, some, List, [],
  ◌∷◌, arith, ◌==◌,
}
use elfboot.Core.{add32, sub32}
use elfboot.Modules.{
  Elf32Shdr, Elf32Rel, Module, Memory, read32, write32, position, relocated, relocate_loop, entries,
  module_apply_relocate,
}
use elfboot.Modules.Words.{write32-other, read32-write32, read32-same}

module _ (elf : Module) (shdr : Elf32Shdr) where
  -- The words at `p` and at the positions do not overlap.
  abbrev pub Clear : ℕ → List Elf32Rel → Type 0
  Clear p [] = Unit {0}
  Clear p (rel ∷ rels) =
      ((p + 4 ≤ position elf shdr rel) ⊎ (position elf shdr rel + 4 ≤ p)) × Clear p rels

  abbrev pub Distinct : List Elf32Rel → Type 0
  Distinct [] = Unit {0}
  Distinct (rel ∷ rels) = Clear (position elf shdr rel) rels × Distinct rels

  -- The byte at `a` is not part of a word at a position.
  abbrev pub Outside : ℕ → List Elf32Rel → Type 0
  Outside a [] = Unit {0}
  Outside a (rel ∷ rels) =
      ((a < position elf shdr rel) ⊎ (position elf shdr rel + 4 ≤ a)) × Outside a rels

  abbrev pub AreKnown : List Elf32Rel → Type 0
  AreKnown [] = Unit {0}
  AreKnown (rel ∷ rels) = ((rel.r_info % 256 ≡ 1) ⊎ (rel.r_info % 256 ≡ 2)) × AreKnown rels

  abbrev pub symbol_value : Elf32Rel → ℕ
  symbol_value rel = (elf.symtab (rel.r_info / 256)).st_value

  -- The symbols of relocations have values of 32 bits.
  abbrev pub AreWords : List Elf32Rel → Type 0
  AreWords [] = Unit {0}
  AreWords (rel ∷ rels) = (symbol_value rel < 2 ^ 32) × AreWords rels

  -- The word `after` is the word `before` and the value of the symbol, by the type less the position.
  abbrev pub IsRelocated : Elf32Rel → ℕ → ℕ → Type 0
  IsRelocated rel before after =
      ((rel.r_info % 256 ≡ 1) × (after ≡ (before + symbol_value rel) % 2 ^ 32))
      ⊎ ((rel.r_info % 256 ≡ 2)
          × ((after + position elf shdr rel) % 2 ^ 32 ≡ (before + symbol_value rel) % 2 ^ 32))

  abbrev pub AreRelocated : Memory → Memory → List Elf32Rel → Type 0
  AreRelocated m m' [] = Unit {0}
  AreRelocated m m' (rel ∷ rels) =
      IsRelocated rel (read32 m (position elf shdr rel)) (read32 m' (position elf shdr rel))
      × AreRelocated m m' rels

  Outside-Clear :
      (p a : ℕ) (rels : List Elf32Rel) → p ≤ a → a < p + 4 → Clear p rels → Outside a rels
  Outside-Clear p a [] low high clear = tt
  Outside-Clear p a (rel ∷ rels) low high (inl before, clear) =
      (inl (omega arith), Outside-Clear p a rels low high clear)
  Outside-Clear p a (rel ∷ rels) low high (inr behind, clear) =
      (inr (omega arith), Outside-Clear p a rels low high clear)

  -- A word written in front of the others changes none of them.
  read32-other :
      (m : Memory) (p q v : ℕ) → ((p + 4 ≤ q) ⊎ (q + 4 ≤ p)) → read32 (write32 m p v) q ≡ read32 m q
  read32-other m p q v (inl before) =
      read32-same m (write32 m p v) q (write32-other m p v q (inr (omega arith)))
        (write32-other m p v (q + 1) (inr (omega arith)))
        (write32-other m p v (q + 2) (inr (omega arith)))
        (write32-other m p v (q + 3) (inr (omega arith)))
  read32-other m p q v (inr behind) =
      read32-same m (write32 m p v) q (write32-other m p v q (inl (omega arith)))
        (write32-other m p v (q + 1) (inl (omega arith)))
        (write32-other m p v (q + 2) (inl (omega arith)))
        (write32-other m p v (q + 3) (inl (omega arith)))

  AreRelocated-before :
      (m m' : Memory) (p v : ℕ) (rels : List Elf32Rel)
      → Clear p rels
      → AreRelocated (write32 m p v) m' rels
      → AreRelocated m m' rels
  AreRelocated-before m m' p v [] clear done = tt
  AreRelocated-before m m' p v (rel ∷ rels) (apart, clear) (first, done) =
      let q = position elf shdr rel in
      (rw (sym (read32-other m p q v apart)) first, AreRelocated-before m m' p v rels clear done)

  relocated_lem :
      (rel : Elf32Rel) (before : ℕ)
      → ((rel.r_info % 256 ≡ 1) ⊎ (rel.r_info % 256 ≡ 2))
      → symbol_value rel < 2 ^ 32
      → (after : ℕ) × (relocated elf (position elf shdr rel) rel before ≡ some after)
        × (after < 2 ^ 32)
        × IsRelocated rel before after
  unfolding relocated
  relocated_lem rel before (inl one) small =
      let e : (rel.r_info % 256 == 1) ≡ true = ground arith in
      (add32 before (symbol_value rel), rw e refl, omega arith, inl (one, refl))
  relocated_lem rel before (inr two) small =
      let e : (rel.r_info % 256 == 1) ≡ false = ground arith in
      let f : (rel.r_info % 256 == 2) ≡ true = ground arith in
      (
        add32 before (sub32 (symbol_value rel) (position elf shdr rel)),
        rw (e, f) refl,
        omega arith,
        inr (two, omega arith),
      )

  relocate_loop_lem :
      (rels : List Elf32Rel) (m : Memory)
      → AreKnown rels
      → AreWords rels
      → Distinct rels
      → (m' : Memory) × (relocate_loop elf shdr rels m ≡ (true, m'))
        × AreRelocated m m' rels
        × ((a : ℕ) → Outside a rels → m' a ≡ m a)
  unfolding relocate_loop
  relocate_loop_lem [] m known words distinct = (m, refl, tt, λ a outside. refl)
  relocate_loop_lem (rel ∷ rels) m (kind, known) (small, words) (clear, distinct) =
      let p = position elf shdr rel in
      let (v, result, word, relocated_one) = relocated_lem rel (read32 m p) kind small in
      let (m', run, done, same) = relocate_loop_lem rels (write32 m p v) known words distinct in
      let kept : read32 m' p ≡ v =
        read32-same (write32 m p v) m' p
          (same p (Outside-Clear p p rels (omega arith) (omega arith) clear))
          (same (p + 1) (Outside-Clear p (p + 1) rels (omega arith) (omega arith) clear))
          (same (p + 2) (Outside-Clear p (p + 2) rels (omega arith) (omega arith) clear))
          (same (p + 3) (Outside-Clear p (p + 3) rels (omega arith) (omega arith) clear))
        ∙ read32-write32 m p v word in
      (
        m',
        rw result run,
        (rw kept relocated_one, AreRelocated-before m m' p v rels clear done),
        λ a outside. same a outside.1 ∙ write32-other m p v a outside.0,
      )

  -- Let the relocations of a section be of the types `R_386_32` and `R_386_PC32`, with symbols that
  -- have values of 32 bits, and let the words that they change not overlap. Then
  -- `module_apply_relocate` succeeds: each of these words is, modulo `2 ^ 32`, what it was and the
  -- value of the symbol, in the second case less the position of the word, and any byte outside of
  -- these words is what it was.
  pub module_apply_relocate-AreRelocated :
      (rel : ℕ → Elf32Rel) (m : Memory) (a : ℕ)
      → AreKnown (entries rel (shdr.sh_size / 8) 0)
      → AreWords (entries rel (shdr.sh_size / 8) 0)
      → Distinct (entries rel (shdr.sh_size / 8) 0)
      → Outside a (entries rel (shdr.sh_size / 8) 0)
      → ((module_apply_relocate elf shdr rel m).0 ≡ true)
        × AreRelocated m (module_apply_relocate elf shdr rel m).1 (entries rel (shdr.sh_size / 8) 0)
        × ((module_apply_relocate elf shdr rel m).1 a ≡ m a)
  unfolding module_apply_relocate
  module_apply_relocate-AreRelocated rel m a known words distinct outside =
      let (m', run, done, same) =
        relocate_loop_lem (entries rel (shdr.sh_size / 8) 0) m known words distinct in
      rw run (refl, done, same a outside)
