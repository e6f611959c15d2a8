-- ===== src/Modules/Resolve.antt =====
-- src/core/module.c: the values that the symbols of a module get.
use elfboot.Base.{
  ℕ, zero, suc, ◌+◌, ◌%◌, ◌^◌, ◌≤◌, ◌<◌, ◌≡◌, ◌≢◌, ◌⊎◌, refl, ◌∙◌, subst, inl, inr, Bool,
  Bool-cases, true, false, ◌||◌, some, arith, ltb, leb, ◌==◌,
}
use elfboot.Base.Run.{Run, ok}
use elfboot.Core.{add32}
use elfboot.PageAlloc.{change}
use elfboot.Symbol.{Symbols, symbol_lookup_name}
use elfboot.Modules.{Elf32Sym, Module, resolve_symbol, resolve_loop, module_resolve_symbols}

abbrev pub with_symtab : Module → (ℕ → Elf32Sym) → Module
with_symtab elf symtab = record elf { symtab = symtab }

-- The symbol has a value of its own: `SHN_COMMON`, `SHN_ABS` or `SHN_LIVEPATCH`.
abbrev pub IsReserved : ℕ → Type 0
IsReserved shndx = (shndx ≡ 0xfff2) ⊎ ((shndx ≡ 0xfff1) ⊎ (shndx ≡ 0xff20))

module _ (s : Symbols) (elf : Module) where
  -- It is in one of the sections, by its number.
  abbrev pub IsInside : ℕ → Type 0
  IsInside shndx = (0 < shndx) × (shndx < 0xff20) × (shndx < elf.e_shnum)

  abbrev pub global_value : Elf32Sym → ℕ
  global_value symbol = symbol_lookup_name s (elf.strtab symbol.st_name)

  abbrev pub IsResolvable : Elf32Sym → Type 0
  IsResolvable symbol =
      IsReserved symbol.st_shndx
      ⊎ (((symbol.st_shndx ≡ 0) × (global_value symbol ≢ 0)) ⊎ IsInside symbol.st_shndx)

  -- Only the value of the symbol may be another: the address of the symbol of that name, or what it
  -- was and the address of its section.
  pub record IsResolved (before after : Elf32Sym) : Type 0 where
    pub name : after.st_name ≡ before.st_name
    pub shndx : after.st_shndx ≡ before.st_shndx
    pub value :
        (IsReserved before.st_shndx × (after.st_value ≡ before.st_value))
        ⊎ (((before.st_shndx ≡ 0) × (after.st_value ≡ global_value before))
            ⊎ (IsInside before.st_shndx
                × (after.st_value
                    ≡ (before.st_value + (elf.shdr before.st_shndx).sh_addr) % 2 ^ 32)))

  resolve_symbol_lem :
      (symndx : ℕ)
      → IsResolvable (elf.symtab symndx)
      → (symtab : ℕ → Elf32Sym) × (resolve_symbol s elf symndx ≡ ok (some (with_symtab elf symtab)))
        × IsResolved (elf.symtab symndx) (symtab symndx)
        × ((other : ℕ) → other ≢ symndx → symtab other ≡ elf.symtab other)
  unfolding resolve_symbol
  resolve_symbol_lem symndx (inl reserved) =
      let shndx = (elf.symtab symndx).st_shndx in
      let e : (shndx == 0xfff2 || shndx == 0xfff1 || shndx == 0xff20) ≡ true = ground arith in
      (
        elf.symtab,
        rw e refl,
        record { name = refl; shndx = refl; value = inl (reserved, refl) },
        λ other different. refl,
      )
  resolve_symbol_lem symndx (inr (inl (undefined, known))) =
      let symbol = elf.symtab symndx in
      let shndx = symbol.st_shndx in
      let e : (shndx == 0xfff2 || shndx == 0xfff1 || shndx == 0xff20) ≡ false = ground arith in
      let f : (shndx == 0) ≡ true = ground arith in
      let g : (global_value symbol == 0) ≡ false = ground arith in
      let itself : (symndx == symndx) ≡ true = ground arith in
      (
        change elf.symtab symndx (record symbol { st_value = global_value symbol }),
        rw (e, f, g) refl,
        rw itself (record { name = refl; shndx = refl; value = inr (inl (undefined, refl)) }),
        λ other different. let h : (other == symndx) ≡ false = ground arith in rw h refl,
      )
  resolve_symbol_lem symndx (inr (inr (some_section, ordinary, below))) =
      let symbol = elf.symtab symndx in
      let shndx = symbol.st_shndx in
      let e : (shndx == 0xfff2 || shndx == 0xfff1 || shndx == 0xff20) ≡ false = ground arith in
      let f : (shndx == 0) ≡ false = ground arith in
      let g : leb elf.e_shnum shndx ≡ false = ground arith in
      let itself : (symndx == symndx) ≡ true = ground arith in
      (
        change elf.symtab symndx
            (record symbol { st_value = add32 symbol.st_value (elf.shdr shndx).sh_addr }),
        rw (e, f, g) refl,
        rw itself (record {
          name = refl;
          shndx = refl;
          value = inr (inr ((some_section, ordinary, below), refl));
        }),
        λ other different. let h : (other == symndx) ≡ false = ground arith in rw h refl,
      )

-- The symbols do not matter for what a symbol gets.
IsResolved-with_symtab :
    (s : Symbols) (elf : Module) (symtab : ℕ → Elf32Sym) (before after : Elf32Sym)
    → IsResolved s (with_symtab elf symtab) before after
    → IsResolved s elf before after
IsResolved-with_symtab s elf symtab before after resolved = record {
  name = resolved.name;
  shndx = resolved.shndx;
  value = resolved.value;
}

resolve_round :
    (k : ℕ) (s : Symbols) (symndx : ℕ) (elf : Module) (symtab : ℕ → Elf32Sym)
    (r : Run (Bool × Module))
    → ltb symndx elf.numsyms ≡ true
    → resolve_symbol s elf symndx ≡ ok (some (with_symtab elf symtab))
    → (symndx + 1) % 2 ^ 16 ≡ symndx + 1
    → resolve_loop k s (symndx + 1) (with_symtab elf symtab) ≡ r
    → resolve_loop (suc k) s symndx elf ≡ r
unfolding resolve_loop
resolve_round k s symndx elf symtab r below step wrapped run = rw (below, step, wrapped) run

resolve_loop_lem :
    (k : ℕ) (s : Symbols) (symndx : ℕ) (elf : Module)
    → elf.numsyms ≤ k + symndx
    → elf.numsyms < 2 ^ 16
    → ((j : ℕ) → symndx ≤ j → j < elf.numsyms → IsResolvable s elf (elf.symtab j))
    → (symtab : ℕ → Elf32Sym) × (resolve_loop k s symndx elf ≡ ok (true, with_symtab elf symtab))
      × ((j : ℕ) → j < symndx → symtab j ≡ elf.symtab j)
      × ((j : ℕ) → symndx ≤ j → j < elf.numsyms → IsResolved s elf (elf.symtab j) (symtab j))
unfolding resolve_loop
resolve_loop_lem zero s symndx elf fuel small resolvable =
    let over : ltb symndx elf.numsyms ≡ false = ground arith in
    (elf.symtab, rw over refl, λ j below. refl, λ j low high. absurd (omega arith))
resolve_loop_lem (suc k) s symndx elf fuel small resolvable =
    elim (Bool-cases (ltb symndx elf.numsyms)) [
      | inr e ↦ (elf.symtab, rw e refl, λ j below. refl, λ j low high. absurd (ground arith))
      | inl e ↦
          let below : symndx < elf.numsyms = ground arith in
          let (t, step, first, others) =
            resolve_symbol_lem s elf symndx (resolvable symndx (omega arith) below) in
          let wrapped : (symndx + 1) % 2 ^ 16 ≡ symndx + 1 = omega arith in
          let (symtab, run, before, behind) =
            resolve_loop_lem k s (symndx + 1) (with_symtab elf t) (omega arith) small (λ j low high.
              rw (others j (λ same. absurd (omega arith))) (resolvable j (omega arith) high)) in
          (
            symtab,
            resolve_round k s symndx elf t (ok (true, with_symtab elf symtab)) e step wrapped run,
            λ j low. before j (omega arith) ∙ others j (λ same. absurd (omega arith)),
            λ j low high. elim (Bool-cases (j == symndx)) [
              | inl at ↦
                  let same : j ≡ symndx = ground arith in
                  rw same (rw (before symndx (omega arith)) first)
              | inr other ↦
                  let different : j ≢ symndx = λ same. absurd (ground arith) in
                  subst (λ before. IsResolved s elf before (symtab j)) (others j different)
                    (IsResolved-with_symtab s elf t (t j) (symtab j) (behind j (ground arith) high))
            ],
          )
    ]

-- Let a module have less than `2 ^ 16` symbols, such that each one but the first has a reserved
-- section number, or none and a name with an address that is not 0, or the number of a section below
-- the reserved ones. Then `module_resolve_symbols` succeeds, the first symbol is as it was, and any
-- other one, at `i`, has the value it had, the address of its name, or the sum of its value and the
-- address of its section modulo `2 ^ 32`, and is else as it was.
pub module_resolve_symbols-IsResolved :
    (s : Symbols) (elf : Module) (i : ℕ)
    → elf.numsyms < 2 ^ 16
    → ((j : ℕ) → 1 ≤ j → j < elf.numsyms → IsResolvable s elf (elf.symtab j))
    → 1 ≤ i
    → i < elf.numsyms
    → (symtab : ℕ → Elf32Sym) × (module_resolve_symbols s elf ≡ ok (true, with_symtab elf symtab))
      × (symtab 0 ≡ elf.symtab 0)
      × IsResolved s elf (elf.symtab i) (symtab i)
unfolding module_resolve_symbols
module_resolve_symbols-IsResolved s elf i small resolvable low high =
    let (symtab, run, first, others) =
      resolve_loop_lem elf.numsyms s 1 elf (omega arith) small resolvable in
    (symtab, run, first 0 (omega arith), others i low high)
