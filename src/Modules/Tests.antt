-- ===== src/Modules/Tests.antt =====
-- A module with an undefined symbol, and two relocations of its first section.
use elfboot.Base.{zero, suc, ℕ, ◌≡◌, ◌≢◌, refl, inl, inr, true, List, [], ◌∷◌, arith}
use elfboot.Base.Run.{ok}
use elfboot.Str.{strcmp}
use elfboot.Symbol.{Symbols, symbol_lookup_name, find_name}
use elfboot.Modules.{
  Elf32Shdr, Elf32Sym, Elf32Rel, Module, Memory, entries, module_apply_relocate,
  module_resolve_symbols,
}
use elfboot.Modules.Relocate.{AreRelocated, module_apply_relocate-AreRelocated}
use elfboot.Modules.Resolve.{IsResolved, with_symtab, module_resolve_symbols-IsResolved}

abbrev text_section : Elf32Shdr
text_section = record {
  sh_type = 1;
  sh_flags = 0;
  sh_addr = 8192;
  sh_offset = 64;
  sh_size = 8;
  sh_info = 0;
}

abbrev rel_section : Elf32Shdr
rel_section = record {
  sh_type = 9;
  sh_flags = 0;
  sh_addr = 8256;
  sh_offset = 128;
  sh_size = 16;
  sh_info = 1;
}

abbrev go : List ℕ
go = 103 ∷ 111 ∷ []

abbrev elf : Module
elf = record {
  ehdr = 4096;
  e_shnum = 3;
  shdr = λ i. text_section;
  symtab = λ i. record { st_name = 1; st_value = 100; st_shndx = 0 };
  numsyms = 2;
  strtab = λ offset. go;
}

abbrev rel : ℕ → Elf32Rel
rel zero = record { r_offset = 0; r_info = 257 }
rel (suc ndx) = record { r_offset = 4; r_info = 258 }

abbrev zeros : Memory
zeros a = 0

module_apply_relocate-AreRelocated_example :
    ((module_apply_relocate elf rel_section rel zeros).0 ≡ true)
    × AreRelocated elf rel_section zeros
        (module_apply_relocate elf rel_section rel zeros).1
        (entries rel 2 0)
    × ((module_apply_relocate elf rel_section rel zeros).1 20 ≡ 0)
module_apply_relocate-AreRelocated_example =
    module_apply_relocate-AreRelocated elf rel_section rel zeros 20 (inl refl, (inr refl, tt))
      (omega arith, (omega arith, tt)) ((inl (omega arith), tt), (tt, tt))
      (inl (omega arith), (inl (omega arith), tt))

abbrev known : Symbols
known = record { symbols = (record { name = go; addr = 26 }) ∷ []; num_symbols = 1; allocs = [] }

go_known : symbol_lookup_name known go ≢ 0
unfolding symbol_lookup_name find_name strcmp
go_known = λ e. absurd (omega (arith, e))

module_resolve_symbols-IsResolved_example :
    (symtab : ℕ → Elf32Sym) × (module_resolve_symbols known elf ≡ ok (true, with_symtab elf symtab))
    × (symtab 0 ≡ elf.symtab 0)
    × IsResolved known elf (elf.symtab 1) (symtab 1)
module_resolve_symbols-IsResolved_example =
    module_resolve_symbols-IsResolved known elf 1 (omega arith)
      (λ j low high. inr (inl (refl, go_known))) (omega arith) (omega arith)
