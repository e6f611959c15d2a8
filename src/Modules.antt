-- ===== src/Modules.antt =====
-- src/core/module.c: the sections, the symbols and the relocations of a module. The section headers,
-- the symbol table and the tables of relocations lie apart from the bytes that are relocated; each is
-- read as a function of the index. The string table is the string at each offset.
pub mod Words
pub mod Relocate
pub mod Resolve
mod Tests
use Prim.Native.Nat.{bit_and}
use elfboot.Base.{
  ℕ, zero, suc, ◌+◌, ◌-◌, ◌*◌, ◌/◌, ◌%◌, ◌^◌, Bool, true, false, not, ◌&&◌, ◌||◌, Option, none,
  some, List, [], ◌∷◌, ltb, leb, ◌==◌, if◌then◌else◌,
}
use elfboot.Base.Run.{Run, ok, fault, out_of_fuel, ◌>>=◌}
use elfboot.Core.{add32, sub32}
use elfboot.PageAlloc.{change}
use elfboot.Str.{is_zero, strcmp}
use elfboot.Symbol.{Symbols, symbol_lookup_name}

abbrev pub sht_nobits : ℕ
sht_nobits = 8

abbrev pub sht_rel : ℕ
sht_rel = 9

abbrev pub shf_rela_livepatch : ℕ
shf_rela_livepatch = 0x00100000

abbrev pub shn_undef : ℕ
shn_undef = 0

abbrev pub shn_livepatch : ℕ
shn_livepatch = 0xff20

abbrev pub shn_abs : ℕ
shn_abs = 0xfff1

abbrev pub shn_common : ℕ
shn_common = 0xfff2

abbrev pub r_386_32 : ℕ
r_386_32 = 1

abbrev pub r_386_pc32 : ℕ
r_386_pc32 = 2

pub record Elf32Shdr : Type 0 where
  pub sh_type : ℕ
  pub sh_flags : ℕ
  pub sh_addr : ℕ
  pub sh_offset : ℕ
  pub sh_size : ℕ
  pub sh_info : ℕ

pub record Elf32Sym : Type 0 where
  pub st_name : ℕ
  pub st_value : ℕ
  pub st_shndx : ℕ

pub record Elf32Rel : Type 0 where
  pub r_offset : ℕ
  pub r_info : ℕ

-- `ehdr` is the address of the buffer, `e_shnum` a member of its header.
pub record Module : Type 0 where
  pub ehdr : ℕ
  pub e_shnum : ℕ
  pub shdr : ℕ → Elf32Shdr
  pub symtab : ℕ → Elf32Sym
  pub numsyms : ℕ
  pub strtab : ℕ → List ℕ

-- A byte at each address.
abbrev pub Memory : Type 0
Memory = ℕ → ℕ

-- The word at an address, the lowest byte first.
unfoldable pub read32 : Memory → ℕ → ℕ
read32 m a = m a + 256 * m (a + 1) + 65536 * m (a + 2) + 16777216 * m (a + 3)

unfoldable pub write32 : Memory → ℕ → ℕ → Memory
write32 m a v =
    change
      (change (change (change m a (v % 256)) (a + 1) (v / 256 % 256)) (a + 2) (v / 65536 % 256))
      (a + 3) (v / 16777216 % 256)

-- The loop of `module_find_symbol`, with the symbols left.
unfoldable pub find_symbol : Module → List ℕ → ℕ → ℕ → Option ℕ
find_symbol elf name zero symndx = none
find_symbol elf name (suc left) symndx =
    let more = find_symbol elf name left (symndx + 1) in
    if is_zero (strcmp name (elf.strtab (elf.symtab symndx).st_name)) then some symndx else more

unfoldable pub module_find_symbol : Module → List ℕ → Option ℕ
module_find_symbol elf name = find_symbol elf name elf.numsyms 0

abbrev pub set_addr : Module → ℕ → ℕ → Module
set_addr elf shndx addr = record elf {
  shdr = change elf.shdr shndx (record (elf.shdr shndx) { sh_addr = addr });
}

abbrev pub zero_bytes : Memory → ℕ → ℕ → Memory
zero_bytes m addr size a = if leb addr a && ltb a (addr + size) then 0 else m a

-- `bmalloc` gives an address, or 0, for a section and its size.
module _ (bmalloc : ℕ → ℕ → ℕ) where
  -- What happens to the section; whether there was memory.
  unfoldable pub load_section : Module → Memory → ℕ → Bool × Module × Memory
  load_section elf m shndx =
      let shdr = elf.shdr shndx in
      let addr = bmalloc shndx shdr.sh_size in
      if shdr.sh_type == sht_nobits
      then (
        not (addr == 0),
        set_addr elf shndx addr,
        if addr == 0 then m else zero_bytes m addr shdr.sh_size,
      )
      else (true, set_addr elf shndx (add32 elf.ehdr shdr.sh_offset), m)

  -- What follows it.
  abbrev pub loaded :
      (Module → Memory → Bool × Module × Memory) → Bool × Module × Memory → Bool × Module × Memory
  loaded next (false, elf, m) = (false, elf, m)
  loaded next (true, elf, m) = next elf m

  -- The loop of `module_load_sections`, with the sections left.
  unfoldable pub load_loop : ℕ → ℕ → Module → Memory → Bool × Module × Memory
  load_loop zero shndx elf m = (true, elf, m)
  load_loop (suc left) shndx elf m =
      loaded (λ elf' m'. load_loop left (shndx + 1) elf' m') (load_section elf m shndx)

  -- Whether the result is 0.
  unfoldable pub module_load_sections : Module → Memory → Bool × Module × Memory
  module_load_sections elf m = load_loop elf.e_shnum 0 elf m

abbrev pub set_value : Module → ℕ → ℕ → Module
set_value elf symndx value = record elf {
  symtab = change elf.symtab symndx (record (elf.symtab symndx) { st_value = value });
}

-- The `switch` of `module_resolve_symbols`; nothing where it returns an error. A section number
-- behind the headers reads outside of them.
unfoldable pub resolve_symbol : Symbols → Module → ℕ → Run (Option Module)
resolve_symbol s elf symndx =
    let sym = elf.symtab symndx in
    let bsymval = symbol_lookup_name s (elf.strtab sym.st_name) in
    if sym.st_shndx == shn_common || sym.st_shndx == shn_abs || sym.st_shndx == shn_livepatch
    then ok (some elf)
    else if sym.st_shndx == shn_undef
    then (if bsymval == 0 then ok none else ok (some (set_value elf symndx bsymval)))
    else if leb elf.e_shnum sym.st_shndx
    then fault
    else ok (some (set_value elf symndx (add32 sym.st_value (elf.shdr sym.st_shndx).sh_addr)))

abbrev pub resolved_one :
    (Module → Run (Bool × Module)) → Module → Option Module → Run (Bool × Module)
resolved_one next elf none = ok (false, elf)
resolved_one next elf (some elf') = next elf'

-- The loop of `module_resolve_symbols`, whose counter has 16 bits.
unfoldable pub resolve_loop : ℕ → Symbols → ℕ → Module → Run (Bool × Module)
resolve_loop zero s symndx elf = if ltb symndx elf.numsyms then out_of_fuel else ok (true, elf)
resolve_loop (suc k) s symndx elf =
    let rest =
      resolve_symbol s elf symndx
      >>= resolved_one (λ elf'. resolve_loop k s ((symndx + 1) % 2 ^ 16) elf') elf in
    if ltb symndx elf.numsyms then rest else ok (true, elf)

-- Whether the result is 0.
unfoldable pub module_resolve_symbols : Symbols → Module → Run (Bool × Module)
module_resolve_symbols s elf = resolve_loop elf.numsyms s 1 elf

-- `pos` of a relocation.
abbrev pub position : Module → Elf32Shdr → Elf32Rel → ℕ
position elf shdr rel = add32 (elf.shdr shdr.sh_info).sh_addr rel.r_offset

-- The new word at `pos`, or nothing for another type of relocation.
unfoldable pub relocated : Module → ℕ → Elf32Rel → ℕ → Option ℕ
relocated elf pos rel word =
    let value = (elf.symtab (rel.r_info / 256)).st_value in
    if rel.r_info % 256 == r_386_32
    then some (add32 word value)
    else if rel.r_info % 256 == r_386_pc32
    then some (add32 word (sub32 value pos))
    else none

-- The word is written, and what follows.
abbrev pub written : (Memory → Bool × Memory) → ℕ → Memory → Option ℕ → Bool × Memory
written next pos m none = (false, m)
written next pos m (some word) = next (write32 m pos word)

-- The loop of `module_apply_relocate`, with the relocations left.
unfoldable pub relocate_loop : Module → Elf32Shdr → List Elf32Rel → Memory → Bool × Memory
relocate_loop elf shdr [] m = (true, m)
relocate_loop elf shdr (rel ∷ rels) m =
    let pos = position elf shdr rel in
    written (λ m'. relocate_loop elf shdr rels m') pos m (relocated elf pos rel (read32 m pos))

-- The `n` relocations from the index `ndx` on.
abbrev pub entries : (ℕ → Elf32Rel) → ℕ → ℕ → List Elf32Rel
entries rel zero ndx = []
entries rel (suc n) ndx = rel ndx ∷ entries rel n (ndx + 1)

-- Whether the result is 0. `rel` has the entry at each index from `sh_addr` on, of 8 bytes.
unfoldable pub module_apply_relocate : Module → Elf32Shdr → (ℕ → Elf32Rel) → Memory → Bool × Memory
module_apply_relocate elf shdr rel m = relocate_loop elf shdr (entries rel (shdr.sh_size / 8) 0) m

-- One section of `module_resolve_relocations`, with `ret` being 0 or not before: whether the loop
-- ends, `ret`, and the memory.
unfoldable pub relocate_section :
    Module → (ℕ → ℕ → Elf32Rel) → ℕ → Bool → Memory → Bool × Bool × Memory
relocate_section elf rels shndx success m =
    let shdr = elf.shdr shndx in
    let (done, m') = module_apply_relocate elf shdr (rels shndx) m in
    if leb elf.e_shnum shdr.sh_info || not (bit_and shdr.sh_flags shf_rela_livepatch == 0)
    then (false, success, m)
    else if shdr.sh_type == sht_rel
    then (not done, done, m')
    else (not success, success, m)

abbrev pub unless_ended : (Bool → Memory → Memory) → Bool × Bool × Memory → Memory
unless_ended next (true, success, m) = m
unless_ended next (false, success, m) = next success m

-- The loop of `module_resolve_relocations`, with the sections left.
unfoldable pub relocations_loop : Module → (ℕ → ℕ → Elf32Rel) → ℕ → ℕ → Bool → Memory → Memory
relocations_loop elf rels zero shndx success m = m
relocations_loop elf rels (suc left) shndx success m =
    unless_ended (λ success' m'. relocations_loop elf rels left (shndx + 1) success' m')
      (relocate_section elf rels shndx success m)

-- `ret` is not set before the loop: `garbage` is whether it happens to be 0. The result is 0 always.
unfoldable pub module_resolve_relocations : Module → (ℕ → ℕ → Elf32Rel) → Bool → Memory → Memory
module_resolve_relocations elf rels garbage m =
    relocations_loop elf rels (elf.e_shnum - 1) 1 garbage m
