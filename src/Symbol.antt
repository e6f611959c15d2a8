-- ===== src/Symbol.antt =====
-- src/core/symbol.c: the imported symbols, the import of a symbol map and the searches.
pub mod Map
pub mod Caller
mod Tests
use elfboot.Base.{
  ℕ, zero, suc, ◌+◌, Bool, true, false, Option, none, some, List, [], ◌∷◌, ◌++◌, ltb, ◌==◌,
  if◌then◌else◌,
}
use elfboot.Base.Run.{Run, ok, fault, out_of_fuel, ◌>>=◌}
use elfboot.Core.{add32}
use elfboot.Str.{first, is_zero, strcmp, strlen, strtok, strtoul}
use elfboot.Loader.{alloc}

pub record ElfbootSymbol : Type 0 where
  pub name : List ℕ
  pub addr : ℕ

-- `allocs` says which of the next allocations succeed.
pub record Symbols : Type 0 where
  pub symbols : List ElfbootSymbol
  pub num_symbols : ℕ
  pub allocs : List Bool

-- Once there is memory for the symbol and its name.
abbrev pub append_symbol : Symbols → List ℕ → ℕ → Symbols
append_symbol s name addr = record s {
  symbols = s.symbols ++ (record { name = name; addr = addr }) ∷ [];
  num_symbols = add32 s.num_symbols 1;
}

-- Whether the result is 0.
unfoldable pub symbol_add : Symbols → List ℕ → ℕ → Bool × Symbols
symbol_add s name addr =
    let (a, allocs) = alloc s.allocs in
    let (b, allocs') = alloc allocs in
    if a
    then (if b
        then (true, append_symbol (record s { allocs = allocs' }) name addr)
        else (false, record s { allocs = allocs' }))
    else (false, record s { allocs = allocs })

-- The loop of `symbol_lookup_name`.
unfoldable pub find_name : List ElfbootSymbol → List ℕ → ℕ
find_name [] name = 0
find_name (symbol ∷ symbols) name =
    let more = find_name symbols name in
    if is_zero (strcmp name symbol.name) then symbol.addr else more

unfoldable pub symbol_lookup_name : Symbols → List ℕ → ℕ
symbol_lookup_name s name = find_name s.symbols name

-- The loop of `symbol_lookup`.
unfoldable pub find_addr : List ElfbootSymbol → ℕ → Option (List ℕ)
find_addr [] addr = none
find_addr (symbol ∷ symbols) addr =
    let more = find_addr symbols addr in if addr == symbol.addr then some symbol.name else more

unfoldable pub symbol_lookup : Symbols → ℕ → Option (List ℕ)
symbol_lookup s addr = find_addr s.symbols addr

-- The loop of `symbol_lookup_caller`.
unfoldable pub caller_loop : List ElfbootSymbol → ℕ → Option ElfbootSymbol → Option ElfbootSymbol
caller_loop [] addr caller = caller
caller_loop (symbol ∷ symbols) addr caller =
    let more = caller_loop symbols addr (some symbol) in
    if ltb addr symbol.addr then caller else more

-- `caller->name`.
abbrev pub caller_name : Option ElfbootSymbol → Run (List ℕ)
caller_name none = fault
caller_name (some symbol) = ok symbol.name

unfoldable pub symbol_lookup_caller : Symbols → ℕ → Run (List ℕ)
symbol_lookup_caller s addr = caller_name (caller_loop s.symbols addr none)

-- " \n".
abbrev pub delimiter : List ℕ
delimiter = 32 ∷ 10 ∷ []

-- What a round does with the address and the name that it took; whether the result is 0.
abbrev pub map_symbol : Symbols → List ℕ → Option (List ℕ) → Run (Bool × Symbols)
map_symbol s addr none = fault
map_symbol s addr (some name) =
    if first name == 95 then ok (true, s) else ok (symbol_add s name (strtoul addr 16).0)

-- The next round, unless a symbol was not added.
abbrev pub go_on : (Symbols → Run (Bool × Symbols)) → Bool × Symbols → Run (Bool × Symbols)
go_on next (false, s) = ok (false, s)
go_on next (true, s) = next s

-- The loop of `symbol_parse_map`, with the address and the static pointer of `strtok`.
unfoldable pub map_loop : ℕ → Symbols → Option (List ℕ) × Option (List ℕ) → Run (Bool × Symbols)
map_loop k s (none, p) = ok (true, s)
map_loop zero s (some addr, p) = out_of_fuel
map_loop (suc k) s (some addr, p) =
    let kind = strtok none delimiter p in
    let name = strtok none delimiter kind.1 in
    do
      added ← map_symbol s addr name.0
      go_on (λ s'. map_loop k s' (strtok none delimiter name.1)) added

-- Each round takes a byte or more.
unfoldable pub symbol_parse_map : Symbols → List ℕ → Run (Bool × Symbols)
symbol_parse_map s syms = map_loop (strlen syms + 1) s (strtok (some syms) delimiter none)
