-- ===== src/Symbol/Caller.antt =====
-- src/core/symbol.c: the symbol that an address belongs to.
use mathlib.Core.List.{Mem, mem-cons_self, mem-cons_of_mem}
use elfboot.Base.{
  ℕ, ◌≤◌, ◌<◌, ◌≡◌, ◌⊎◌, refl, inl, inr, Bool-cases, some, List, [], ◌∷◌, ltb, arith,
}
use elfboot.Base.Run.{ok, fault}
use elfboot.Symbol.{ElfbootSymbol, Symbols, caller_loop, symbol_lookup_caller}

-- The addresses rise from a bound on.
abbrev pub Ascends : ℕ → List ElfbootSymbol → Type 0
Ascends low [] = Unit {0}
Ascends low (symbol ∷ symbols) = (low ≤ symbol.addr) × Ascends symbol.addr symbols

-- Each symbol lies above the address, or not above `top`.
abbrev pub Highest : List ElfbootSymbol → ℕ → ℕ → Type 0
Highest [] addr top = Unit {0}
Highest (other ∷ symbols) addr top =
    ((addr < other.addr) ⊎ (other.addr ≤ top)) × Highest symbols addr top

-- The symbol is one of the symbols that do not lie above the address, and none of these lies higher.
pub record Closest (symbols : List ElfbootSymbol) (addr : ℕ) (symbol : ElfbootSymbol) : Type 0 where
  pub among : Mem symbol symbols
  pub below : symbol.addr ≤ addr
  pub highest : Highest symbols addr symbol.addr

Highest-above :
    (symbols : List ElfbootSymbol) (addr low top : ℕ)
    → addr < low
    → Ascends low symbols
    → Highest symbols addr top
Highest-above [] addr low top above ascends = tt
Highest-above (other ∷ symbols) addr low top above (first, ascends) =
    (inl (omega arith), Highest-above symbols addr other.addr top (omega arith) ascends)

-- The rest of the loop, behind a symbol that does not lie above the address.
caller_loop_lem :
    (symbols : List ElfbootSymbol) (addr : ℕ) (before : ElfbootSymbol)
    → Ascends before.addr symbols
    → before.addr ≤ addr
    → (symbol : ElfbootSymbol) × (caller_loop symbols addr (some before) ≡ some symbol)
      × (before.addr ≤ symbol.addr)
      × Closest (before ∷ symbols) addr symbol
unfolding caller_loop
caller_loop_lem [] addr before ascends below = (
  before,
  refl,
  omega arith,
  record { among = mem-cons_self; below = below; highest = (inr (omega arith), tt) },
)
caller_loop_lem (next ∷ symbols) addr before (first, ascends) below =
    elim (Bool-cases (ltb addr next.addr)) [
      | inl e ↦
          let above : addr < next.addr = ground arith in
          (
            before,
            rw e refl,
            omega arith,
            record {
              among = mem-cons_self;
              below = below;
              highest = (
                inr (omega arith),
                (inl above, Highest-above symbols addr next.addr before.addr above ascends),
              );
            },
          )
      | inr e ↦
          let (symbol, run, higher, closest) =
            caller_loop_lem symbols addr next ascends (ground arith) in
          (
            symbol,
            rw e run,
            omega arith,
            record {
              among = mem-cons_of_mem before closest.among;
              below = closest.below;
              highest = (inr (omega arith), closest.highest);
            },
          )
    ]

-- Where the addresses of the symbols rise, `symbol_lookup_caller` faults for an address below the
-- first one, and returns otherwise the name of a symbol that does not lie above the address, such
-- that no other of these symbols lies higher.
pub symbol_lookup_caller-Closest :
    (s : Symbols) (addr : ℕ) (first : ElfbootSymbol) (symbols : List ElfbootSymbol)
    → s.symbols ≡ first ∷ symbols
    → Ascends first.addr symbols
    → ((addr < first.addr) × (symbol_lookup_caller s addr ≡ fault))
      ⊎ ((symbol : ElfbootSymbol) × (symbol_lookup_caller s addr ≡ ok symbol.name)
          × Closest s.symbols addr symbol)
unfolding symbol_lookup_caller caller_loop
symbol_lookup_caller-Closest s addr first symbols listed ascends =
    elim (Bool-cases (ltb addr first.addr)) [
      | inl e ↦ inl (ground arith, rw (listed, e) refl)
      | inr e ↦
          let (symbol, run, _, closest) =
            caller_loop_lem symbols addr first ascends (ground arith) in
          inr (symbol, rw (listed, e, run) refl, rw listed closest)
    ]
