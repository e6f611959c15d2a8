-- ===== src/Symbol/Map.antt =====
-- src/core/symbol.c: the import of a symbol map, the output of "nm".
use mathlib.Core.List.{append-nil, append_assoc}
use elfboot.Base.{
  ℕ, zero, suc, ◌+◌, ◌%◌, ◌^◌, ◌≤◌, ◌<◌, ◌≡◌, refl, sym, ap, ◌∙◌, inl, inr, Bool-cases, true, false,
  not, ◌&&◌, some, none, List, [], ◌∷◌, ◌++◌, length, arith, ◌==◌, if◌then◌else◌, all_below,
  all_below-lt,
}
use elfboot.Base.Run.{ok}
use elfboot.Core.{u32}
use elfboot.Str.{
  first, rest, to_lower, is_digit, is_xdigit, strchr, strspn, strcspn, strlen, strtok, strtoul,
}
use elfboot.Str.Tokens.{is_delim, All}
use elfboot.Str.Numbers.{number, IsDigit, AllDigits, strtoul_lem}
use elfboot.Str.Words.{strtok-word}
use elfboot.Symbol.{ElfbootSymbol, Symbols, delimiter, symbol_add, map_loop, symbol_parse_map}

abbrev pub IsWord : List ℕ → Type 0
IsWord [] = ⊥
IsWord (c ∷ word) = All (is_delim delimiter) false (c ∷ word)

-- A line of the map.
pub record Line : Type 0 where
  pub addr : List ℕ
  pub kind : List ℕ
  pub name : List ℕ

pub record IsLine (line : Line) : Type 0 where
  pub addr : IsWord line.addr
  pub kind : IsWord line.kind
  pub name : IsWord line.name
  pub digits : AllDigits 16 line.addr

abbrev pub AreLines : List Line → Type 0
AreLines [] = Unit {0}
AreLines (line ∷ lines) = IsLine line × AreLines lines

abbrev pub text : List Line → List ℕ
text [] = []
text (line ∷ lines) = line.addr ++ 32 ∷ (line.kind ++ 32 ∷ (line.name ++ 10 ∷ text lines))

-- The symbols of the lines, without those whose name starts with an underscore.
abbrev pub exported : List Line → List ElfbootSymbol
exported [] = []
exported (line ∷ lines) =
    let others = exported lines in
    if first line.name == 95
    then others
    else (record { name = line.name; addr = number 16 0 line.addr % 2 ^ 32 }) ∷ others

-- Symbols with memory for what is to come.
abbrev pub table : List ElfbootSymbol → ℕ → Symbols
table symbols num_symbols = record { symbols = symbols; num_symbols = num_symbols; allocs = [] }

-- No digit is the "x" of a prefix.
plain_digit : (c : ℕ) → IsDigit 16 c → (to_lower c == 120) ≡ false
unfolding is_xdigit is_digit all_below
plain_digit c digit =
    let no_x =
      all_below-lt 103 (λ k. not (to_lower k == 120 && is_xdigit k)) refl c
        (ground (arith, digit.0)) in
    elim (Bool-cases (to_lower c == 120)) [
      | inl e ↦ absurd (let bad : false ≡ true = rw (e, digit.0) at no_x in cc)
      | inr e ↦ e
    ]

second_digit :
    (addr : List ℕ) → AllDigits 16 addr → (to_lower (first (rest (addr ++ []))) == 120) ≡ false
second_digit [] digits = refl
second_digit (c ∷ []) digits = refl
second_digit (c ∷ d ∷ addr) (_, (digit, _)) = plain_digit d digit

no-IsDigit : ¬ IsDigit 16 0
unfolding is_xdigit is_digit
no-IsDigit (digit, _) = cc

address_lem : (addr : List ℕ) → AllDigits 16 addr → (strtoul addr 16).0 ≡ number 16 0 addr % 2 ^ 32
address_lem addr digits =
    ap (λ t. (strtoul t 16).0) (sym (append-nil addr))
    ∙ ap (λ r. r.0)
        (strtoul_lem 16 addr [] (omega arith) digits no-IsDigit (second_digit addr digits))

strtok-space :
    (word more : List ℕ)
    → IsWord word
    → strtok none delimiter (some (word ++ 32 ∷ more)) ≡ (some word, some more)
unfolding strchr
strtok-space [] more h = absurd h
strtok-space (c ∷ word) more h = strtok-word delimiter 32 refl c word more (omega arith) h

strtok-line :
    (word more : List ℕ)
    → IsWord word
    → strtok none delimiter (some (word ++ 10 ∷ more)) ≡ (some word, some more)
unfolding strchr
strtok-line [] more h = absurd h
strtok-line (c ∷ word) more h = strtok-word delimiter 10 refl c word more (omega arith) h

map_loop_lem :
    (k : ℕ) (symbols : List ElfbootSymbol) (num : ℕ) (lines : List Line)
    → length lines < k
    → num < 2 ^ 32
    → AreLines lines
    → map_loop k (table symbols num) (strtok none delimiter (some (text lines)))
      ≡ ok (true, table (symbols ++ exported lines) (u32 (num + length (exported lines))))
unfolding map_loop strtok strspn strcspn symbol_add
map_loop_lem zero symbols num lines fuel small h = absurd (omega arith)
map_loop_lem (suc k) symbols num [] fuel small h =
    let same : u32 (num + 0) ≡ num = omega arith in rw (append-nil symbols, same) refl
map_loop_lem (suc k) symbols num (line ∷ lines) fuel small (is_line, h) =
    let at_kind = line.kind ++ 32 ∷ (line.name ++ 10 ∷ text lines) in
    let addr = strtok-space line.addr at_kind is_line.addr in
    let kind = strtok-space line.kind (line.name ++ 10 ∷ text lines) is_line.kind in
    let name = strtok-line line.name (text lines) is_line.name in
    let symbol : ElfbootSymbol = record {
      name = line.name;
      addr = number 16 0 line.addr % 2 ^ 32;
    } in
    ap (λ t. map_loop (suc k) (table symbols num) t) addr
    ∙ elim (Bool-cases (first line.name == 95)) [
      | inl e ↦ rw (kind, name, e) (map_loop_lem k symbols num lines (omega arith) small h)
      | inr e ↦
          let count : u32 (u32 (num + 1) + length (exported lines))
              ≡ u32 (num + suc (length (exported lines))) =
            omega arith in
          rw (kind, name, e, address_lem line.addr is_line.digits)
            (map_loop_lem k (symbols ++ symbol ∷ []) (u32 (num + 1)) lines (omega arith)
                (omega arith) h
              ∙ rw (append_assoc symbols (symbol ∷ []) (exported lines), count) refl)
    ]

strlen-behind : (word more : List ℕ) → strlen more ≤ strlen (word ++ more)
unfolding strlen
strlen-behind [] more = omega arith
strlen-behind (c ∷ word) more = omega (arith, strlen-behind word more)

length-text : (lines : List Line) → length lines ≤ strlen (text lines)
unfolding strlen
length-text [] = omega arith
length-text (line ∷ lines) =
    let at_name = line.name ++ 10 ∷ text lines in
    omega (
      arith,
      length-text lines,
      strlen-behind line.addr (32 ∷ (line.kind ++ 32 ∷ at_name)),
      strlen-behind line.kind (32 ∷ at_name),
      strlen-behind line.name (10 ∷ text lines),
    )

-- With memory for them, and a counter below `2 ^ 32`, `symbol_parse_map` adds behind the symbols the
-- ones of the map in its order, each with the hexadecimal number of its line modulo `2 ^ 32` as the
-- address, but those whose name starts with an underscore; the counter is raised by their number
-- modulo `2 ^ 32`. Each line of the map has an address of hexadecimal digits without a prefix, a
-- kind and a name, words without a space, an end of line or a zero, and one byte behind each.
pub symbol_parse_map-exported :
    (symbols : List ElfbootSymbol) (num : ℕ) (lines : List Line)
    → num < 2 ^ 32
    → AreLines lines
    → symbol_parse_map (table symbols num) (text lines)
      ≡ ok (true, table (symbols ++ exported lines) ((num + length (exported lines)) % 2 ^ 32))
unfolding symbol_parse_map strtok
symbol_parse_map-exported symbols num lines small h =
    map_loop_lem (strlen (text lines) + 1) symbols num lines (omega (arith, length-text lines))
      small h
