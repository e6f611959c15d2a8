-- ===== src/Symbol/Tests.antt =====
-- A map of two lines, the second of which is not imported, and the symbols of two addresses.
use elfboot.Base.{◌<◌, ◌≡◌, ◌⊎◌, refl, true, [], ◌∷◌, arith}
use elfboot.Base.Run.{ok, fault}
use elfboot.Str.{strchr, is_digit, is_xdigit, digit_value}
use elfboot.Symbol.{ElfbootSymbol, symbol_lookup_caller, symbol_parse_map}
use elfboot.Symbol.Map.{Line, IsLine, text, table, symbol_parse_map-exported}
use elfboot.Symbol.Caller.{Closest, symbol_lookup_caller-Closest}

-- "1a T go".
abbrev go_line : Line
go_line = record { addr = 49 ∷ 97 ∷ []; kind = 84 ∷ []; name = 103 ∷ 111 ∷ [] }

-- "2 t _f".
abbrev inner_line : Line
inner_line = record { addr = 50 ∷ []; kind = 116 ∷ []; name = 95 ∷ 102 ∷ [] }

go_line-IsLine : IsLine go_line
unfolding strchr is_xdigit is_digit digit_value
go_line-IsLine = record {
  addr = (refl, (refl, tt));
  kind = (refl, tt);
  name = (refl, (refl, tt));
  digits = ((refl, omega arith), ((refl, omega arith), tt));
}

inner_line-IsLine : IsLine inner_line
unfolding strchr is_xdigit is_digit digit_value
inner_line-IsLine = record {
  addr = (refl, tt);
  kind = (refl, tt);
  name = (refl, (refl, tt));
  digits = ((refl, omega arith), tt);
}

abbrev go : ElfbootSymbol
go = record { name = 103 ∷ 111 ∷ []; addr = 26 }

abbrev stop : ElfbootSymbol
stop = record { name = 115 ∷ []; addr = 40 }

symbol_parse_map-exported_example :
    symbol_parse_map (table [] 0) (text (go_line ∷ inner_line ∷ [])) ≡ ok (true, table (go ∷ []) 1)
unfolding digit_value is_digit
symbol_parse_map-exported_example =
    symbol_parse_map-exported [] 0 (go_line ∷ inner_line ∷ []) (omega arith)
      (go_line-IsLine, (inner_line-IsLine, tt))

symbol_lookup_caller-Closest_example :
    ((30 < 26) × (symbol_lookup_caller (table (go ∷ stop ∷ []) 2) 30 ≡ fault))
    ⊎ ((symbol : ElfbootSymbol) × (symbol_lookup_caller (table (go ∷ stop ∷ []) 2) 30
          ≡ ok symbol.name)
        × Closest (go ∷ stop ∷ []) 30 symbol)
symbol_lookup_caller-Closest_example =
    symbol_lookup_caller-Closest (table (go ∷ stop ∷ []) 2) 30 go (stop ∷ []) refl (omega arith, tt)
