-- ===== src/Crc32/Tests.antt =====
-- The checksum of two bytes, the second of them above 127.
use elfboot.Base.{ℕ, ◌-◌, ◌^◌, ◌≡◌, refl, inr, none, some, List, [], ◌∷◌, arith}
use elfboot.Base.Run.{ok}
use elfboot.Crc32.{Crc32, table, crc32}
use elfboot.Crc32.Bitwise.{remainder, crc32-remainder}

abbrev fresh : Crc32
fresh = record { crc32_table = none; allocs = [] }

abbrev bytes : List ℕ
bytes = 97 ∷ 200 ∷ []

crc32-remainder_example :
    ((crc32 fresh bytes 2).0 ≡ ok (remainder (2 ^ 32 - 1) bytes))
    × ((crc32 fresh bytes 2).1.crc32_table ≡ some table)
crc32-remainder_example =
    crc32-remainder fresh bytes (inr (refl, refl)) (omega arith, (omega arith, tt))
