-- ===== src/Crc32.antt =====
-- src/crypto/crc32.c: the checksum, with its table. A buffer is the list of its bytes.
pub mod Shift
pub mod Bitwise
mod Tests
use Prim.Native.Nat.{bit_and, bit_xor}
use elfboot.Base.{
  ℕ, zero, suc, ◌+◌, ◌-◌, ◌*◌, ◌/◌, ◌%◌, ◌^◌, Bool, true, false, Option, none, some, List, [], ◌∷◌,
  ltb, ◌==◌, if◌then◌else◌,
}
use elfboot.Base.Run.{Run, ok, fault}
use elfboot.Core.{u32, sub32}
use elfboot.Loader.{alloc}

abbrev pub crc32_seed : ℕ
crc32_seed = 0x0e1fb007

-- One round of the inner loop of `crc32_init_table`.
abbrev pub table_step : ℕ → ℕ
table_step c = if bit_and c (2 ^ 31) == 0 then u32 (c * 2) else bit_xor (u32 (c * 2)) crc32_seed

-- The inner loop, with `j`.
unfoldable pub table_loop : ℕ → ℕ → ℕ
table_loop zero c = c
table_loop (suc j) c = table_loop j (table_step c)

-- The entries that the outer loop writes.
abbrev pub table : ℕ → ℕ
table i = table_loop 8 (u32 (i * 2 ^ 24))

-- `crc32_table` is null, or a table. `allocs` says which of the next allocations succeed.
pub record Crc32 : Type 0 where
  pub crc32_table : Option (ℕ → ℕ)
  pub allocs : List Bool

-- Whether the result is 0.
unfoldable pub crc32_init_table : Crc32 → Bool × Crc32
crc32_init_table s =
    let (a, allocs) = alloc s.allocs in
    if a
    then (true, record { crc32_table = some table; allocs = allocs })
    else (false, record { crc32_table = none; allocs = allocs })

-- A `char` as an `unsigned int`, which takes the sign along.
abbrev pub char_word : ℕ → ℕ
char_word c = if ltb c 128 then c else c + (2 ^ 32 - 256)

abbrev pub crc_step : (ℕ → ℕ) → ℕ → ℕ → ℕ
crc_step entries crc c =
    bit_xor (u32 (crc * 2 ^ 8)) (entries (bit_and (bit_xor (crc / 2 ^ 24) (char_word c)) 255))

-- The loop of `crc32`, with `length`.
unfoldable pub crc_loop : (ℕ → ℕ) → ℕ → List ℕ → ℕ → Run ℕ
crc_loop entries zero buffer crc = ok crc
crc_loop entries (suc length) [] crc = fault
crc_loop entries (suc length) (c ∷ buffer) crc =
    crc_loop entries length buffer (crc_step entries crc c)

abbrev pub efault : ℕ
efault = 14

-- What `crc32` does once the table was asked for.
abbrev pub with_table : Option (ℕ → ℕ) → List ℕ → ℕ → Run ℕ
with_table none buffer length = ok (sub32 0 efault)
with_table (some entries) buffer length = crc_loop entries length buffer (2 ^ 32 - 1)

-- The table that there is, or that is made.
abbrev pub ready : Crc32 → Option (ℕ → ℕ) → Crc32
ready s none = (crc32_init_table s).1
ready s (some entries) = s

unfoldable pub crc32 : Crc32 → List ℕ → ℕ → Run ℕ × Crc32
crc32 s buffer length =
    let s' = ready s s.crc32_table in (with_table s'.crc32_table buffer length, s')
