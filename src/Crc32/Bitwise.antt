-- ===== src/Crc32/Bitwise.antt =====
-- src/crypto/crc32.c: the checksum bit by bit, without a table.
use Prim.Native.Nat.{bit_and, bit_xor}
use elfboot.Base.{
  ℕ, ◌+◌, ◌-◌, ◌*◌, ◌/◌, ◌%◌, ◌^◌, ◌<◌, ◌≡◌, ◌⊎◌, refl, ap, ap₂, sym, ◌∙◌, inl, inr, Bool-cases,
  true, Option, none, some, List, [], ◌∷◌, length, arith, ltb,
}
use elfboot.Base.Run.{ok}
use elfboot.Core.{u32}
use elfboot.Math.Bits.{bit_and_mask, bit_xor-zero}
use elfboot.Math.Xor.{bit_xor_comm, zero-bit_xor, bit_xor_small, bit_xor_fields}
use elfboot.Loader.{alloc}
use elfboot.Crc32.{
  Crc32, table_loop, table, char_word, crc_step, crc_loop, with_table, crc32_init_table, crc32,
}
use elfboot.Crc32.Shift.{shifts, doubled, shifts_xor, table_loop_lem, shifts_small}

-- Each byte is put into the upper bits of the remainder, which is then shifted eight times.
abbrev pub remainder : ℕ → List ℕ → ℕ
remainder crc [] = crc
remainder crc (c ∷ buffer) = remainder (shifts 8 (bit_xor crc (c * 2 ^ 24))) buffer

abbrev pub AreBytes : List ℕ → Type 0
AreBytes [] = Unit {0}
AreBytes (c ∷ buffer) = (c < 256) × AreBytes buffer

index_lem : (h c : ℕ) → h < 2 ^ 8 → c < 2 ^ 8 → bit_and (bit_xor h (char_word c)) 255 ≡ bit_xor h c
index_lem h c p q =
    let small = bit_xor_small 8 h c p q in
    let mask = bit_and_mask 8 (bit_xor h (char_word c)) in
    elim (Bool-cases (ltb c 128)) [
      | inl e ↦ rw e (rw e at mask ∙ omega (arith, small))
      | inr e ↦
          let word : 16777215 * 2 ^ 8 + c ≡ c + (2 ^ 32 - 256) = omega arith in
          let alone : 0 * 2 ^ 8 + h ≡ h = omega arith in
          let sum =
            sym (ap₂ (λ t u. bit_xor t u) alone word) ∙ bit_xor_fields 8 0 16777215 h c p q in
          rw e (rw e at mask ∙ omega (arith, small, sum))
    ]

-- The fields of a remainder with a byte.
byte_xor :
    (crc c : ℕ)
    → bit_xor crc (c * 2 ^ 24) ≡ bit_xor (bit_xor (crc / 2 ^ 24) c * 2 ^ 24) (crc % 2 ^ 24)
byte_xor crc c =
    let h = crc / 2 ^ 24 in
    let l = crc % 2 ^ 24 in
    let whole : h * 2 ^ 24 + l ≡ crc = omega arith in
    let byte : c * 2 ^ 24 + 0 ≡ c * 2 ^ 24 = omega arith in
    let left =
      sym (ap₂ (λ t u. bit_xor t u) whole byte)
      ∙ bit_xor_fields 24 h c l 0 (omega arith) (omega arith) in
    let high : bit_xor h c * 2 ^ 24 + 0 ≡ bit_xor h c * 2 ^ 24 = omega arith in
    let alone : 0 * 2 ^ 24 + l ≡ l = omega arith in
    let right =
      sym (ap₂ (λ t u. bit_xor t u) high alone)
      ∙ bit_xor_fields 24 (bit_xor h c) 0 0 l (omega arith) (omega arith) in
    omega (arith, left, right, bit_xor-zero l, zero-bit_xor l, bit_xor-zero (bit_xor h c))

crc_step_lem :
    (crc c : ℕ)
    → crc < 2 ^ 32
    → c < 256
    → crc_step table crc c ≡ shifts 8 (bit_xor crc (c * 2 ^ 24))
unfolding doubled
crc_step_lem crc c small byte =
    let h = crc / 2 ^ 24 in
    let l = crc % 2 ^ 24 in
    let q = bit_xor h c in
    let q_small : q < 2 ^ 8 = bit_xor_small 8 h c (omega arith) (omega arith) in
    let fits : u32 (q * 2 ^ 24) ≡ q * 2 ^ 24 = omega (arith, q_small) in
    let entry = ap (table_loop 8) fits ∙ table_loop_lem 8 (q * 2 ^ 24) (omega (arith, q_small)) in
    let upper : u32 (crc * 2 ^ 8) ≡ doubled 8 l = omega arith in
    ap (λ t. bit_xor (u32 (crc * 2 ^ 8)) (table t)) (index_lem h c (omega arith) byte)
    ∙ ap₂ (λ t u. bit_xor t u) upper entry
    ∙ bit_xor_comm (doubled 8 l) (shifts 8 (q * 2 ^ 24))
    ∙ sym (shifts_xor 8 24 (q * 2 ^ 24) l refl (omega (arith, q_small)) (omega arith))
    ∙ ap (shifts 8) (sym (byte_xor crc c))

crc_loop_lem :
    (buffer : List ℕ) (crc : ℕ)
    → crc < 2 ^ 32
    → AreBytes buffer
    → crc_loop table (length buffer) buffer crc ≡ ok (remainder crc buffer)
unfolding crc_loop
crc_loop_lem [] crc small bytes = refl
crc_loop_lem (c ∷ buffer) crc small (byte, bytes) =
    let same = crc_step_lem crc c small byte in
    let next_small =
      shifts_small 8 (bit_xor crc (c * 2 ^ 24))
        (bit_xor_small 32 crc (c * 2 ^ 24) small (omega arith)) in
    ap (crc_loop table (length buffer) buffer) same
    ∙ crc_loop_lem buffer (shifts 8 (bit_xor crc (c * 2 ^ 24))) next_small bytes

crc32_init_table_lem :
    (s : Crc32)
    → (alloc s.allocs).0 ≡ true
    → crc32_init_table s ≡ (true, record { crc32_table = some table; allocs = (alloc s.allocs).1 })
unfolding crc32_init_table
crc32_init_table_lem s enough = rw enough refl

-- If the table was made, or was not asked for yet and there is memory for it, then `crc32` of all
-- bytes of a buffer is the remainder that starts as 32 ones and is shifted bit by bit, after each
-- byte is put into its upper bits; and the table is made afterwards.
pub crc32-remainder :
    (s : Crc32) (buffer : List ℕ)
    → ((s.crc32_table ≡ some table) ⊎ ((s.crc32_table ≡ none) × ((alloc s.allocs).0 ≡ true)))
    → AreBytes buffer
    → ((crc32 s buffer (length buffer)).0 ≡ ok (remainder (2 ^ 32 - 1) buffer))
      × ((crc32 s buffer (length buffer)).1.crc32_table ≡ some table)
unfolding crc32 crc32_init_table
crc32-remainder s buffer (inl made) bytes =
    let run = λ (t : Option (ℕ → ℕ)). crc32 (record s { crc32_table = t }) buffer (length buffer) in
    (
      ap (λ t. (run t).0) made ∙ crc_loop_lem buffer (2 ^ 32 - 1) (omega arith) bytes,
      ap (λ t. (run t).1.crc32_table) made,
    )
crc32-remainder s buffer (inr (missing, enough)) bytes =
    let run = λ (t : Option (ℕ → ℕ)). crc32 (record s { crc32_table = t }) buffer (length buffer) in
    let init = crc32_init_table_lem (record s { crc32_table = none }) enough in
    (
      ap (λ t. (run t).0) missing
          ∙ ap (λ r. with_table r.1.crc32_table buffer (length buffer)) init
          ∙ crc_loop_lem buffer (2 ^ 32 - 1) (omega arith) bytes,
      ap (λ t. (run t).1.crc32_table) missing ∙ ap (λ r. r.1.crc32_table) init,
    )
