-- ===== src/Super/Tests.antt =====
-- Runs of block reads, and the theorem at a concrete device.
use elfboot.Base.{ℕ, ◌*◌, ◌%◌, ◌^◌, ◌≡◌, refl, true, some, List, [], ◌∷◌, arith}
use elfboot.Base.Run.{Run, ok, fault, out_of_fuel}
use elfboot.Math.{div, arch_div, arch_div_upper, divl}
use elfboot.Super.{
  Read, ReadStatus, success, Buffer, copy_at, bdev_read, superblock_sectors, superblock_blockno,
  superblock_read_block, read_offset_loop, superblock_read_offset,
}
use elfboot.Super.Bytes.{bytes}
use elfboot.Super.Range.{superblock, superblock_read_offset-bytes}

abbrev disk : ℕ → ℕ
disk a = a % 256

-- Sectors of 4 bytes, and of 512 bytes.
abbrev small_read : Read
small_read sector n = some (bytes disk (sector * 2 ^ 2) (n * 2 ^ 2))

abbrev read : Read
read sector n = some (bytes disk (sector * 2 ^ 9) (n * 2 ^ 9))

abbrev zeros : Buffer
zeros a = 0

-- The front of the buffer.
abbrev front : ℕ → Run (ReadStatus × Buffer) → List ℕ
front n (ok r) = bytes r.1 0 n
front n fault = []
front n out_of_fuel = []

-- A range over three blocks of 8 bytes.
across :
    front 12 (
      superblock_read_offset
        (superblock disk 2 1 small_read (λ s n. refl) (omega arith))
        true
        6
        11
        zeros)
    ≡ 6 ∷ 7 ∷ 8 ∷ 9 ∷ 10 ∷ 11 ∷ 12 ∷ 13 ∷ 14 ∷ 15 ∷ 16 ∷ 0 ∷ []
unfolding superblock_read_offset div arch_div arch_div_upper divl superblock_blockno
    read_offset_loop superblock_read_block superblock_sectors bdev_read
across = refl

superblock_read_offset-bytes_example :
    superblock_read_offset
      (superblock disk 9 2 read (λ s n. refl) (omega arith))
      true
      5000
      3000
      zeros
    ≡ ok (success, copy_at zeros 0 (bytes disk 5000 3000))
superblock_read_offset-bytes_example =
    superblock_read_offset-bytes disk 9 2 read (λ s n. refl) (omega arith) 5000 3000 zeros
      (omega arith) (omega arith) (omega arith)
