-- ===== src/Super.antt =====
-- src/fs/super.c and the dispatch of src/core/bdev.c: reading blocks and byte ranges of a file system
-- from its device. The driver's `read` is a parameter: from a sector and a number of sectors it
-- makes the bytes, or fails. The buffer that a function fills is a function of the offset.
pub mod Bytes
pub mod Range
mod Tests
use elfboot.Base.{
  ℕ, zero, suc, ◌+◌, ◌-◌, ◌*◌, ◌/◌, ◌%◌, ◌^◌, min, Option, none, some, List, [], ◌∷◌, ◌++◌, take,
  drop, Bool, true, false, ltb, ◌==◌, if◌then◌else◌,
}
use elfboot.Base.Run.{Run, ok, ◌>>=◌}
use elfboot.Core.{u32, add32}
use elfboot.Math.{div}
use elfboot.PageAlloc.{change}

abbrev pub u64 : ℕ → ℕ
u64 x = x % 2 ^ 64

abbrev pub Read : Type 0
Read = ℕ → ℕ → Option (List ℕ)

-- The members of `struct bdev` that reading needs; `read` is `none` where the device has no
-- operations or no `read`.
pub record Bdev : Type 0 where
  pub block_logs : ℕ
  pub read : Option Read

pub record Superblock : Type 0 where
  pub bdev : Bdev
  pub block_size : ℕ
  pub block_logs : ℕ

-- What `superblock_read_blocks` and `superblock_read_offset` return.
pub data ReadStatus : Type 0 where
  success : ReadStatus
  efault : ReadStatus
  enomem : ReadStatus

-- `none` stands for a negative result.
unfoldable pub bdev_read : Bdev → ℕ → ℕ → Option (List ℕ)
bdev_read bdev sector blknum = elim bdev.read [ none ↦ none | some read ↦ read sector blknum ]

unfoldable pub superblock_read : Superblock → ℕ → Option (List ℕ)
superblock_read sb sector = bdev_read sb.bdev sector 1

unfoldable pub superblock_sectors : Superblock → ℕ → ℕ
superblock_sectors sb blkidx = u64 (blkidx * 2 ^ sb.block_logs) / 2 ^ sb.bdev.block_logs

unfoldable pub superblock_blockno : Superblock → ℕ → ℕ → ℕ
superblock_blockno sb blkmod length = u64 (
    u64 (blkmod + length + 2 ^ 64 - 1) / 2 ^ sb.block_logs
    + 2 ^ 64
    - blkmod / 2 ^ sb.block_logs
    + 1)

unfoldable pub superblock_read_block : Superblock → ℕ → Option (List ℕ)
superblock_read_block sb blkidx =
    bdev_read sb.bdev (superblock_sectors sb blkidx) (superblock_sectors sb 1)

-- The bytes from `buffer` on, by their offset.
abbrev pub Buffer : Type 0
Buffer = ℕ → ℕ

-- `memcpy` of the bytes to an offset.
abbrev pub copy_at : Buffer → ℕ → List ℕ → Buffer
copy_at buffer off [] = buffer
copy_at buffer off (c ∷ block) = copy_at (change buffer off c) (off + 1) block

-- What becomes of the buffer, and what follows, where a block is read, or is not.
abbrev pub if_read : (List ℕ → ReadStatus × Buffer) → Buffer → Option (List ℕ) → ReadStatus × Buffer
if_read next buffer none = (efault, buffer)
if_read next buffer (some block) = next block

-- `superblock_read_blocks`, with the blocks left. The offset into the buffer is a 32-bit address.
unfoldable pub read_blocks_loop : Superblock → ℕ → ℕ → ℕ → Buffer → ReadStatus × Buffer
read_blocks_loop sb blkidx zero blk buffer = (success, buffer)
read_blocks_loop sb blkidx (suc left) blk buffer =
    if_read
      (λ block.
        read_blocks_loop sb blkidx left (blk + 1)
          (copy_at buffer (u32 (blk * sb.block_size)) block))
      buffer (superblock_read_block sb (u64 (blkidx + blk)))

unfoldable pub superblock_read_blocks : Superblock → ℕ → ℕ → Buffer → ReadStatus × Buffer
superblock_read_blocks sb blkidx blknum buffer = read_blocks_loop sb blkidx blknum 0 buffer

-- The loop of `superblock_read_offset`, with the blocks left. `blkmod` is where the bytes start in
-- the block `blkidx`, 0 for all but the first block; `bufoff` is where they go.
unfoldable pub read_offset_loop : Superblock → ℕ → ℕ → ℕ → ℕ → ℕ → Buffer → ReadStatus × Buffer
read_offset_loop sb zero blkidx blkmod length bufoff buffer = (success, buffer)
read_offset_loop sb (suc left) blkidx blkmod length bufoff buffer =
    let remlen = min (sb.block_size - blkmod) length in
    if_read
      (λ block.
        read_offset_loop sb left (blkidx + 1) 0 (length - remlen) (add32 bufoff remlen)
          (copy_at buffer bufoff (take remlen (drop blkmod block))))
      buffer (superblock_read_block sb blkidx)

-- `memory` is whether there is memory for one block. The division traps where the block size is 0.
unfoldable pub superblock_read_offset :
    Superblock → Bool → ℕ → ℕ → Buffer → Run (ReadStatus × Buffer)
superblock_read_offset sb memory offset length buffer = do
  (blkidx, blkmod) ← div offset sb.block_size
  let blknum = superblock_blockno sb blkmod length
  let result = read_offset_loop sb blknum blkidx blkmod length 0 buffer
  ok (if memory then result else (enomem, buffer))
