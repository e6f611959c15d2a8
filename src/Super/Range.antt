-- ===== src/Super/Range.antt =====
-- src/fs/super.c: `superblock_read_offset` on a device that gives its bytes.
use native.Mathlib.Nat.{
  add-mul, pow-le-pow_right, div-le_self, one-le-pow, mul-div_left, mul_assoc, add-div_left,
  div-add-mod', mod-lt, div-eq_of_lt,
}
use elfboot.Base.{
  ℕ, zero, suc, ◌+◌, ◌-◌, ◌*◌, ◌/◌, ◌%◌, ◌^◌, ◌≤◌, ◌<◌, ◌≡◌, refl, sym, ap, ap₂, ◌∙◌, min, true,
  some, ◌++◌, arith, dec_lt,
}
use elfboot.Base.Run.{ok}
use elfboot.Math.{div}
use elfboot.Math.Divide.{arch_div_lem}
use elfboot.Math.Power.{pow-add}
use elfboot.Super.{
  u64, Read, Superblock, Buffer, success, copy_at, bdev_read, superblock_sectors,
  superblock_blockno, superblock_read_block, read_offset_loop, superblock_read_offset,
}
use elfboot.Super.Bytes.{bytes, bytes-append, part-bytes, length-bytes, copy_at-append}

module _ (disk : ℕ → ℕ) (bdlogs extra : ℕ) (read : Read)
    (reads : (sector n : ℕ)
      → read sector n ≡ some (bytes disk (sector * 2 ^ bdlogs) (n * 2 ^ bdlogs)))
    (small : extra + bdlogs < 16) where
  -- A file system with blocks of `2 ^ extra` sectors on the device.
  abbrev pub superblock : Superblock
  superblock = record {
    bdev = record { block_logs = bdlogs; read = some read };
    block_size = 2 ^ (extra + bdlogs);
    block_logs = extra + bdlogs;
  }

  abbrev size : ℕ
  size = 2 ^ (extra + bdlogs)

  whole_block : size ≤ 2 ^ 15
  whole_block = pow-le-pow_right {n = 2} (omega arith) {i = extra + bdlogs} {j = 15} (omega arith)

  sectors : (i : ℕ) → i * size < 2 ^ 64 → superblock_sectors superblock i * 2 ^ bdlogs ≡ i * size
  unfolding superblock_sectors
  sectors i h =
      let sec = 2 ^ bdlogs in
      let whole : i * size ≡ i * 2 ^ extra * sec =
        ap (λ (t : ℕ). i * t) (pow-add 2 extra bdlogs) ∙ sym (mul_assoc i (2 ^ extra) sec) in
      let fits : u64 (i * size) ≡ i * 2 ^ extra * sec = omega (arith, whole) in
      ap (λ (t : ℕ). t / sec * sec) fits
      ∙ ap (λ (t : ℕ). t * sec)
          (mul-div_left (i * 2 ^ extra) {n = sec} (one-le-pow bdlogs 2 (omega arith)))
      ∙ sym whole

  read_block :
      (i : ℕ)
      → i * size < 2 ^ 64
      → superblock_read_block superblock i ≡ some (bytes disk (i * size) size)
  unfolding superblock_read_block bdev_read
  read_block i h =
      let one : superblock_sectors superblock 1 * 2 ^ bdlogs ≡ size =
        sectors 1 (omega (arith, whole_block)) ∙ omega arith in
      reads (superblock_sectors superblock i) (superblock_sectors superblock 1)
      ∙ ap (λ (t : ℕ). some (bytes disk t (superblock_sectors superblock 1 * 2 ^ bdlogs)))
          (sectors i h)
      ∙ ap (λ (t : ℕ). some (bytes disk (i * size) t)) one

  -- The rounds that a range needs.
  rounds : ℕ → ℕ → ℕ
  rounds blkmod length = (blkmod + length - 1) / size + 1

  blockno :
      (blkmod length : ℕ)
      → blkmod < size
      → 0 < length
      → blkmod + length < 2 ^ 63
      → superblock_blockno superblock blkmod length ≡ rounds blkmod length
  unfolding superblock_blockno rounds
  blockno blkmod length inside filled low =
      let x = blkmod + length - 1 in
      let e : u64 (blkmod + length + 2 ^ 64 - 1) ≡ x = omega arith in
      let first : blkmod / size ≡ 0 = div-eq_of_lt inside in
      rw (e, first) (omega (arith, div-le_self x size))

  last_block : (x : ℕ) → x < size → x / size ≡ 0
  last_block x h = div-eq_of_lt h

  loop_lem :
      (n i blkmod length bufoff : ℕ) (buffer : Buffer)
      → n ≡ rounds blkmod length
      → blkmod < size
      → 0 < length
      → i * size + blkmod + length < 2 ^ 63
      → bufoff + length ≤ 2 ^ 32
      → read_offset_loop superblock n i blkmod length bufoff buffer
        ≡ (success, copy_at buffer bufoff (bytes disk (i * size + blkmod) length))
  unfolding read_offset_loop rounds
  loop_lem zero i blkmod length bufoff buffer e inside filled low room = absurd (omega (arith, e))
  loop_lem (suc n) i blkmod length bufoff buffer e inside filled low room =
      let block = read_block i (omega arith) in
      elim (dec_lt size (blkmod + length)) [
        | no short ↦
            let all : min (size - blkmod) length ≡ length = omega arith in
            let last : n ≡ 0 = omega (arith, e, last_block (blkmod + length - 1) (omega arith)) in
            let part = part-bytes disk (i * size) size blkmod length (omega arith) in
            rw (block, all, last, part) refl
        | yes long ↦
            let r = size - blkmod in
            let l = length - r in
            let head : min (size - blkmod) length ≡ r = omega arith in
            let split : blkmod + length - 1 ≡ size + (l - 1) = omega arith in
            let first : (blkmod + length - 1) / size ≡ (size + (l - 1)) / size =
              ap (λ (t : ℕ). t / size) split in
            let zero_mod : (0 + l - 1) / size ≡ (l - 1) / size =
              ap (λ (t : ℕ). t / size) (omega arith) in
            let more : n ≡ rounds 0 l =
              omega (arith, e, first, zero_mod, add-div_left (l - 1) {k = size} (omega arith)) in
            let next : (i + 1) * size ≡ i * size + size = omega (arith, add-mul i 1 size) in
            let buffer' = copy_at buffer bufoff (bytes disk (i * size + blkmod) r) in
            let ih =
              loop_lem n (i + 1) 0 l (bufoff + r) buffer' more (omega arith) (omega arith)
                (omega (arith, next)) (omega arith) in
            let off : (bufoff + r) % 2 ^ 32 ≡ bufoff + r = omega arith in
            let at : (i + 1) * size + 0 ≡ i * size + blkmod + r = omega (arith, next) in
            let whole : r + l ≡ length = omega arith in
            let part = part-bytes disk (i * size) size blkmod r (omega arith) in
            let behind : bufoff + r
                ≡ bufoff + elfboot.Base.length (bytes disk (i * size + blkmod) r) =
              ap (λ (t : ℕ). bufoff + t) (sym (length-bytes disk (i * size + blkmod) r)) in
            rw (block, head, part, off, ih)
              (ap (λ (b : Buffer). (success, b))
                (ap₂ (λ (t u : ℕ). copy_at buffer' t (bytes disk u l)) behind at
                  ∙ copy_at-append buffer bufoff (bytes disk (i * size + blkmod) r)
                      (bytes disk (i * size + blkmod + r) l)
                  ∙ ap (copy_at buffer bufoff) (
                      bytes-append disk (i * size + blkmod) r l
                      ∙ ap (bytes disk (i * size + blkmod)) whole)))
      ]

  -- The device has blocks of `2 ^ bdlogs` bytes, and its `read` gives the bytes of the sectors that
  -- it is asked for. The file system has blocks of `2 ^ (extra + bdlogs)` bytes, less than 64 KiB.
  -- There is memory for one of them. A range of 1 to `2 ^ 32` bytes that ends below `2 ^ 63` is read
  -- without a trap: its bytes go to the front of the buffer, the first one first, and the buffer is
  -- else as it was.
  pub superblock_read_offset-bytes :
      (offset length : ℕ) (buffer : Buffer)
      → 0 < length
      → length ≤ 2 ^ 32
      → offset + length < 2 ^ 63
      → superblock_read_offset superblock true offset length buffer
        ≡ ok (success, copy_at buffer 0 (bytes disk offset length))
  unfolding superblock_read_offset div
  superblock_read_offset-bytes offset length buffer filled word low =
      let i = offset / size in
      let m = offset % size in
      let positive : 0 < size = one-le-pow (extra + bdlogs) 2 (omega arith) in
      let whole : i * size + m ≡ offset = div-add-mod' offset size in
      let inside : m < size = mod-lt offset positive in
      let split = arch_div_lem offset size (omega arith) positive (omega (arith, whole_block)) in
      let count = blockno m length inside filled (omega (arith, whole)) in
      let run =
        loop_lem (rounds m length) i m length 0 buffer refl inside filled (omega (arith, whole))
          (omega arith) in
      rw (split, count, run, whole) refl
