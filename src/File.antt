-- ===== src/File.antt =====
-- src/fs/file.c, and `vfs_read` and `vfs_write` of src/fs/fs.c: open files, and where a read, a write
-- or an `ioctl` of a node goes.
use elfboot.Base.{ℕ, Bool, Option, none, some, List, min, if◌then◌else◌}
use elfboot.Base.Run.{Run, ok, ◌>>=◌}
use elfboot.Core.{add32, sub32}
use elfboot.Loader.{alloc}
use elfboot.Vfs.{plain, char_device, block_device, FsNode, Vfs, set_allocs, vfs_open}

-- An open file.
pub record File : Type 0 where
  pub name : List ℕ
  pub node : ℕ
  pub flags : ℕ
  pub offset : ℕ
  pub length : ℕ

-- `enum file_seek`, and a number that is none of them.
pub data FileSeek : Type 0 where
  file_set : FileSeek
  file_cur : FileSeek
  file_end : FileSeek
  file_other : FileSeek

unfoldable pub file_seek : File → FileSeek → ℕ → File
file_seek file file_set offset = record file { offset = offset }
file_seek file file_cur offset = record file { offset = add32 file.offset offset }
file_seek file file_end offset = record file { offset = sub32 file.length offset }
file_seek file file_other offset = file

-- The bytes that `file_read` asks the file system for.
unfoldable pub file_read_length : File → ℕ → ℕ
file_read_length file nbytes = min nbytes (sub32 file.length file.offset)

-- Where a read, a write or an `ioctl` of a node goes.
pub data Target : Type 0 where
  to_cdev : ℕ → Target
  to_bdev : ℕ → Target
  to_ops : Target
  enotsup : Target

-- `switch (node->flags & FS_FLAGS_MASK)` of `vfs_read` and `vfs_write`; `has_op` is whether the node
-- has the operation.
unfoldable pub vfs_target : FsNode → Bool → Target
vfs_target node has_op = elim node.kind [
  | char_device cdev ↦ to_cdev cdev
  | block_device bdev ↦ to_bdev bdev
  | plain ↦ if has_op then to_ops else enotsup
]

-- That of `file_ioctl`, which has no operation of the node.
unfoldable pub ioctl_target : FsNode → Target
ioctl_target node = elim node.kind [
  | char_device cdev ↦ to_cdev cdev
  | block_device bdev ↦ to_bdev bdev
  | plain ↦ enotsup
]

module _ (finddir : Vfs → ℕ → List ℕ → Option ℕ × Vfs) where
  -- The file of the node, with the copy of its name.
  abbrev pub opened : ℕ → Option ℕ × Vfs → Option File × Vfs
  opened flags (none, s) = (none, s)
  opened flags (some node, s) =
      let (a, allocs) = alloc s.allocs in
      let n = s.nodes node in
      let file : File = record {
        name = n.name;
        node = node;
        flags = flags;
        offset = 0;
        length = n.length;
      } in
      (if a then some file else none, set_allocs s allocs)

  unfoldable pub file_open : Vfs → List ℕ → ℕ → Run (Option File × Vfs)
  file_open s path flags =
      let (a, allocs) = alloc s.allocs in
      let s' = set_allocs s allocs in
      if a then (do node ← vfs_open finddir s' path; ok (opened flags node)) else ok (none, s')
