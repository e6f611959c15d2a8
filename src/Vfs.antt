-- ===== src/Vfs.antt =====
-- src/fs/fs.c and src/include/elfboot/tree.h: the tree of the file system nodes, the lookup of paths,
-- and mounted character devices. A node is its number.
pub mod Paths
pub mod Lookup
pub mod Mount
mod Tests
use elfboot.Base.{
  ℕ, zero, suc, ◌+◌, ◌-◌, Bool, true, false, not, ◌&&◌, ◌||◌, Option, none, some, List, [], ◌∷◌,
  ◌++◌, min, ltb, leb, ◌==◌, if◌then◌else◌,
}
use elfboot.Base.Int.{ℤ, pos, negsuc}
use elfboot.Base.Run.{Run, ok, fault, out_of_fuel, ◌>>=◌}
use elfboot.Core.{add32, sub32}
use elfboot.PageAlloc.{change}
use elfboot.Str.{is_zero, strcmp, strlen, strtok}
use elfboot.Loader.{alloc}

-- `FS_CHARDEVICE` or `FS_BLOCKDEVICE` in `flags`, or neither, or another value.
pub data Kind : Type 0 where
  plain : Kind
  char_device : ℕ → Kind
  block_device : ℕ → Kind

-- `children` are the entries that follow one another by `siblings`. The number in a device kind is the
-- `cdev` or the `bdev`; `ops` is the number of the operations, or null.
pub record FsNode : Type 0 where
  pub name : List ℕ
  pub kind : Kind
  pub ops : Option ℕ
  pub length : ℕ
  pub parent : Option ℕ
  pub children : List ℕ
  pub children_count : ℕ

-- The nodes below `next` are in use. `allocs` says which of the next allocations succeed.
pub record Vfs : Type 0 where
  pub nodes : ℕ → FsNode
  pub next : ℕ
  pub root : ℕ
  pub allocs : List Bool

abbrev pub set_node : Vfs → ℕ → FsNode → Vfs
set_node s n node = record s { nodes = change s.nodes n node }

abbrev pub set_allocs : Vfs → List Bool → Vfs
set_allocs s allocs = record s { allocs = allocs }

-- After `fs_node_ctor` and `tree_node_init`.
abbrev pub clear_node : List ℕ → FsNode
clear_node name = record {
  name = name;
  kind = plain;
  ops = none;
  length = 0;
  parent = none;
  children = [];
  children_count = 0;
}

-- A node that there is memory for. A name has 63 bytes at most.
abbrev pub new_node : Vfs → List ℕ → Run (Option ℕ × Vfs)
new_node s name =
    if leb 64 (strlen name)
    then fault
    else ok (some s.next, record (set_node s s.next (clear_node name)) { next = s.next + 1 })

unfoldable pub fs_node_alloc : Vfs → List ℕ → Run (Option ℕ × Vfs)
fs_node_alloc s name =
    let (a, allocs) = alloc s.allocs in
    if a then new_node (set_allocs s allocs) name else ok (none, set_allocs s allocs)

unfoldable pub tree_node_insert : Vfs → ℕ → ℕ → Vfs
tree_node_insert s new parent =
    let p = s.nodes parent in
    let s₁ = set_node s parent (record p {
      children = p.children ++ new ∷ [];
      children_count = add32 p.children_count (add32 (s.nodes new).children_count 1);
    }) in
    set_node s₁ new (record (s₁.nodes new) { parent = some parent })

-- The loop of `vfs_lookup_tree_fast`, with the children left.
unfoldable pub find_child : Vfs → List ℕ → List ℕ → Option ℕ
find_child s [] name = none
find_child s (child ∷ children) name =
    let more = find_child s children name in
    if is_zero (strcmp (s.nodes child).name name) then some child else more

unfoldable pub vfs_lookup_tree_fast : Vfs → ℕ → List ℕ → Option ℕ
vfs_lookup_tree_fast s node name = find_child s (s.nodes node).children name

-- `fs_node_parent`: without a parent, `container_of` gives a pointer to no node.
abbrev pub fs_node_parent : Option ℕ → Run (Option ℕ)
fs_node_parent none = fault
fs_node_parent (some parent) = ok (some parent)

unfoldable pub vfs_lookup_tree_node : Vfs → ℕ → List ℕ → Run (Option ℕ)
vfs_lookup_tree_node s node name =
    if is_zero (strcmp name (46 ∷ []))
    then ok (some node)
    else if is_zero (strcmp name (46 ∷ 46 ∷ []))
    then fs_node_parent (s.nodes node).parent
    else ok (vfs_lookup_tree_fast s node name)

-- `flags` is whether it has `FS_LOOKUP_ABSOLUTE`.
pub record FsLookupRequest : Type 0 where
  pub absolute : Bool
  pub path : Option (List ℕ)
  pub node : Option ℕ

pub data LookupStatus : Type 0 where
  found : LookupStatus
  efault : LookupStatus
  enomem : LookupStatus
  enoent : LookupStatus

-- Whether the result is 0.
unfoldable pub vfs_lookup_request_valid : FsLookupRequest → Bool
vfs_lookup_request_valid request = elim request.path [
  | none ↦ false
  | some path ↦ elim request.node [ none ↦ request.absolute | some node ↦ true ]
]

-- `finddir` is what `node->ops->finddir` does, or gives nothing where there is none.
module _ (finddir : Vfs → ℕ → List ℕ → Option ℕ × Vfs) where
  -- The insertion of what `vfs_finddir` gives.
  abbrev pub inserted : ℕ → Option ℕ × Vfs → Option ℕ × Vfs
  inserted node (none, s) = (none, s)
  inserted node (some nent, s) = (some nent, tree_node_insert s nent node)

  unfoldable pub vfs_lookup_tree_slow : Vfs → ℕ → List ℕ → Option ℕ × Vfs
  vfs_lookup_tree_slow s node name = inserted node (finddir s node name)

  -- From what `vfs_lookup_tree_node` gives.
  abbrev pub or_slow : Vfs → ℕ → List ℕ → Option ℕ → Option ℕ × Vfs
  or_slow s node name (some n) = (some n, s)
  or_slow s node name none = vfs_lookup_tree_slow s node name

  -- The node of a part of the path.
  unfoldable pub lookup_part : Vfs → Option ℕ → List ℕ → Run (Option ℕ × Vfs)
  lookup_part s none part = fault
  lookup_part s (some node) part = do
    known ← vfs_lookup_tree_node s node part
    ok (or_slow s node part known)

  -- What follows in the loop: the end, or the next round with the node and the part in the request.
  abbrev pub advance :
      FsLookupRequest
      → List ℕ
      → (Vfs → FsLookupRequest → Run (LookupStatus × Vfs × FsLookupRequest))
      → Option ℕ × Vfs
      → Run (LookupStatus × Vfs × FsLookupRequest)
  advance request part round (none, s) = ok (enoent, s, request)
  advance request part round (some n, s) =
      round s (record request { node = some n; path = some part })

  -- The loop of `vfs_lookup_tree`, with the part and the static pointer of `strtok`.
  unfoldable pub lookup_loop :
      ℕ
      → Vfs
      → FsLookupRequest
      → Option (List ℕ) × Option (List ℕ)
      → Run (LookupStatus × Vfs × FsLookupRequest)
  lookup_loop k s request (none, p) = ok (found, s, request)
  lookup_loop zero s request (some part, p) = out_of_fuel
  lookup_loop (suc k) s request (some part, p) = do
    node ← lookup_part s request.node part
    advance request part (λ s' request'. lookup_loop k s' request' (strtok none (47 ∷ []) p)) node

  -- The path is copied. Each part takes a byte or more.
  abbrev pub lookup_path :
      Vfs → FsLookupRequest → Option (List ℕ) → Run (LookupStatus × Vfs × FsLookupRequest)
  lookup_path s request none = ok (efault, s, request)
  lookup_path s request (some path) =
      let (a, allocs) = alloc s.allocs in
      let s' = set_allocs s allocs in
      let parts = lookup_loop (strlen path + 1) s' request (strtok (some path) (47 ∷ []) none) in
      if a then parts else ok (enomem, s', request)

  unfoldable pub vfs_lookup_tree :
      Vfs → FsLookupRequest → Run (LookupStatus × Vfs × FsLookupRequest)
  vfs_lookup_tree s request =
      let looked_up = lookup_path s request request.path in
      if vfs_lookup_request_valid request then looked_up else ok (efault, s, request)

  abbrev pub found_node : LookupStatus × Vfs × FsLookupRequest → Option ℕ × Vfs
  found_node (found, s, request) = (request.node, s)
  found_node (efault, s, request) = (none, s)
  found_node (enomem, s, request) = (none, s)
  found_node (enoent, s, request) = (none, s)

  unfoldable pub vfs_lookup_node : Vfs → ℕ → List ℕ → Run (Option ℕ × Vfs)
  vfs_lookup_node s node path = do
    result ← vfs_lookup_tree s (record { absolute = false; path = some path; node = some node })
    ok (found_node result)

  unfoldable pub vfs_lookup : Vfs → List ℕ → Run (Option ℕ × Vfs)
  vfs_lookup s path = vfs_lookup_node s s.root path

  unfoldable pub vfs_open : Vfs → List ℕ → Run (Option ℕ × Vfs)
  vfs_open s path = vfs_lookup s path

  -- The new node of a character device under the node at the path, once it is allocated.
  abbrev pub mount_node : ℕ → ℕ → Option ℕ × Vfs → Bool × Vfs
  mount_node cdev parent (none, s) = (false, s)
  mount_node cdev parent (some nent, s) =
      let n = record (s.nodes nent) { kind = char_device cdev; ops = (s.nodes parent).ops } in
      (true, tree_node_insert (set_node s nent n) nent parent)

  abbrev pub mount_at : ℕ → List ℕ → Option ℕ × Vfs → Run (Bool × Vfs)
  mount_at cdev name (none, s) = ok (false, s)
  mount_at cdev name (some node, s) = do new ← fs_node_alloc s name; ok (mount_node cdev node new)

  -- Whether the result is 0.
  unfoldable pub vfs_mount_cdev : Vfs → ℕ → List ℕ → List ℕ → Run (Bool × Vfs)
  vfs_mount_cdev s cdev path name = do node ← vfs_lookup s path; mount_at cdev name node
