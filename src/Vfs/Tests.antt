-- ===== src/Vfs/Tests.antt =====
-- A tree of the root and its child "dev", in which a device "tty" is mounted.
use elfboot.Base.{ℕ, zero, ◌<◌, ◌≡◌, refl, true, Option, some, none, List, [], ◌∷◌, suc, arith}
use elfboot.Base.Run.{ok}
use elfboot.Str.{strcmp, strlen}
use elfboot.Loader.Lines.{letters-Letters}
use elfboot.Vfs.{
  char_device, FsNode, Vfs, clear_node, find_child, vfs_lookup_tree_fast, vfs_open, vfs_mount_cdev,
}
use elfboot.Vfs.Paths.{join}
use elfboot.Vfs.Lookup.{IsName, Reaches, here, child, copied, vfs_open-Reaches}
use elfboot.Vfs.Mount.{Below, IsTree, rich, vfs_mount_cdev-open}

abbrev dev : List ℕ
dev = 100 ∷ 101 ∷ 118 ∷ []

abbrev tty : List ℕ
tty = 116 ∷ 116 ∷ 121 ∷ []

abbrev small_nodes : ℕ → FsNode
small_nodes zero = record (clear_node []) { children = 1 ∷ []; children_count = 1 }
small_nodes (suc n) = record (clear_node dev) { parent = some 0 }

abbrev small : Vfs
small = rich small_nodes 2 0

-- No file system knows a name.
abbrev no_entry : Vfs → ℕ → List ℕ → Option ℕ × Vfs
no_entry s node name = (none, s)

dev-IsName : IsName dev
unfolding strcmp
dev-IsName = record { shape = letters-Letters 47 dev refl; no_self = refl; no_parent = refl }

tty-IsName : IsName tty
unfolding strcmp
tty-IsName = record { shape = letters-Letters 47 tty refl; no_self = refl; no_parent = refl }

small-Below : (n : ℕ) → n < 2 → Below 2 (small_nodes n).children
small-Below zero inside = (omega arith, tt)
small-Below (suc n) inside = tt

small-IsTree : IsTree small
small-IsTree = record { root = omega arith; children = small-Below }

to_dev : Reaches small 0 (dev ∷ []) 1
unfolding vfs_lookup_tree_fast find_child strcmp
to_dev = child refl here

no_tty : vfs_lookup_tree_fast small 1 tty ≡ none
unfolding vfs_lookup_tree_fast find_child
no_tty = refl

vfs_open-Reaches_example : vfs_open no_entry small (join (dev ∷ [])) ≡ ok (some 1, copied small)
vfs_open-Reaches_example = vfs_open-Reaches no_entry small 1 (dev ∷ []) refl (dev-IsName, tt) to_dev

short : strlen tty < 64
unfolding strlen
short = omega arith

vfs_mount_cdev-open_example :
    (s' : Vfs) × (vfs_mount_cdev no_entry small 9 (join (dev ∷ [])) tty ≡ ok (true, s'))
    × (vfs_open no_entry s' (join (dev ∷ tty ∷ [])) ≡ ok (some 2, s'))
    × ((s'.nodes 2).kind ≡ char_device 9)
    × ((s'.nodes 2).parent ≡ some 1)
    × ((s'.nodes 2).ops ≡ none)
vfs_mount_cdev-open_example =
    vfs_mount_cdev-open no_entry small_nodes 2 0 9 1 (dev ∷ []) tty small-IsTree (dev-IsName, tt)
      tty-IsName short to_dev no_tty
