-- ===== src/Vfs/Mount.antt =====
-- src/fs/fs.c: a device that is mounted, and the lookup of its path.
use elfboot.Base.{
  ℕ, ◌+◌, ◌<◌, ◌≡◌, ◌≢◌, refl, ◌∙◌, true, false, Bool-cases, inl, inr, Option, none, some, List, [],
  ◌∷◌, ◌++◌, arith, leb, ◌==◌, ℕ_discrete,
}
use elfboot.Base.Run.{ok}
use elfboot.PageAlloc.{change}
use elfboot.Str.{is_zero, strcmp, strlen}
use elfboot.Str.Compare.{strcmp_self}
use elfboot.Vfs.{
  char_device, FsNode, Vfs, clear_node, fs_node_alloc, tree_node_insert, find_child,
  vfs_lookup_tree_fast, vfs_open, vfs_mount_cdev,
}
use elfboot.Vfs.Paths.{join}
use elfboot.Vfs.Lookup.{IsName, AreNames, Reaches, here, child, vfs_open-Reaches}

abbrev pub Below : ℕ → List ℕ → Type 0
Below n [] = Unit {0}
Below n (x ∷ xs) = (x < n) × Below n xs

-- The root and the children of nodes in use are in use.
pub record IsTree (s : Vfs) : Type 0 where
  pub root : s.root < s.next
  pub children : (n : ℕ) → n < s.next → Below s.next (s.nodes n).children

-- The tree has the new node `s.next` behind the children of `parent`, and is as it was else.
record Grown (s s' : Vfs) (parent : ℕ) : Type 0 where
  names : (n : ℕ) → n < s.next → (s'.nodes n).name ≡ (s.nodes n).name
  others : (n : ℕ) → n < s.next → n ≢ parent → (s'.nodes n).children ≡ (s.nodes n).children
  added : (s'.nodes parent).children ≡ (s.nodes parent).children ++ s.next ∷ []

module _ (s s' : Vfs) where
  find_child-names :
      (children name : List ℕ)
      → Below s.next children
      → ((n : ℕ) → n < s.next → (s'.nodes n).name ≡ (s.nodes n).name)
      → find_child s' children name ≡ find_child s children name
  unfolding find_child
  find_child-names [] name below same = refl
  find_child-names (c ∷ children) name (inside, below) same =
      rw (same c inside, find_child-names children name below same) refl

find_child-append :
    (s : Vfs) (a b name : List ℕ) (n : ℕ)
    → find_child s a name ≡ some n
    → find_child s (a ++ b) name ≡ some n
unfolding find_child
find_child-append s [] b name n h = cc
find_child-append s (c ∷ a) b name n h =
    elim (Bool-cases (is_zero (strcmp (s.nodes c).name name))) [
      | inl e ↦ rw e (rw e at h)
      | inr e ↦ rw e (find_child-append s a b name n (rw e at h))
    ]

find_child-behind :
    (s : Vfs) (a b name : List ℕ)
    → find_child s a name ≡ none
    → find_child s (a ++ b) name ≡ find_child s b name
unfolding find_child
find_child-behind s [] b name h = refl
find_child-behind s (c ∷ a) b name h = elim (Bool-cases (is_zero (strcmp (s.nodes c).name name))) [
  | inl e ↦ absurd (let bad : some c ≡ none = rw e at h in cc)
  | inr e ↦ rw e (find_child-behind s a b name (rw e at h))
]

find_child-Below :
    (s : Vfs) (k : ℕ) (a name : List ℕ) (n : ℕ) → Below k a → find_child s a name ≡ some n → n < k
unfolding find_child
find_child-Below s k [] name n below h = cc
find_child-Below s k (c ∷ a) name n (inside, below) h =
    elim (Bool-cases (is_zero (strcmp (s.nodes c).name name))) [
      | inl e ↦ let same : some c ≡ some n = rw e at h in ground arith
      | inr e ↦ find_child-Below s k a name n below (rw e at h)
    ]

target_inside :
    {s : Vfs} {n target : ℕ} {parts : List (List ℕ)}
    → IsTree s
    → n < s.next
    → Reaches s n parts target
    → target < s.next
unfolding vfs_lookup_tree_fast
target_inside tree inside here = inside
target_inside {s = s} {n = n} tree inside (child {next = m} {part = part} known reach) =
    target_inside tree
      (find_child-Below s s.next (s.nodes n).children part m (tree.children n inside) known) reach

module _ {s s' : Vfs} {parent : ℕ} (tree : IsTree s) (grown : Grown s s' parent) where
  lookup-grown :
      (n m : ℕ) (name : List ℕ)
      → n < s.next
      → vfs_lookup_tree_fast s n name ≡ some m
      → vfs_lookup_tree_fast s' n name ≡ some m
  unfolding vfs_lookup_tree_fast
  lookup-grown n m name inside known =
      let same =
        find_child-names s s' (s.nodes n).children name (tree.children n inside) grown.names in
      elim (ℕ_discrete n parent) [
        | yes e ↦
            let at_parent = rw e at (same ∙ known) in
            rw (e, grown.added)
              (find_child-append s' (s.nodes parent).children (s.next ∷ []) name m at_parent)
        | no other ↦ rw (grown.others n inside other) (same ∙ known)
      ]

  Reaches-grown :
      {n target : ℕ} {parts : List (List ℕ)}
      → n < s.next
      → Reaches s n parts target
      → Reaches s' n parts target
  unfolding vfs_lookup_tree_fast
  Reaches-grown inside here = here
  Reaches-grown {n = n} inside (child {next = m} {part = part} known reach) =
      let below =
        find_child-Below s s.next (s.nodes n).children part m (tree.children n inside) known in
      child (lookup-grown n m part inside known) (Reaches-grown below reach)

  lookup_added :
      (name : List ℕ)
      → parent < s.next
      → (s'.nodes s.next).name ≡ name
      → vfs_lookup_tree_fast s parent name ≡ none
      → vfs_lookup_tree_fast s' parent name ≡ some s.next
  unfolding vfs_lookup_tree_fast find_child
  lookup_added name inside named unknown =
      let same =
        find_child-names s s' (s.nodes parent).children name (tree.children parent inside)
          grown.names in
      rw grown.added (
        find_child-behind s' (s.nodes parent).children (s.next ∷ []) name (same ∙ unknown)
        ∙ rw (named, strcmp_self name) refl)

Reaches-append :
    {s : Vfs} {n m target : ℕ} {parts : List (List ℕ)} (part : List ℕ)
    → Reaches s n parts m
    → vfs_lookup_tree_fast s m part ≡ some target
    → Reaches s n (parts ++ part ∷ []) target
Reaches-append part here known = child known here
Reaches-append part (child first reach) known = child first (Reaches-append part reach known)

AreNames-append :
    (parts : List (List ℕ)) (part : List ℕ)
    → AreNames parts
    → IsName part
    → AreNames (parts ++ part ∷ [])
AreNames-append [] part names name = (name, tt)
AreNames-append (p ∷ parts) part (first, names) name =
    (first, AreNames-append parts part names name)

-- A tree with memory for what is to come.
abbrev pub rich : (ℕ → FsNode) → ℕ → ℕ → Vfs
rich nodes next root = record { nodes = nodes; next = next; root = root; allocs = [] }

module _ (nodes : ℕ → FsNode) (next root cdev parent : ℕ) (name : List ℕ) where
  abbrev created : ℕ → FsNode
  created = change nodes next (clear_node name)

  abbrev device : ℕ → FsNode
  device =
      change created next
        (record (created next) { kind = char_device cdev; ops = (created parent).ops })

  -- The tree with the device.
  abbrev pub mounted : Vfs
  mounted = tree_node_insert (rich device (next + 1) root) next parent

  mounted-Grown : parent < next → Grown (rich nodes next root) mounted parent
  unfolding tree_node_insert
  mounted-Grown inside =
      let self : (next == next) ≡ true = ground arith in
      let apart : (parent == next) ≡ false = ground arith in
      let itself : (parent == parent) ≡ true = ground arith in
      record {
        names = λ n below.
            let other : (n == next) ≡ false = ground arith in
            elim (Bool-cases (n == parent)) [
              | inl e ↦ let same : n ≡ parent = ground arith in rw (other, e, apart) (rw same refl)
              | inr e ↦ rw (other, e) refl
            ];
        others = λ n below different.
            let other : (n == next) ≡ false = ground arith in
            let e : (n == parent) ≡ false = ground arith in rw (other, e) refl;
        added = rw (apart, itself) refl;
      }

  mounted-device :
      parent < next
      → ((mounted.nodes next).kind ≡ char_device cdev)
        × ((mounted.nodes next).name ≡ name)
        × ((mounted.nodes next).parent ≡ some parent)
        × ((mounted.nodes next).ops ≡ (nodes parent).ops)
  unfolding tree_node_insert
  mounted-device inside =
      let self : (next == next) ≡ true = ground arith in
      let apart : (next == parent) ≡ false = ground arith in
      let apart' : (parent == next) ≡ false = ground arith in
      (rw (self, apart) refl, rw (self, apart) refl, rw self refl, rw (self, apart, apart') refl)

-- In a tree with memory, whose nodes and their children are in use: if each part of a path names a
-- child of the node before, and the node at its end has no child of the name, which has less than 64
-- bytes, then the device is mounted, and the path with the name is that of the new node, which has
-- the device, that parent and its operations. No file system is asked.
pub vfs_mount_cdev-open :
    (finddir : Vfs → ℕ → List ℕ → Option ℕ × Vfs) (nodes : ℕ → FsNode) (next root cdev parent : ℕ)
    (parts : List (List ℕ)) (name : List ℕ)
    → IsTree (rich nodes next root)
    → AreNames parts
    → IsName name
    → strlen name < 64
    → Reaches (rich nodes next root) root parts parent
    → vfs_lookup_tree_fast (rich nodes next root) parent name ≡ none
    → (s' : Vfs) × (vfs_mount_cdev finddir (rich nodes next root) cdev (join parts) name
        ≡ ok (true, s'))
      × (vfs_open finddir s' (join (parts ++ name ∷ [])) ≡ ok (some next, s'))
      × ((s'.nodes next).kind ≡ char_device cdev)
      × ((s'.nodes next).parent ≡ some parent)
      × ((s'.nodes next).ops ≡ (nodes parent).ops)
unfolding vfs_mount_cdev vfs_open fs_node_alloc tree_node_insert
vfs_mount_cdev-open finddir nodes next root cdev parent parts name tree names is_name short reach
      unknown =
    let s = rich nodes next root in
    let s' = mounted nodes next root cdev parent name in
    let looked_up = vfs_open-Reaches finddir s parent parts refl names reach in
    let inside = target_inside tree tree.root reach in
    let (kind, named, up, ops) = mounted-device nodes next root cdev parent name inside in
    let grown = mounted-Grown nodes next root cdev parent name inside in
    let fits : leb 64 (strlen name) ≡ false = ground arith in
    let reach' =
      Reaches-append name (Reaches-grown tree grown tree.root reach)
        (lookup_added tree grown name inside named unknown) in
    (
      s',
      rw (looked_up, fits) refl,
      vfs_open-Reaches finddir s' next (parts ++ name ∷ []) refl
          (AreNames-append parts name names is_name) reach',
      kind,
      up,
      ops,
    )
