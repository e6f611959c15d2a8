-- ===== src/Vfs/Lookup.antt =====
-- src/fs/fs.c: the lookup of a path in the tree.
use elfboot.Base.{
  ℕ, zero, suc, ◌+◌, ◌≤◌, ◌≡◌, refl, sym, ap, ◌∙◌, true, false, Option, none, some, List, [], ◌∷◌,
  length, arith,
}
use elfboot.Base.Run.{ok}
use elfboot.Str.{is_zero, strcmp, strspn, strcspn, strlen, strtok}
use elfboot.Loader.{alloc}
use elfboot.Vfs.{
  Vfs, set_allocs, find_child, vfs_lookup_tree_fast, vfs_lookup_tree_node, FsLookupRequest, found,
  vfs_lookup_request_valid, lookup_part, lookup_loop, vfs_lookup_tree, vfs_lookup_node, vfs_lookup,
  vfs_open,
}
use elfboot.Vfs.Paths.{join, IsPart, pointer, strtok_first, strtok-pointer, length-join}

-- A part that names a child: neither "." nor "..".
pub record IsName (part : List ℕ) : Type 0 where
  pub shape : IsPart part
  pub no_self : is_zero (strcmp part (46 ∷ [])) ≡ false
  pub no_parent : is_zero (strcmp part (46 ∷ 46 ∷ [])) ≡ false

abbrev pub AreNames : List (List ℕ) → Type 0
AreNames [] = Unit {0}
AreNames (part ∷ parts) = IsName part × AreNames parts

-- From a node by the first child with the first name, and so on.
pub data Reaches (s : Vfs) : ℕ → List (List ℕ) → ℕ → Type 0 where
  here : {node : ℕ} → Reaches s node [] node
  child :
      {node next target : ℕ} {part : List ℕ} {parts : List (List ℕ)}
      → vfs_lookup_tree_fast s node part ≡ some next
      → Reaches s next parts target
      → Reaches s node (part ∷ parts) target

-- A request in the loop, at a node.
abbrev at_node : ℕ → Option (List ℕ) → FsLookupRequest
at_node node path = record { absolute = false; path = path; node = some node }

module _ (finddir : Vfs → ℕ → List ℕ → Option ℕ × Vfs) (s : Vfs) where
  lookup_part_lem :
      (node next : ℕ) (part : List ℕ)
      → IsName part
      → vfs_lookup_tree_fast s node part ≡ some next
      → lookup_part finddir s (some node) part ≡ ok (some next, s)
  unfolding lookup_part vfs_lookup_tree_node
  lookup_part_lem node next part name known = rw (name.no_self, name.no_parent, known) refl

  lookup_loop_lem :
      (k node target : ℕ) (path : Option (List ℕ)) (parts : List (List ℕ))
      → length parts ≤ k
      → AreNames parts
      → Reaches s node parts target
      → (path' : Option (List ℕ)) × (lookup_loop finddir k s
            (at_node node path)
            (strtok none (47 ∷ []) (pointer parts))
          ≡ ok (found, s, at_node target path'))
  unfolding lookup_loop strtok
  lookup_loop_lem k node target path [] fuel names here = (path, refl)
  lookup_loop_lem zero node target path (part ∷ parts) fuel names reach = absurd (omega arith)
  lookup_loop_lem (suc k) node target path (part ∷ parts) fuel (name, names)
        (child {next = next} known reach) =
      let (path', run) =
        lookup_loop_lem k next target (some part) parts (omega arith) names reach in
      let fetched = strtok-pointer part parts name.shape in
      (
        path',
        ap (λ t. lookup_loop finddir (suc k) s (at_node node path) t) fetched
            ∙ rw (lookup_part_lem node next part name known) run,
      )

-- The whole path, copied.
copied_lem :
    (finddir : Vfs → ℕ → List ℕ → Option ℕ × Vfs) (s : Vfs) (k node target : ℕ)
    (parts : List (List ℕ))
    → length parts ≤ k
    → AreNames parts
    → Reaches s node parts target
    → (path' : Option (List ℕ)) × (lookup_loop finddir k s
          (at_node node (some (join parts)))
          (strtok (some (join parts)) (47 ∷ []) none)
        ≡ ok (found, s, at_node target path'))
unfolding lookup_loop strtok strspn strcspn
copied_lem finddir s k node target [] fuel names here = (some [], refl)
copied_lem finddir s k node target (part ∷ parts) fuel names reach =
    let (path', run) =
      lookup_loop_lem finddir s k node target (some (join (part ∷ parts))) (part ∷ parts) fuel names
        reach in
    let same =
      strtok_first part parts (names.0).shape ∙ sym (strtok-pointer part parts (names.0).shape) in
    (
      path',
      ap (λ t. lookup_loop finddir k s (at_node node (some (join (part ∷ parts)))) t) same ∙ run,
    )

-- The state after the path is copied.
abbrev pub copied : Vfs → Vfs
copied s = set_allocs s (alloc s.allocs).1

Reaches-copied :
    (s : Vfs) {node target : ℕ} {parts : List (List ℕ)}
    → Reaches s node parts target
    → Reaches (copied s) node parts target
unfolding vfs_lookup_tree_fast find_child
Reaches-copied s here = here
Reaches-copied s (child known reach) = child known (Reaches-copied s reach)

-- If there is memory for the copy of the path, and each part of the path names a child of the node
-- before, from the root on, then `vfs_open` finds the node at its end and asks no file system.
pub vfs_open-Reaches :
    (finddir : Vfs → ℕ → List ℕ → Option ℕ × Vfs) (s : Vfs) (target : ℕ) (parts : List (List ℕ))
    → (alloc s.allocs).0 ≡ true
    → AreNames parts
    → Reaches s s.root parts target
    → vfs_open finddir s (join parts) ≡ ok (some target, copied s)
unfolding vfs_open vfs_lookup vfs_lookup_node vfs_lookup_tree vfs_lookup_request_valid
vfs_open-Reaches finddir s target parts enough names reach =
    let (path', run) =
      copied_lem finddir (copied s) (strlen (join parts) + 1) s.root target parts
        (omega (arith, length-join parts)) names (Reaches-copied s reach) in
    rw (run, enough) refl
