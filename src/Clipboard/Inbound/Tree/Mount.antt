-- ===== src/Clipboard/Inbound/Tree/Mount.antt =====
-- What the mount shows of a tree of src/clipboard/inbound/tree.rs: its nodes and its names.
use hypr_rdp.Base.{
  ℕ, zero, suc, ◌+◌, ◌-◌, ◌≤◌, ◌<◌, ◌≡◌, refl, ◌≢◌, true, none, some, List, [], ◌∷◌, arith,
  get_elem?, get_elem?-lt, ◌||◌, ltb, u64_max, Bool-cases, inl, inr, ◌⊎◌, ap, sym, ◌∙◌,
}
use hypr_rdp.Clipboard.Inbound.Tree.{
  RemoteNode, RemoteTree, root_inode, lookup, node, node_offset, at_offset, is_directory_at,
  entries,
}
use hypr_rdp.Clipboard.Inbound.Tree.Entries.{build}
use hypr_rdp.Clipboard.Inbound.Tree.Paths.{FileDescriptor}
use hypr_rdp.Clipboard.Inbound.Tree.Names.{IsName}
use hypr_rdp.Clipboard.Inbound.Tree.Skeleton.{
  Shape, shape_of, shapes_of, skeleton, is_dir_at-skeleton, length-shapes_of,
}
use hypr_rdp.Clipboard.Inbound.Tree.Sandbox.{IsSource, IsSound}
use hypr_rdp.Clipboard.Inbound.Tree.Build.{build-IsSound, root_is_directory}

-- A node below the root: a name that cannot leave its directory, in a directory of the tree that
-- was there before it, found there by its name, and, if it is a file, described by the descriptor
-- at its index, whose path ends in its name.
pub record IsEntry (files : List FileDescriptor) (t : RemoteTree) (inode : ℕ) (n : RemoteNode)
    : Type 0 where
  pub safe_name : IsName n.name
  pub parent_directory : is_directory_at t n.parent ≡ true
  pub parent_before : n.parent < inode
  pub found_by_name : lookup t n.parent n.name ≡ some inode
  pub from_descriptor : IsSource files n.kind n.name

pub record IsSandboxed (files : List FileDescriptor) (max_entries : ℕ) (t : RemoteTree)
    : Type 0 where
  pub few_entries : entries t ≤ max_entries
  pub root_directory : is_directory_at t root_inode ≡ true
  pub entry_at :
      (inode : ℕ) (n : RemoteNode)
      → inode ≢ root_inode
      → node t inode ≡ some n
      → IsEntry files t inode n
  pub name_leads_to :
      (parent : ℕ) (name : List ℕ) (inode : ℕ)
      → lookup t parent name ≡ some inode
      → (n : RemoteNode) × (node t inode ≡ some n) × (n.parent ≡ parent) × (n.name ≡ name)

shape_at :
    (nodes : List RemoteNode) (k : ℕ) (n : RemoteNode)
    → get_elem? nodes k ≡ some n
    → get_elem? (shapes_of nodes) k ≡ some (shape_of n)
shape_at [] k n e = cc
shape_at (m ∷ nodes) zero n e = let same : m ≡ n = cc in rw same refl
shape_at (m ∷ nodes) (suc k) n e = shape_at nodes k n e

node_of_shape :
    (nodes : List RemoteNode) (k : ℕ) (sh : Shape)
    → get_elem? (shapes_of nodes) k ≡ some sh
    → (n : RemoteNode) × (get_elem? nodes k ≡ some n) × (shape_of n ≡ sh)
node_of_shape [] k sh e = cc
node_of_shape (m ∷ nodes) zero sh e = (m, refl, cc)
node_of_shape (m ∷ nodes) (suc k) sh e = node_of_shape nodes k sh e

-- Where a node stands, and back.
offset_cases :
    (t : RemoteTree) (inode : ℕ)
    → inode ≢ root_inode
    → (node_offset t inode ≡ none)
      ⊎ ((t.base ≤ inode) × (node_offset t inode ≡ some (suc (inode - t.base))))
offset_cases t inode other =
    let one : inode - t.base + 1 ≡ suc (inode - t.base) = omega arith in
    elim (Bool-cases (ltb inode t.base || ltb u64_max (inode - t.base + 1))) [
      | inl e ↦ inl (ground arith)
      | inr e ↦ inr (ground arith)
    ]

pub node_place :
    (t : RemoteTree) (inode : ℕ) (n : RemoteNode)
    → inode ≢ root_inode
    → node t inode ≡ some n
    → (k : ℕ) × (inode ≡ t.base + k) × (get_elem? t.nodes (suc k) ≡ some n)
unfolding node
node_place t inode n other e = elim (offset_cases t inode other) [
  | inl o ↦ absurd (none_some (sym (ap (at_offset t.nodes) o) ∙ e))
  | inr (above, o) ↦ (inode - t.base, omega arith, sym (ap (at_offset t.nodes) o) ∙ e)
]
  where
    none_some : {m : RemoteNode} → none ≢ some m
    none_some h = cc

place_node :
    (t : RemoteTree) (k : ℕ)
    → 2 ≤ t.base
    → t.base + k ≤ u64_max
    → node t (t.base + k) ≡ get_elem? t.nodes (suc k)
unfolding node
place_node t k above range =
    let back : t.base + k - t.base + 1 ≡ suc k = omega arith in
    let o : node_offset t (t.base + k) ≡ some (suc k) = ground arith in ap (at_offset t.nodes) o

node-IsEntry :
    (files : List FileDescriptor) (max_entries : ℕ) (t : RemoteTree)
    → IsSound files max_entries (skeleton t)
    → (inode : ℕ) (n : RemoteNode) → inode ≢ root_inode
    → node t inode ≡ some n
    → IsEntry files t inode n
unfolding lookup
node-IsEntry files max_entries t i inode n other e =
    let place = node_place t inode n other e in
    let p = i.placed place.0 (shape_of n) (shape_at t.nodes (suc place.0) n place.2) in
    record {
      safe_name = p.safe;
      parent_directory = is_dir_at-skeleton t n.parent ∙ p.in_directory;
      parent_before = rw place.1 p.below;
      found_by_name = p.found ∙ ap some (sym place.1);
      from_descriptor = p.source;
    }

lookup-node :
    (files : List FileDescriptor) (max_entries : ℕ) (t : RemoteTree)
    → IsSound files max_entries (skeleton t)
    → (parent : ℕ) (name : List ℕ) (inode : ℕ) → lookup t parent name ≡ some inode
    → (n : RemoteNode) × (node t inode ≡ some n) × (n.parent ≡ parent) × (n.name ≡ name)
unfolding lookup
lookup-node files max_entries t i parent name inode e =
    let (k, sh, at, stands, p, nm) = i.named parent name inode e in
    let there = node_of_shape t.nodes (suc k) sh stands in
    let short = get_elem?-lt (shapes_of t.nodes) (suc k) sh stands in
    let range = i.in_range in
    let found : node t (t.base + k) ≡ some there.0 =
      place_node t k i.above_root (omega arith) ∙ there.1 in
    (there.0, rw at found, cc (there.2), cc (there.2))

-- The tree that is built from a client's list, whatever is in the list, has at most `max_entries`
-- nodes below its root. The root is a directory. Each other node has a name that is not empty, not
-- `.` or `..`, and has no separator and no NUL; its parent is a directory of the tree with a smaller
-- inode, and the look-up of its name there gives the node itself, so that no two have one name; and
-- if it is a file, its index is that of a descriptor whose path ends in its name. Whatever a look-up
-- gives has the parent and the name that were looked up.
pub build-IsSandboxed :
    (files : List FileDescriptor) (max_entries base built_at : ℕ)
    → 2 ≤ base
    → base ≤ u64_max
    → IsSandboxed files max_entries (build files max_entries base built_at)
build-IsSandboxed files max_entries base built_at above range =
    let t = build files max_entries base built_at in
    let i = build-IsSound files max_entries base built_at above range in
    let size = length-shapes_of t.nodes in
    let few = i.bounded in
    record {
      few_entries = omega arith;
      root_directory = is_dir_at-skeleton t root_inode ∙ root_is_directory files max_entries t i;
      entry_at = node-IsEntry files max_entries t i;
      name_leads_to = lookup-node files max_entries t i;
    }
