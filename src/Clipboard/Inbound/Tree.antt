-- ===== src/Clipboard/Inbound/Tree.antt =====
-- The nodes of src/clipboard/inbound/tree.rs and what is asked of them. A name is its UTF-8 bytes, a
-- `SystemTime` its nanoseconds since the Windows epoch, the map by name an association list. A method
-- that changes the tree returns the new one.
pub mod Entries
pub mod Insertion
pub mod Paths
pub mod Names
pub mod Skeleton
pub mod Sandbox
pub mod Build
pub mod First
pub mod Mount
use hypr_rdp.Base.{
  ℕ, zero, suc, ◌+◌, ◌-◌, Bool, true, false, ◌&&◌, Option, none, some, List, [], ◌∷◌, ◌==◌,
  if◌then◌else◌, ltb, leb, length, get_elem?, u64_max, u32_max, sat_u64, min,
}
use hypr_rdp.Clipboard.Inbound.Tree.Paths.{same_name}

abbrev pub root_inode : ℕ
root_inode = 1

abbrev pub first_inode : ℕ
first_inode = 2

pub data RemoteNodeKind : Type 0 where
  directory : RemoteNodeKind
  file : (index : ℕ) → RemoteNodeKind

abbrev pub is_dir : RemoteNodeKind → Bool
is_dir directory = true
is_dir (file _) = false

pub record RemoteNode : Type 0 where
  pub name : List ℕ
  pub parent : ℕ
  pub size : Option ℕ
  pub modified : ℕ
  pub kind : RemoteNodeKind
  pub read_only : Bool
  pub children : List ℕ

-- `RemoteNode::is_directory`.
abbrev pub node_is_directory : RemoteNode → Bool
node_is_directory n = is_dir n.kind

unfoldable pub permissions : RemoteNode → ℕ
permissions n =
    if node_is_directory n
    then (if n.read_only then 0o555 else 0o755)
    else (if n.read_only then 0o444 else 0o644)

pub record RemoteEntry : Type 0 where
  pub entry_kind : RemoteNodeKind
  pub entry_size : Option ℕ
  pub entry_modified : Option ℕ
  pub entry_read_only : Bool

abbrev pub synthesized_directory : RemoteEntry
synthesized_directory = record {
  entry_kind = directory;
  entry_size = some 0;
  entry_modified = none;
  entry_read_only = false;
}

pub record RemoteTree : Type 0 where
  pub base : ℕ
  pub nodes : List RemoteNode
  pub by_name : List ((ℕ × List ℕ) × ℕ)
  pub built_at : ℕ

abbrev pub root_node : ℕ → RemoteNode
root_node built_at = record {
  name = [];
  parent = root_inode;
  size = some 0;
  modified = built_at;
  kind = directory;
  read_only = true;
  children = [];
}

unfoldable pub rooted : (base built_at : ℕ) → RemoteTree
rooted base built_at = record {
  base = base;
  nodes = root_node built_at ∷ [];
  by_name = [];
  built_at = built_at;
}

unfoldable pub empty : (built_at : ℕ) → RemoteTree
unfolding rooted
empty built_at = rooted first_inode built_at

abbrev pub entries : RemoteTree → ℕ
entries t = length t.nodes - 1

abbrev pub is_full : RemoteTree → ℕ → Bool
is_full t max_entries = leb max_entries (entries t)

unfoldable pub next_base : RemoteTree → ℕ
next_base t = sat_u64 (t.base + entries t)

-- `checked_add` of u64 and usize.
abbrev pub checked_add : ℕ → ℕ → Option ℕ
checked_add a b = if ltb u64_max (a + b) then none else some (a + b)

-- Where the node of an inode other than the root's stands.
abbrev pub offset_of : RemoteTree → ℕ → Option ℕ
offset_of t inode = if ltb inode t.base then none else checked_add (inode - t.base) 1

abbrev pub node_offset : RemoteTree → ℕ → Option ℕ
node_offset t inode = if inode == root_inode then some 0 else offset_of t inode

abbrev at_offset : List RemoteNode → Option ℕ → Option RemoteNode
at_offset nodes none = none
at_offset nodes (some offset) = get_elem? nodes offset

unfoldable pub node : RemoteTree → ℕ → Option RemoteNode
node t inode = at_offset t.nodes (node_offset t inode)

-- `is_some_and(RemoteNode::is_directory)`.
abbrev pub is_some_directory : Option RemoteNode → Bool
is_some_directory none = false
is_some_directory (some n) = node_is_directory n

abbrev pub is_directory_at : RemoteTree → ℕ → Bool
is_directory_at t inode = is_some_directory (node t inode)

-- `get_mut`, and what is done with the node.
abbrev pub set_at : List RemoteNode → ℕ → (RemoteNode → RemoteNode) → List RemoteNode
set_at [] i f = []
set_at (n ∷ nodes) zero f = f n ∷ nodes
set_at (n ∷ nodes) (suc i) f = n ∷ set_at nodes i f

abbrev pub with_node : RemoteTree → ℕ → (RemoteNode → RemoteNode) → Option RemoteTree
with_node t offset f = elim (get_elem? t.nodes offset) [
  | none ↦ none
  | some n ↦ some (record t { nodes = set_at t.nodes offset f })
]

-- The Boolean says whether the size was set.
unfoldable pub set_size : RemoteTree → ℕ → ℕ → RemoteTree × Bool
set_size t inode size = elim (offset_of t inode) [
  | none ↦ (t, false)
  | some offset ↦ elim (get_elem? t.nodes offset) [
    | none ↦ (t, false)
    | some n ↦
        if node_is_directory n
        then (t, false)
        else (record t { nodes = set_at t.nodes offset (λ m. record m { size = some size }) }, true)
  ]
]

abbrev pub find_name : List ((ℕ × List ℕ) × ℕ) → ℕ → List ℕ → Option ℕ
find_name [] parent name = none
find_name (((p, n), inode) ∷ by_name) parent name =
    let rest = find_name by_name parent name in
    if p == parent && same_name n name then some inode else rest

unfoldable pub lookup : RemoteTree → ℕ → List ℕ → Option ℕ
lookup t parent name = find_name t.by_name parent name

unfoldable pub children : RemoteTree → ℕ → List ℕ
unfolding node
children t inode = elim (node t inode) [ none ↦ [] | some n ↦ n.children ]

abbrev pub roots : RemoteTree → List ℕ
roots t = children t root_inode

abbrev pub count_directories : RemoteTree → List ℕ → ℕ
count_directories t [] = 0
count_directories t (inode ∷ inodes) =
    (if is_directory_at t inode then 1 else 0) + count_directories t inodes

unfoldable pub link_count : RemoteTree → ℕ → ℕ
unfolding children node
link_count t inode =
    if is_directory_at t inode
    then min u32_max (2 + min u32_max (count_directories t (children t inode)))
    else 1
