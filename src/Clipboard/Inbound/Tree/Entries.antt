-- ===== src/Clipboard/Inbound/Tree/Entries.antt =====
-- How a tree of src/clipboard/inbound/tree.rs is built: entries, directories, descriptors. The number
-- of dropped descriptors, which is only logged, is left out.
use hypr_rdp.Base.{
  ℕ, ◌+◌, Bool, true, false, not, ◌||◌, Option, none, some, List, [], ◌∷◌, ◌++◌, if◌then◌else◌, ltb,
  leb,
}
use hypr_rdp.Base.Int.{i32_max}
use hypr_rdp.Clipboard.Inbound.Tree.Paths.{
  FileDescriptor, path_components, split_last, is_directory, is_read_only, file_size, system_time,
}
use hypr_rdp.Clipboard.Inbound.Tree.{
  root_inode, directory, file, is_dir, RemoteNode, RemoteEntry, synthesized_directory, RemoteTree,
  rooted, entries, is_full, checked_add, offset_of, node_offset, node, is_directory_at, with_node,
  lookup,
}

-- The tree and the result at the end: `?` leaves the tree as it is by then.
abbrev pub settle : RemoteTree → ℕ → Option RemoteTree → RemoteTree × Option ℕ
settle t inode none = (t, none)
settle t inode (some u) = (u, some inode)

abbrev pub stamp : RemoteTree → ℕ → Option ℕ → Option RemoteTree
stamp t offset none = some t
stamp t offset (some m) = with_node t offset (λ n. record n { modified = m })

abbrev pub mark_read_only : RemoteTree → ℕ → Bool → Option RemoteTree
mark_read_only t offset false = some t
mark_read_only t offset true = with_node t offset (λ n. record n { read_only = true })

-- What a repeated directory says of itself is kept.
unfoldable pub merge_entry : RemoteTree → ℕ → ℕ → RemoteEntry → RemoteTree × Option ℕ
merge_entry t inode offset entry = elim (stamp t offset entry.entry_modified) [
  | none ↦ (t, none)
  | some u ↦ settle u inode (mark_read_only u offset entry.entry_read_only)
]

unfoldable pub insert_again : RemoteTree → ℕ → RemoteEntry → RemoteTree × Option ℕ
unfolding merge_entry node
insert_again t inode entry =
    if not (is_directory_at t inode) || not (is_dir entry.entry_kind)
    then (t, none)
    else elim (offset_of t inode) [
      | none ↦ (t, none)
      | some offset ↦ merge_entry t inode offset entry
    ]

abbrev or_built_at : Option ℕ → ℕ → ℕ
or_built_at none built_at = built_at
or_built_at (some m) built_at = m

abbrev pub new_node : RemoteTree → ℕ → List ℕ → RemoteEntry → RemoteNode
new_node t parent name entry = record {
  name = name;
  parent = parent;
  size = entry.entry_size;
  modified = or_built_at entry.entry_modified t.built_at;
  kind = entry.entry_kind;
  read_only = entry.entry_read_only;
  children = [];
}

abbrev pub add_node : RemoteTree → ℕ → ℕ → List ℕ → RemoteEntry → RemoteTree
add_node t inode parent name entry = record t {
  nodes = t.nodes ++ (new_node t parent name entry ∷ []);
  by_name = ((parent, name), inode) ∷ t.by_name;
}

abbrev pub add_child : RemoteTree → Option ℕ → ℕ → Option RemoteTree
add_child t none inode = none
add_child t (some offset) inode =
    with_node t offset (λ n. record n { children = n.children ++ (inode ∷ []) })

unfoldable pub insert_new : RemoteTree → ℕ → List ℕ → RemoteEntry → RemoteTree × Option ℕ
insert_new t parent name entry = elim (checked_add t.base (entries t)) [
  | none ↦ (t, none)
  | some inode ↦
      let u = add_node t inode parent name entry in
      settle u inode (add_child u (node_offset t parent) inode)
]

unfoldable pub insert :
    RemoteTree → ℕ → List ℕ → RemoteEntry → (max_entries : ℕ) → RemoteTree × Option ℕ
unfolding insert_new insert_again lookup
insert t parent name entry max_entries = elim (lookup t parent name) [
  | some inode ↦ insert_again t inode entry
  | none ↦ if is_full t max_entries then (t, none) else insert_new t parent name entry
]

-- `RemoteTree::directory`.
unfoldable pub make_directory : RemoteTree → ℕ → List ℕ → (max_entries : ℕ) → RemoteTree × Option ℕ
unfolding insert lookup node
make_directory t parent name max_entries = elim (lookup t parent name) [
  | some inode ↦ if is_directory_at t inode then (t, some inode) else (t, none)
  | none ↦ insert t parent name synthesized_directory max_entries
]

-- The loop over the parents: the directory it comes to, if it reaches one.
unfoldable pub reach : RemoteTree → ℕ → List (List ℕ) → (max_entries : ℕ) → RemoteTree × Option ℕ
unfolding make_directory
reach t parent [] max_entries = (t, some parent)
reach t parent (component ∷ parents) max_entries =
    let step = make_directory t parent component max_entries in
    elim step.1 [ none ↦ (step.0, none) | some inode ↦ reach step.0 inode parents max_entries ]

abbrev pub entry_of : ℕ → FileDescriptor → RemoteEntry
entry_of index f = record {
  entry_kind = if is_directory f then directory else file index;
  entry_size = file_size f;
  entry_modified = system_time f.last_write_time;
  entry_read_only = is_read_only f;
}

-- One descriptor.
unfoldable pub add_file : RemoteTree → (max_entries index : ℕ) → FileDescriptor → RemoteTree
unfolding reach insert path_components split_last
add_file t max_entries index f = elim (path_components f) [
  | none ↦ t
  | some components ↦ elim (split_last components) [
    | none ↦ t
    | some (parents, leaf) ↦
        let reached = reach t root_inode parents max_entries in
        elim reached.1 [
          | none ↦ reached.0
          | some parent ↦ (insert reached.0 parent leaf (entry_of index f) max_entries).0
        ]
  ]
]

unfoldable pub add_files : RemoteTree → (max_entries index : ℕ) → List FileDescriptor → RemoteTree
unfolding add_file
add_files t max_entries index [] = t
add_files t max_entries index (f ∷ files) =
    let rest = add_files (add_file t max_entries index f) max_entries (index + 1) files in
    if is_full t max_entries || leb max_entries index
    then t
    else if ltb i32_max index
    then t
    else rest

unfoldable pub build : List FileDescriptor → (max_entries base built_at : ℕ) → RemoteTree
unfolding add_files rooted
build files max_entries base built_at = add_files (rooted base built_at) max_entries 0 files
