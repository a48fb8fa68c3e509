-- ===== src/Clipboard/Inbound/Tree/Skeleton.antt =====
-- What of a tree of src/clipboard/inbound/tree.rs never changes once it is there: the names, the
-- parents and the kinds of its nodes. Each operation keeps this skeleton or adds one node to it.
use hypr_rdp.Base.{
  ℕ, zero, suc, ◌+◌, ◌-◌, ◌≤◌, ◌<◌, ◌≡◌, refl, Bool, true, false, Option, none, some, List, [], ◌∷◌,
  ◌++◌, ◌==◌, if◌then◌else◌, length, get_elem?, ltb, u64_max, Option-cases, inl, inr, ◌⊎◌, ap, sym,
  subst,
}
use hypr_rdp.Clipboard.Inbound.Tree.{
  RemoteNodeKind, is_dir, RemoteNode, RemoteEntry, RemoteTree, root_inode, checked_add, find_name,
  node, node_offset, set_at, with_node, is_some_directory, at_offset, is_directory_at,
}
use hypr_rdp.Clipboard.Inbound.Tree.Entries.{merge_entry, settle, stamp, mark_read_only, add_child}

pub record Shape : Type 0 where
  pub shape_name : List ℕ
  pub shape_parent : ℕ
  pub shape_kind : RemoteNodeKind

pub record Skeleton : Type 0 where
  pub first : ℕ
  pub shapes : List Shape
  pub names : List ((ℕ × List ℕ) × ℕ)

abbrev pub shape_of : RemoteNode → Shape
shape_of n = record { shape_name = n.name; shape_parent = n.parent; shape_kind = n.kind }

abbrev pub shapes_of : List RemoteNode → List Shape
shapes_of [] = []
shapes_of (n ∷ nodes) = shape_of n ∷ shapes_of nodes

abbrev pub skeleton : RemoteTree → Skeleton
skeleton t = record { first = t.base; shapes = shapes_of t.nodes; names = t.by_name }

abbrev pub skeleton_offset : Skeleton → ℕ → Option ℕ
skeleton_offset s inode =
    if inode == root_inode
    then some 0
    else if ltb inode s.first
    then none
    else checked_add (inode - s.first) 1

abbrev pub kind_at : List Shape → ℕ → Bool
kind_at shapes offset = elim (get_elem? shapes offset) [
  | none ↦ false
  | some sh ↦ is_dir sh.shape_kind
]

abbrev pub dir_at : List Shape → Option ℕ → Bool
dir_at shapes none = false
dir_at shapes (some offset) = kind_at shapes offset

-- Whether the inode is a directory of the skeleton.
abbrev pub is_dir_at : Skeleton → ℕ → Bool
is_dir_at s inode = dir_at s.shapes (skeleton_offset s inode)

abbrev pub new_inode : Skeleton → ℕ
new_inode s = s.first + (length s.shapes - 1)

abbrev pub pushed : Skeleton → Shape → Skeleton
pushed s sh = record s {
  shapes = s.shapes ++ (sh ∷ []);
  names = ((sh.shape_parent, sh.shape_name), new_inode s) ∷ s.names;
}

pub length-shapes_of : (nodes : List RemoteNode) → length (shapes_of nodes) ≡ length nodes
length-shapes_of [] = refl
length-shapes_of (n ∷ nodes) = ap suc (length-shapes_of nodes)

pub shapes_of-append :
    (nodes : List RemoteNode) (n : RemoteNode)
    → shapes_of (nodes ++ (n ∷ [])) ≡ shapes_of nodes ++ (shape_of n ∷ [])
shapes_of-append [] n = refl
shapes_of-append (m ∷ nodes) n = ap (λ r. shape_of m ∷ r) (shapes_of-append nodes n)

pub kind_at-shapes_of :
    (nodes : List RemoteNode) (i : ℕ)
    → kind_at (shapes_of nodes) i ≡ is_some_directory (get_elem? nodes i)
kind_at-shapes_of [] i = refl
kind_at-shapes_of (n ∷ nodes) zero = refl
kind_at-shapes_of (n ∷ nodes) (suc i) = kind_at-shapes_of nodes i

pub is_dir_at-skeleton :
    (t : RemoteTree) (inode : ℕ) → is_directory_at t inode ≡ is_dir_at (skeleton t) inode
unfolding node
is_dir_at-skeleton t inode = at (node_offset t inode)
  where
    at : (o : Option ℕ) → is_some_directory (at_offset t.nodes o) ≡ dir_at (shapes_of t.nodes) o
    at none = refl
    at (some offset) = sym (kind_at-shapes_of t.nodes offset)

shapes_of-set_at :
    (nodes : List RemoteNode) (i : ℕ) (f : RemoteNode → RemoteNode)
    → ((n : RemoteNode) → shape_of (f n) ≡ shape_of n)
    → shapes_of (set_at nodes i f) ≡ shapes_of nodes
shapes_of-set_at [] i f keeps = refl
shapes_of-set_at (n ∷ nodes) zero f keeps = ap (λ sh. sh ∷ shapes_of nodes) (keeps n)
shapes_of-set_at (n ∷ nodes) (suc i) f keeps =
    ap (λ r. shape_of n ∷ r) (shapes_of-set_at nodes i f keeps)

-- A changed tree, if there is one, has the skeleton.
abbrev pub On : Skeleton → Option RemoteTree → Type 0
On s none = Unit
On s (some u) = skeleton u ≡ s

pub with_node-On :
    (t : RemoteTree) (offset : ℕ) (f : RemoteNode → RemoteNode)
    → ((n : RemoteNode) → shape_of (f n) ≡ shape_of n)
    → On (skeleton t) (with_node t offset f)
with_node-On t offset f keeps = elim (Option-cases (get_elem? t.nodes offset)) [
  | inl e ↦ rw (e, with_node) tt
  | inr (n, e) ↦
      rw (e, with_node)
        (ap (λ shapes. record (skeleton t) { shapes = shapes })
          (shapes_of-set_at t.nodes offset f keeps))
]

stamp-On : (t : RemoteTree) (offset : ℕ) (m : Option ℕ) → On (skeleton t) (stamp t offset m)
stamp-On t offset none = refl
stamp-On t offset (some m) = with_node-On t offset (λ n. record n { modified = m }) (λ n. refl)

mark_read_only-On :
    (t : RemoteTree) (offset : ℕ) (b : Bool) → On (skeleton t) (mark_read_only t offset b)
mark_read_only-On t offset false = refl
mark_read_only-On t offset true =
    with_node-On t offset (λ n. record n { read_only = true }) (λ n. refl)

pub add_child-On :
    (t : RemoteTree) (o : Option ℕ) (inode : ℕ) → On (skeleton t) (add_child t o inode)
add_child-On t none inode = tt
add_child-On t (some offset) inode =
    with_node-On t offset (λ n. record n { children = n.children ++ (inode ∷ []) }) (λ n. refl)

-- A result whose tree has the skeleton, and whose inode, if any, is the given one.
abbrev Settled : Skeleton → ℕ → RemoteTree × Option ℕ → Type 0
Settled s inode r = (skeleton r.0 ≡ s) × ((i : ℕ) → r.1 ≡ some i → i ≡ inode)

pub settle-Settled :
    (s : Skeleton) (t : RemoteTree) (inode : ℕ) (o : Option RemoteTree)
    → skeleton t ≡ s
    → On s o
    → Settled s inode (settle t inode o)
settle-Settled s t inode none e h = (e, λ i g. cc)
settle-Settled s t inode (some u) e h = (h, λ i g. cc)

pub merge_entry-Settled :
    (t : RemoteTree) (inode offset : ℕ) (entry : RemoteEntry)
    → Settled (skeleton t) inode (merge_entry t inode offset entry)
unfolding merge_entry
merge_entry-Settled t inode offset entry =
    elim (Option-cases (stamp t offset entry.entry_modified)) [
      | inl e ↦ rw (e, merge_entry) (refl, λ i g. cc)
      | inr (u, e) ↦
          let on : skeleton u ≡ skeleton t =
            subst (On (skeleton t)) e (stamp-On t offset entry.entry_modified) in
          rw (e, merge_entry)
            (settle-Settled (skeleton t) u inode (mark_read_only u offset entry.entry_read_only) on
              (subst (λ s. On s (mark_read_only u offset entry.entry_read_only)) on
                (mark_read_only-On u offset entry.entry_read_only)))
    ]

-- The same skeleton, and any inode that is returned is a directory of it.
abbrev pub Kept : RemoteTree → RemoteTree × Option ℕ → Type 0
Kept t r = (skeleton r.0 ≡ skeleton t) × ((i : ℕ) → r.1 ≡ some i → is_dir_at (skeleton t) i ≡ true)

-- A node is added to it, with the next inode, under a name that was free.
abbrev pub Grown : RemoteTree → Shape → ℕ → RemoteTree × Option ℕ → Type 0
Grown t sh max_entries r =
    (find_name t.by_name sh.shape_parent sh.shape_name ≡ none)
    × (length t.nodes - 1 < max_entries)
    × (t.base + (length t.nodes - 1) ≤ u64_max)
    × Settled (pushed (skeleton t) sh) (new_inode (skeleton t)) r

abbrev pub entry_shape : ℕ → List ℕ → RemoteEntry → Shape
entry_shape parent name entry = record {
  shape_name = name;
  shape_parent = parent;
  shape_kind = entry.entry_kind;
}

-- An insertion or a look-up that adds keeps or grows the skeleton.
abbrev pub Outcome : RemoteTree → Shape → ℕ → RemoteTree × Option ℕ → Type 0
Outcome t sh max_entries r = Kept t r ⊎ Grown t sh max_entries r
