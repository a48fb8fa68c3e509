-- ===== src/Clipboard/Inbound/Tree/Sandbox.antt =====
-- The tree that src/clipboard/inbound/tree.rs builds from a client's list: nothing in it reaches out
-- of the mount, and what is found by a name is what has it.
use hypr_rdp.Base.{
  ℕ, zero, suc, ◌+◌, ◌-◌, ◌≤◌, ◌<◌, ◌≡◌, refl, true, ◌&&◌, Option, none, some, List, [], ◌∷◌, ◌++◌,
  ◌==◌, arith, length, length-append, get_elem?, get_elem?-lt, get_elem?-append_left,
  get_elem?-append_last, get_elem?-append_cases, u64_max, Bool-cases, inl, inr, ◌⊎◌, ap, ◌∙◌,
}
use hypr_rdp.Clipboard.Inbound.Tree.{RemoteNodeKind, directory, file, is_dir, root_inode, find_name}
use hypr_rdp.Clipboard.Inbound.Tree.Paths.{FileDescriptor, same_name, path_components, split_last}
use hypr_rdp.Clipboard.Inbound.Tree.Names.{IsName, same_name_refl, same_name→≡}
use hypr_rdp.Clipboard.Inbound.Tree.Skeleton.{
  Shape, Skeleton, skeleton_offset, kind_at, dir_at, is_dir_at, new_inode, pushed,
}

-- The descriptor at `index` of the client's list has this name for its last.
abbrev pub IsLeaf : List FileDescriptor → ℕ → List ℕ → Type 0
IsLeaf files index name =
    (f : FileDescriptor) × (components parents : List (List ℕ)) × (get_elem? files index ≡ some f)
    × (path_components f ≡ some components)
    × (split_last components ≡ some (parents, name))

abbrev pub IsSource : List FileDescriptor → RemoteNodeKind → List ℕ → Type 0
IsSource files directory name = Unit
IsSource files (file index) name = IsLeaf files index name

-- A node other than the root's, where it stands.
pub record IsPlaced (files : List FileDescriptor) (s : Skeleton) (k : ℕ) (sh : Shape) : Type 0 where
  pub safe : IsName sh.shape_name
  pub in_directory : is_dir_at s sh.shape_parent ≡ true
  pub below : sh.shape_parent < s.first + k
  pub found : find_name s.names sh.shape_parent sh.shape_name ≡ some (s.first + k)
  pub source : IsSource files sh.shape_kind sh.shape_name

abbrev pub HasName : Skeleton → ℕ → List ℕ → ℕ → Type 0
HasName s parent name inode =
    (k : ℕ) × (sh : Shape) × (inode ≡ s.first + k)
    × (get_elem? s.shapes (suc k) ≡ some sh)
    × (sh.shape_parent ≡ parent)
    × (sh.shape_name ≡ name)

abbrev pub root_shape : Shape
root_shape = record { shape_name = []; shape_parent = root_inode; shape_kind = directory }

pub record IsSound (files : List FileDescriptor) (max_entries : ℕ) (s : Skeleton) : Type 0 where
  pub above_root : 2 ≤ s.first
  pub in_range : s.first + length s.shapes ≤ u64_max + 2
  pub has_root : get_elem? s.shapes 0 ≡ some root_shape
  pub bounded : length s.shapes ≤ suc max_entries
  pub placed : (k : ℕ) (sh : Shape) → get_elem? s.shapes (suc k) ≡ some sh → IsPlaced files s k sh
  pub named :
      (parent : ℕ) (name : List ℕ) (inode : ℕ)
      → find_name s.names parent name ≡ some inode
      → HasName s parent name inode

kind_at-append :
    (shapes : List Shape) (sh : Shape) (offset : ℕ)
    → kind_at shapes offset ≡ true
    → kind_at (shapes ++ (sh ∷ [])) offset ≡ true
kind_at-append [] sh offset h = cc
kind_at-append (x ∷ shapes) sh zero h = h
kind_at-append (x ∷ shapes) sh (suc offset) h = kind_at-append shapes sh offset h

pub dir_at-pushed :
    (s : Skeleton) (sh : Shape) (inode : ℕ)
    → is_dir_at s inode ≡ true
    → is_dir_at (pushed s sh) inode ≡ true
dir_at-pushed s sh inode d = at (skeleton_offset s inode) d
  where
    at : (o : Option ℕ) → dir_at s.shapes o ≡ true → dir_at (s.shapes ++ (sh ∷ [])) o ≡ true
    at none h = h
    at (some offset) h = kind_at-append s.shapes sh offset h

kind_at-lt :
    (shapes : List Shape) (offset : ℕ) → kind_at shapes offset ≡ true → offset < length shapes
kind_at-lt [] offset h = cc
kind_at-lt (sh ∷ shapes) zero h = omega arith
kind_at-lt (sh ∷ shapes) (suc offset) h = omega (arith, kind_at-lt shapes offset h)

dir_cases :
    (s : Skeleton) (inode : ℕ)
    → is_dir_at s inode ≡ true
    → (inode ≡ 1) ⊎ (kind_at s.shapes (inode - s.first + 1) ≡ true)
dir_cases s inode d = ground arith

dir_below :
    (s : Skeleton) (inode : ℕ)
    → 2 ≤ s.first
    → is_dir_at s inode ≡ true
    → inode < s.first + (length s.shapes - 1)
dir_below s inode above d = elim (dir_cases s inode d) [
  | inl e ↦ omega arith
  | inr e ↦ omega (arith, kind_at-lt s.shapes (inode - s.first + 1) e)
]

offset-new :
    (s : Skeleton)
    → 2 ≤ s.first
    → 1 ≤ length s.shapes
    → s.first + (length s.shapes - 1) ≤ u64_max
    → skeleton_offset s (new_inode s) ≡ some (length s.shapes)
offset-new s above some_root range =
    let back : s.first + (length s.shapes - 1) - s.first + 1 ≡ length s.shapes = omega arith in
    ground arith

pub dir_at-new :
    (s : Skeleton) (sh : Shape)
    → 2 ≤ s.first
    → 1 ≤ length s.shapes
    → s.first + (length s.shapes - 1) ≤ u64_max
    → is_dir_at (pushed s sh) (new_inode s) ≡ is_dir sh.shape_kind
dir_at-new s sh above some_root range =
    ap (dir_at (s.shapes ++ (sh ∷ []))) (offset-new s above some_root range)
    ∙ rw (get_elem?-append_last s.shapes sh, dir_at, kind_at) refl

find_name-pushed :
    (s : Skeleton) (sh : Shape) (parent : ℕ) (name : List ℕ) (inode : ℕ)
    → find_name s.names sh.shape_parent sh.shape_name ≡ none
    → find_name s.names parent name ≡ some inode
    → find_name (pushed s sh).names parent name ≡ some inode
find_name-pushed s sh parent name inode free e =
    elim (Bool-cases (sh.shape_parent == parent && same_name sh.shape_name name)) [
      | inl t ↦
          let p : sh.shape_parent ≡ parent = ground arith in
          let q : same_name sh.shape_name name ≡ true = ground arith in
          let n = same_name→≡ sh.shape_name name q in absurd (cc)
      | inr t ↦ rw t e
    ]

find_name-new :
    (s : Skeleton) (sh : Shape)
    → find_name (pushed s sh).names sh.shape_parent sh.shape_name ≡ some (new_inode s)
find_name-new s sh = let same = same_name_refl sh.shape_name in ground arith

IsPlaced-weaken :
    (files : List FileDescriptor) (s : Skeleton) (k : ℕ) (sh new : Shape)
    → find_name s.names new.shape_parent new.shape_name ≡ none
    → IsPlaced files s k sh
    → IsPlaced files (pushed s new) k sh
IsPlaced-weaken files s k sh new free p = record {
  safe = p.safe;
  in_directory = dir_at-pushed s new sh.shape_parent p.in_directory;
  below = p.below;
  found = find_name-pushed s new sh.shape_parent sh.shape_name (s.first + k) free p.found;
  source = p.source;
}

-- A node that may be added: a safe name in a directory that is there.
pub record Fits (files : List FileDescriptor) (max_entries : ℕ) (s : Skeleton) (sh : Shape)
    : Type 0 where
  pub fits_name : IsName sh.shape_name
  pub fits_directory : is_dir_at s sh.shape_parent ≡ true
  pub fits_source : IsSource files sh.shape_kind sh.shape_name
  pub fits_free : find_name s.names sh.shape_parent sh.shape_name ≡ none
  pub fits_room : length s.shapes - 1 < max_entries
  pub fits_range : s.first + (length s.shapes - 1) ≤ u64_max

IsPlaced-pushed :
    (files : List FileDescriptor) (max_entries : ℕ) (s : Skeleton) (new : Shape)
    → IsSound files max_entries s
    → Fits files max_entries s new
    → (k : ℕ) (sh : Shape) → get_elem? (s.shapes ++ (new ∷ [])) (suc k) ≡ some sh
    → IsPlaced files (pushed s new) k sh
IsPlaced-pushed files max_entries s new i f k sh e =
    elim (get_elem?-append_cases s.shapes new (suc k) sh e) [
      | inl old ↦ IsPlaced-weaken files s k sh new f.fits_free (i.placed k sh old)
      | inr (last, same) ↦
          let at_end : k ≡ length s.shapes - 1 = omega arith in
          rw (at_end, same)
            (record {
              safe = f.fits_name;
              in_directory = dir_at-pushed s new new.shape_parent f.fits_directory;
              below = dir_below s new.shape_parent i.above_root f.fits_directory;
              found = find_name-new s new;
              source = f.fits_source;
            })
    ]

HasName-pushed :
    (files : List FileDescriptor) (max_entries : ℕ) (s : Skeleton) (new : Shape)
    → IsSound files max_entries s
    → (parent : ℕ) (name : List ℕ) (inode : ℕ)
    → find_name (pushed s new).names parent name ≡ some inode
    → HasName (pushed s new) parent name inode
HasName-pushed files max_entries s new i parent name inode e =
    elim (Bool-cases (new.shape_parent == parent && same_name new.shape_name name)) [
      | inl t ↦
          let p : new.shape_parent ≡ parent = ground arith in
          let q : same_name new.shape_name name ≡ true = ground arith in
          let at : some (new_inode s) ≡ some inode = rw t at e in
          let same : inode ≡ new_inode s = cc in
          let rooted_list = get_elem?-lt s.shapes 0 root_shape i.has_root in
          let at_end : suc (length s.shapes - 1) ≡ length s.shapes = omega arith in
          (
            length s.shapes - 1,
            new,
            same,
            rw at_end (get_elem?-append_last s.shapes new),
            p,
            same_name→≡ new.shape_name name q,
          )
      | inr t ↦
          let old = i.named parent name inode (rw t at e) in
          (
            old.0,
            old.1,
            old.2,
            get_elem?-append_left s.shapes (new ∷ []) (suc old.0) old.1 old.3,
            old.4,
            old.5,
          )
    ]

pub IsSound-pushed :
    (files : List FileDescriptor) (max_entries : ℕ) (s : Skeleton) (new : Shape)
    → IsSound files max_entries s
    → Fits files max_entries s new
    → IsSound files max_entries (pushed s new)
IsSound-pushed files max_entries s new i f =
    let size = length-append s.shapes (new ∷ []) in
    let range = f.fits_range in
    let room = f.fits_room in
    record {
      above_root = i.above_root;
      in_range = omega arith;
      has_root = get_elem?-append_left s.shapes (new ∷ []) 0 root_shape i.has_root;
      bounded = omega arith;
      placed = IsPlaced-pushed files max_entries s new i f;
      named = HasName-pushed files max_entries s new i;
    }
