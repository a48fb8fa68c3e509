-- ===== src/Clipboard/Inbound/Tree/First.antt =====
-- The first inode of a tree of src/clipboard/inbound/tree.rs stays the one that it was built with.
use hypr_rdp.Base.{
  ℕ, ◌+◌, ◌≡◌, refl, ◌||◌, Option, List, [], ◌∷◌, ap, ◌∙◌, Bool-cases, Option-cases, inl, inr, ltb,
  leb,
}
use hypr_rdp.Base.Int.{i32_max}
use hypr_rdp.Clipboard.Inbound.Tree.{RemoteTree, root_inode, is_full, rooted, synthesized_directory}
use hypr_rdp.Clipboard.Inbound.Tree.Entries.{
  build, reach, add_file, add_files, entry_of, insert, make_directory,
}
use hypr_rdp.Clipboard.Inbound.Tree.Paths.{FileDescriptor, path_components, split_last}
use hypr_rdp.Clipboard.Inbound.Tree.Skeleton.{Shape, Outcome, entry_shape}
use hypr_rdp.Clipboard.Inbound.Tree.Insertion.{insert-Outcome, make_directory-Outcome}

Outcome-base :
    (t : RemoteTree) (sh : Shape) (max_entries : ℕ) (r : RemoteTree × Option ℕ)
    → Outcome t sh max_entries r
    → (r.0).base ≡ t.base
Outcome-base t sh max_entries r (inl kept) = ap (λ s. s.first) kept.0
Outcome-base t sh max_entries r (inr grown) = ap (λ s. s.first) grown.3.0

reach-base :
    (t : RemoteTree) (parent : ℕ) (parents : List (List ℕ)) (max_entries : ℕ)
    → ((reach t parent parents max_entries).0).base ≡ t.base
unfolding reach
reach-base t parent [] max_entries = refl
reach-base t parent (name ∷ parents) max_entries =
    let step = make_directory t parent name max_entries in
    let same =
      Outcome-base t (entry_shape parent name synthesized_directory) max_entries step
        (make_directory-Outcome t parent name max_entries) in
    elim (Option-cases step.1) [
      | inl e ↦ rw (e, reach) same
      | inr (inode, e) ↦ rw (e, reach) (reach-base step.0 inode parents max_entries ∙ same)
    ]

add_file-base :
    (t : RemoteTree) (max_entries index : ℕ) (f : FileDescriptor)
    → (add_file t max_entries index f).base ≡ t.base
unfolding add_file
add_file-base t max_entries index f = elim (Option-cases (path_components f)) [
  | inl e ↦ rw (e, add_file) refl
  | inr (components, e) ↦ elim (Option-cases (split_last components)) [
    | inl g ↦ rw (e, g, add_file) refl
    | inr ((parents, leaf), g) ↦
        let reached = reach t root_inode parents max_entries in
        let same = reach-base t root_inode parents max_entries in
        elim (Option-cases reached.1) [
          | inl o ↦ rw (e, g, o, add_file) same
          | inr (parent, o) ↦
              rw (e, g, o, add_file)
                (Outcome-base reached.0 (entry_shape parent leaf (entry_of index f)) max_entries
                    (insert reached.0 parent leaf (entry_of index f) max_entries)
                    (insert-Outcome reached.0 parent leaf (entry_of index f) max_entries)
                  ∙ same)
        ]
  ]
]

add_files-base :
    (rest : List FileDescriptor) (t : RemoteTree) (max_entries index : ℕ)
    → (add_files t max_entries index rest).base ≡ t.base
unfolding add_files
add_files-base [] t max_entries index = refl
add_files-base (f ∷ rest) t max_entries index =
    let all =
      add_files-base rest (add_file t max_entries index f) max_entries (index + 1)
      ∙ add_file-base t max_entries index f in
    elim (Bool-cases (is_full t max_entries || leb max_entries index)) [
      | inl e ↦ rw (e, add_files) refl
      | inr e ↦ elim (Bool-cases (ltb i32_max index)) [
        | inl g ↦ rw (e, g, add_files) refl
        | inr g ↦ rw (e, g, add_files) all
      ]
    ]

pub build-base :
    (files : List FileDescriptor) (max_entries base built_at : ℕ)
    → (build files max_entries base built_at).base ≡ base
unfolding build rooted
build-base files max_entries base built_at =
    add_files-base files (rooted base built_at) max_entries 0
