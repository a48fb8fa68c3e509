-- ===== src/Clipboard/Inbound/Tree/Insertion.antt =====
-- What insert and directory of src/clipboard/inbound/tree.rs do to the skeleton of a tree.
use hypr_rdp.Base.{
  ℕ, ◌+◌, ◌-◌, ◌≤◌, ◌<◌, ◌≡◌, refl, true, false, not, ◌||◌, none, some, List, if◌then◌else◌, arith,
  length, u64_max, Bool-cases, Option-cases, inl, inr, sym, ◌∙◌, subst,
}
use hypr_rdp.Clipboard.Inbound.Tree.{
  is_dir, RemoteEntry, RemoteTree, checked_add, find_name, lookup, offset_of, node_offset,
  is_directory_at, entries, is_full, synthesized_directory,
}
use hypr_rdp.Clipboard.Inbound.Tree.Entries.{
  insert, insert_new, insert_again, add_node, add_child, make_directory, new_node,
}
use hypr_rdp.Clipboard.Inbound.Tree.Skeleton.{
  skeleton, pushed, length-shapes_of, shapes_of-append, is_dir_at-skeleton, On, add_child-On,
  settle-Settled, merge_entry-Settled, Kept, entry_shape, Outcome,
}

nothing-Kept : (t : RemoteTree) → Kept t (t, none)
nothing-Kept t = (refl, λ i g. cc)

insert_again-Kept :
    (t : RemoteTree) (inode : ℕ) (entry : RemoteEntry) → Kept t (insert_again t inode entry)
unfolding insert_again
insert_again-Kept t inode entry =
    elim (Bool-cases (not (is_directory_at t inode) || not (is_dir entry.entry_kind))) [
      | inl e ↦ rw (e, insert_again) (nothing-Kept t)
      | inr e ↦ elim (Option-cases (offset_of t inode)) [
        | inl f ↦ rw (e, f, insert_again) (nothing-Kept t)
        | inr (offset, f) ↦
            let done = merge_entry-Settled t inode offset entry in
            let d : is_directory_at t inode ≡ true = ground arith in
            rw (e, f, insert_again)
              (done.0, λ i g. rw (done.1 i g) (sym (is_dir_at-skeleton t inode) ∙ d))
      ]
    ]

insert_new-Outcome :
    (t : RemoteTree) (parent : ℕ) (name : List ℕ) (entry : RemoteEntry) (max_entries : ℕ)
    → find_name t.by_name parent name ≡ none
    → length t.nodes - 1 < max_entries
    → Outcome t (entry_shape parent name entry) max_entries (insert_new t parent name entry)
unfolding insert_new
insert_new-Outcome t parent name entry max_entries free fits =
    elim (Option-cases (checked_add t.base (entries t))) [
      | inl e ↦ rw (e, insert_new) (inl (nothing-Kept t))
      | inr (inode, e) ↦
          let range : t.base + (length t.nodes - 1) ≤ u64_max = ground arith in
          let next : inode ≡ t.base + (length t.nodes - 1) = ground arith in
          let u = add_node t inode parent name entry in
          let grown : skeleton u ≡ pushed (skeleton t) (entry_shape parent name entry) = cc (
            next,
            length-shapes_of t.nodes,
            shapes_of-append t.nodes (new_node t parent name entry),
          ) in
          let done =
            settle-Settled (pushed (skeleton t) (entry_shape parent name entry)) u inode
              (add_child u (node_offset t parent) inode) grown
              (subst (λ s. On s (add_child u (node_offset t parent) inode)) grown
                (add_child-On u (node_offset t parent) inode)) in
          rw (e, insert_new)
            (inr (
              free,
              fits,
              range,
              (done.0, λ i g. done.1 i g ∙ next ∙ cc (length-shapes_of t.nodes)),
            ))
    ]

-- Which routine an insertion comes to.
insert_again_case :
    (t : RemoteTree) (parent : ℕ) (name : List ℕ) (entry : RemoteEntry) (max_entries inode : ℕ)
    → find_name t.by_name parent name ≡ some inode
    → insert t parent name entry max_entries ≡ insert_again t inode entry
unfolding insert lookup
insert_again_case t parent name entry max_entries inode e = rw (e, insert, lookup) refl

insert_full_case :
    (t : RemoteTree) (parent : ℕ) (name : List ℕ) (entry : RemoteEntry) (max_entries : ℕ)
    → find_name t.by_name parent name ≡ none
    → is_full t max_entries ≡ true
    → insert t parent name entry max_entries ≡ (t, none)
unfolding insert lookup
insert_full_case t parent name entry max_entries e f = rw (e, f, insert, lookup) refl

insert_new_case :
    (t : RemoteTree) (parent : ℕ) (name : List ℕ) (entry : RemoteEntry) (max_entries : ℕ)
    → find_name t.by_name parent name ≡ none
    → is_full t max_entries ≡ false
    → insert t parent name entry max_entries ≡ insert_new t parent name entry
unfolding insert lookup
insert_new_case t parent name entry max_entries e f = rw (e, f, insert, lookup) refl

pub insert-Outcome :
    (t : RemoteTree) (parent : ℕ) (name : List ℕ) (entry : RemoteEntry) (max_entries : ℕ)
    → Outcome t (entry_shape parent name entry) max_entries (insert t parent name entry max_entries)
insert-Outcome t parent name entry max_entries =
    elim (Option-cases (find_name t.by_name parent name)) [
      | inl e ↦ elim (Bool-cases (is_full t max_entries)) [
        | inl f ↦ rw (insert_full_case t parent name entry max_entries e f) (inl (nothing-Kept t))
        | inr f ↦
            rw (insert_new_case t parent name entry max_entries e f)
              (insert_new-Outcome t parent name entry max_entries e (ground arith))
      ]
      | inr (inode, e) ↦
          rw (insert_again_case t parent name entry max_entries inode e)
            (inl (insert_again-Kept t inode entry))
    ]

make_directory_new :
    (t : RemoteTree) (parent : ℕ) (name : List ℕ) (max_entries : ℕ)
    → find_name t.by_name parent name ≡ none
    → make_directory t parent name max_entries
      ≡ insert t parent name synthesized_directory max_entries
unfolding make_directory lookup
make_directory_new t parent name max_entries e = rw (e, make_directory, lookup) refl

make_directory_again :
    (t : RemoteTree) (parent : ℕ) (name : List ℕ) (max_entries inode : ℕ)
    → find_name t.by_name parent name ≡ some inode
    → make_directory t parent name max_entries
      ≡ (if is_directory_at t inode then (t, some inode) else (t, none))
unfolding make_directory lookup
make_directory_again t parent name max_entries inode e = rw (e, make_directory, lookup) refl

pub make_directory-Outcome :
    (t : RemoteTree) (parent : ℕ) (name : List ℕ) (max_entries : ℕ)
    → Outcome t
        (entry_shape parent name synthesized_directory)
        max_entries
        (make_directory t parent name max_entries)
make_directory-Outcome t parent name max_entries =
    elim (Option-cases (find_name t.by_name parent name)) [
      | inl e ↦
          rw (make_directory_new t parent name max_entries e)
            (insert-Outcome t parent name synthesized_directory max_entries)
      | inr (inode, e) ↦ elim (Bool-cases (is_directory_at t inode)) [
        | inl f ↦
            let found : make_directory t parent name max_entries ≡ (t, some inode) =
              make_directory_again t parent name max_entries inode e ∙ rw f refl in
            rw found (
              inl (
                refl,
                λ i g. let same : i ≡ inode = cc in rw same (sym (is_dir_at-skeleton t inode) ∙ f),
              ))
        | inr f ↦
            let taken : make_directory t parent name max_entries ≡ (t, none) =
              make_directory_again t parent name max_entries inode e ∙ rw f refl in
            rw taken (inl (nothing-Kept t))
      ]
    ]
