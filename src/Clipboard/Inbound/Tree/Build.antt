-- ===== src/Clipboard/Inbound/Tree/Build.antt =====
-- The loops of `RemoteTree::build` in src/clipboard/inbound/tree.rs keep the tree sound.
use hypr_rdp.Base.{
  ℕ, suc, ◌+◌, ◌≤◌, ◌≡◌, refl, true, ◌||◌, Option, some, List, [], ◌∷◌, arith, get_elem?,
  get_elem?-lt, ltb, leb, u64_max, Bool-cases, Option-cases, inl, inr, ap, ◌∙◌, All,
}
use hypr_rdp.Base.Int.{i32_max}
use hypr_rdp.Clipboard.Inbound.Tree.{
  is_dir, RemoteTree, root_inode, is_full, rooted, synthesized_directory,
}
use hypr_rdp.Clipboard.Inbound.Tree.Entries.{
  build, reach, add_file, add_files, entry_of, insert, make_directory,
}
use hypr_rdp.Clipboard.Inbound.Tree.Paths.{
  FileDescriptor, is_directory, path_components, split_last,
}
use hypr_rdp.Clipboard.Inbound.Tree.Names.{IsName, path_components-IsName, split_last-IsName}
use hypr_rdp.Clipboard.Inbound.Tree.Skeleton.{
  Shape, skeleton, is_dir_at, kind_at, pushed, Outcome, entry_shape, length-shapes_of,
}
use hypr_rdp.Clipboard.Inbound.Tree.Insertion.{insert-Outcome, make_directory-Outcome}
use hypr_rdp.Clipboard.Inbound.Tree.Sandbox.{
  IsSource, IsSound, IsSound-pushed, dir_at-new, root_shape,
}

kind_at-root :
    (shapes : List Shape) → get_elem? shapes 0 ≡ some root_shape → kind_at shapes 0 ≡ true
kind_at-root [] e = cc
kind_at-root (sh ∷ shapes) e = let same : sh ≡ root_shape = cc in rw same refl

module _ (files : List FileDescriptor) (max_entries : ℕ) where
  -- A sound tree, and any inode that is returned is a directory of it.
  abbrev SoundAt : RemoteTree × Option ℕ → Type 0
  SoundAt r =
      IsSound files max_entries (skeleton r.0)
      × ((i : ℕ) → r.1 ≡ some i → is_dir_at (skeleton r.0) i ≡ true)

  Outcome-IsSound :
      (t : RemoteTree) (sh : Shape) (r : RemoteTree × Option ℕ)
      → Outcome t sh max_entries r
      → IsSound files max_entries (skeleton t)
      → IsName sh.shape_name
      → is_dir_at (skeleton t) sh.shape_parent ≡ true
      → IsSource files sh.shape_kind sh.shape_name
      → IsSound files max_entries (skeleton r.0)
  Outcome-IsSound t sh r (inl kept) i name dir source = rw kept.0 i
  Outcome-IsSound t sh r (inr grown) i name dir source = rw grown.3.0 (
      IsSound-pushed files max_entries (skeleton t) sh i (record {
        fits_name = name;
        fits_directory = dir;
        fits_source = source;
        fits_free = grown.0;
        fits_room = rw (length-shapes_of t.nodes) grown.1;
        fits_range = rw (length-shapes_of t.nodes) grown.2;
      }))

  Outcome-directory :
      (t : RemoteTree) (sh : Shape) (r : RemoteTree × Option ℕ) (inode : ℕ)
      → Outcome t sh max_entries r
      → IsSound files max_entries (skeleton t)
      → is_dir sh.shape_kind ≡ true
      → r.1 ≡ some inode
      → is_dir_at (skeleton r.0) inode ≡ true
  Outcome-directory t sh r inode (inl kept) i d e =
      ap (λ s. is_dir_at s inode) kept.0 ∙ kept.1 inode e
  Outcome-directory t sh r inode (inr grown) i d e =
      let some_root = get_elem?-lt (skeleton t).shapes 0 root_shape i.has_root in
      ap (λ s. is_dir_at s inode) grown.3.0
      ∙ ap (is_dir_at (pushed (skeleton t) sh)) (grown.3.1 inode e)
      ∙ dir_at-new (skeleton t) sh i.above_root some_root (rw (length-shapes_of t.nodes) grown.2)
      ∙ d

  reach-SoundAt :
      (parents : List (List ℕ)) (t : RemoteTree) (parent : ℕ)
      → IsSound files max_entries (skeleton t)
      → All IsName parents
      → is_dir_at (skeleton t) parent ≡ true
      → SoundAt (reach t parent parents max_entries)
  unfolding reach
  reach-SoundAt [] t parent i names d = (i, λ inode e. let same : inode ≡ parent = cc in rw same d)
  reach-SoundAt (name ∷ parents) t parent i names d =
      let step = make_directory t parent name max_entries in
      let out = make_directory-Outcome t parent name max_entries in
      let sound =
        Outcome-IsSound t (entry_shape parent name synthesized_directory) step out i names.0 d tt in
      elim (Option-cases step.1) [
        | inl e ↦ rw (e, reach) (sound, λ inode f. cc)
        | inr (inode, e) ↦
            rw (e, reach)
              (reach-SoundAt parents step.0 inode sound names.1 (
                Outcome-directory t (entry_shape parent name synthesized_directory) step inode out i
                  refl e))
      ]

  entry_of-IsSource :
      (f : FileDescriptor) (components parents : List (List ℕ)) (leaf : List ℕ) (index : ℕ)
      → get_elem? files index ≡ some f
      → path_components f ≡ some components
      → split_last components ≡ some (parents, leaf)
      → IsSource files (entry_of index f).entry_kind leaf
  entry_of-IsSource f components parents leaf index at path last =
      elim (Bool-cases (is_directory f)) [
        | inl e ↦ rw e tt
        | inr e ↦ rw e (f, components, parents, at, path, last)
      ]

  pub root_is_directory :
      (t : RemoteTree)
      → IsSound files max_entries (skeleton t)
      → is_dir_at (skeleton t) root_inode ≡ true
  root_is_directory t i = kind_at-root (skeleton t).shapes i.has_root

  add_file-IsSound :
      (t : RemoteTree) (index : ℕ) (f : FileDescriptor)
      → IsSound files max_entries (skeleton t)
      → get_elem? files index ≡ some f
      → IsSound files max_entries (skeleton (add_file t max_entries index f))
  unfolding add_file
  add_file-IsSound t index f i at = elim (Option-cases (path_components f)) [
    | inl e ↦ rw (e, add_file) i
    | inr (components, e) ↦ elim (Option-cases (split_last components)) [
      | inl g ↦ rw (e, g, add_file) i
      | inr ((parents, leaf), g) ↦
          let names =
            split_last-IsName components parents leaf (path_components-IsName f components e) g in
          let reached = reach t root_inode parents max_entries in
          let there = reach-SoundAt parents t root_inode i names.0 (root_is_directory t i) in
          elim (Option-cases reached.1) [
            | inl o ↦ rw (e, g, o, add_file) there.0
            | inr (parent, o) ↦
                rw (e, g, o, add_file)
                  (Outcome-IsSound reached.0 (entry_shape parent leaf (entry_of index f))
                    (insert reached.0 parent leaf (entry_of index f) max_entries)
                    (insert-Outcome reached.0 parent leaf (entry_of index f) max_entries) there.0
                    names.1 (there.1 parent o)
                    (entry_of-IsSource f components parents leaf index at e g))
          ]
    ]
  ]

  add_files-IsSound :
      (rest : List FileDescriptor) (t : RemoteTree) (index : ℕ)
      → IsSound files max_entries (skeleton t)
      → ((j k : ℕ) (f : FileDescriptor)
          → index + j ≡ k
          → get_elem? rest j ≡ some f
          → get_elem? files k ≡ some f)
      → IsSound files max_entries (skeleton (add_files t max_entries index rest))
  unfolding add_files
  add_files-IsSound [] t index i tail = i
  add_files-IsSound (f ∷ rest) t index i tail =
      let one = add_file-IsSound t index f i (tail 0 index f (omega arith) refl) in
      let all =
        add_files-IsSound rest (add_file t max_entries index f) (index + 1) one
          (λ j k g h e. tail (suc j) k g (omega arith) e) in
      elim (Bool-cases (is_full t max_entries || leb max_entries index)) [
        | inl e ↦ rw (e, add_files) i
        | inr e ↦ elim (Bool-cases (ltb i32_max index)) [
          | inl g ↦ rw (e, g, add_files) i
          | inr g ↦ rw (e, g, add_files) all
        ]
      ]

  rooted-IsSound :
      (base built_at : ℕ)
      → 2 ≤ base
      → base ≤ u64_max
      → IsSound files max_entries (skeleton (rooted base built_at))
  unfolding rooted
  rooted-IsSound base built_at above range = record {
    above_root = above;
    in_range = omega arith;
    has_root = refl;
    bounded = omega arith;
    placed = λ k sh e. cc;
    named = λ parent name inode e. cc;
  }

  pub build-IsSound :
      (base built_at : ℕ)
      → 2 ≤ base
      → base ≤ u64_max
      → IsSound files max_entries (skeleton (build files max_entries base built_at))
  unfolding build
  build-IsSound base built_at above range =
      add_files-IsSound files (rooted base built_at) 0 (rooted-IsSound base built_at above range)
        (λ j k f h e. let same : j ≡ k = omega arith in rw (← same) e)
