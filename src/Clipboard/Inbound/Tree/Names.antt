-- ===== src/Clipboard/Inbound/Tree/Names.antt =====
-- The names of a path, as path_components of src/clipboard/inbound/tree.rs lets them through.
use hypr_rdp.Base.{
  ℕ, ◌≡◌, refl, ◌≢◌, true, false, Option, none, some, List, [], ◌∷◌, ◌++◌, arith, All, All-append,
  Bool-cases, Option-cases, inl, inr, subst, sym,
}
use hypr_rdp.Clipboard.Inbound.Tree.Paths.{
  FileDescriptor, same_name, is_separator, onto_first, split, non_empty, contains_nul, is_usable,
  all_usable, path_components, path_or_empty, split_last,
}

pub same_name_refl : (xs : List ℕ) → same_name xs xs ≡ true
same_name_refl [] = refl
same_name_refl (x ∷ xs) = let rest = same_name_refl xs in ground arith

pub same_name→≡ : (xs ys : List ℕ) → same_name xs ys ≡ true → xs ≡ ys
same_name→≡ [] [] h = refl
same_name→≡ [] (y ∷ ys) h = cc
same_name→≡ (x ∷ xs) [] h = cc
same_name→≡ (x ∷ xs) (y ∷ ys) h =
    let parts : (x ≡ y) × (same_name xs ys ≡ true) = ground arith in
    let rest = same_name→≡ xs ys parts.1 in cc

-- A byte that neither separates names nor ends them.
abbrev pub IsNameByte : ℕ → Type 0
IsNameByte c = (c ≢ b'/') × (c ≢ b'\\') × (c ≢ 0)

-- A name that stays where it is put: not empty, no way to the directory itself or to the one above.
abbrev pub IsName : List ℕ → Type 0
IsName name = (name ≢ []) × (name ≢ b'.' ∷ []) × (name ≢ b'.' ∷ (b'.' ∷ [])) × All IsNameByte name

abbrev NoSeparator : List ℕ → Type 0
NoSeparator part = All (λ c. is_separator c ≡ false) part

split-NoSeparator : (path : List ℕ) → All NoSeparator (split path)
split-NoSeparator [] = (tt, tt)
split-NoSeparator (c ∷ path) =
    let rest = split-NoSeparator path in
    elim (Bool-cases (is_separator c)) [
      | inl e ↦ rw e (tt, rest)
      | inr e ↦ rw e (onto c e (split path) rest)
    ]
  where
    onto :
        (c : ℕ)
        → is_separator c ≡ false
        → (parts : List (List ℕ)) → All NoSeparator parts
        → All NoSeparator (onto_first c parts)
    onto c e [] h = ((e, tt), tt)
    onto c e (part ∷ parts) h = ((e, h.0), h.1)

abbrev IsPart : List ℕ → Type 0
IsPart part = (part ≢ []) × NoSeparator part

non_empty-IsPart : (parts : List (List ℕ)) → All NoSeparator parts → All IsPart (non_empty parts)
non_empty-IsPart [] h = tt
non_empty-IsPart ([] ∷ parts) h = non_empty-IsPart parts h.1
non_empty-IsPart ((c ∷ cs) ∷ parts) h = ((λ e. cc, h.0), non_empty-IsPart parts h.1)

name_bytes : (part : List ℕ) → NoSeparator part → contains_nul part ≡ false → All IsNameByte part
name_bytes [] h n = tt
name_bytes (c ∷ part) h n =
    let split_nul : (c ≢ 0) × (contains_nul part ≡ false) = ground arith in
    let split_sep : (c ≢ b'/') × (c ≢ b'\\') = let p = h.0 in ground arith in
    ((split_sep.0, split_sep.1, split_nul.0), name_bytes part h.1 split_nul.1)

usable-IsName : (part : List ℕ) → IsPart part → is_usable part ≡ true → IsName part
usable-IsName part h u =
    let one = same_name_refl (b'.' ∷ []) in
    let two = same_name_refl (b'.' ∷ (b'.' ∷ [])) in
    let tests : (same_name part (b'.' ∷ []) ≡ false)
        × (same_name part (b'.' ∷ (b'.' ∷ [])) ≡ false)
        × (contains_nul part ≡ false) =
      ground arith in
    (h.0, λ e. cc, λ e. cc, name_bytes part h.1 tests.2)

all_usable-IsName :
    (parts : List (List ℕ)) → All IsPart parts → all_usable parts ≡ true → All IsName parts
all_usable-IsName [] h u = tt
all_usable-IsName (part ∷ parts) h u =
    let both : (is_usable part ≡ true) × (all_usable parts ≡ true) = ground arith in
    (usable-IsName part h.0 both.0, all_usable-IsName parts h.1 both.1)

pub path_components-IsName :
    (f : FileDescriptor) (components : List (List ℕ))
    → path_components f ≡ some components
    → All IsName components
unfolding path_components
path_components-IsName f components e =
    let path = path_or_empty f.relative_path in
    let all = non_empty (split path ++ split f.file_name) in
    let passed : (all ≡ components) × (all_usable all ≡ true) = ground arith in
    let parts = non_empty-IsPart (split path ++ split f.file_name) (
      All-append NoSeparator (split path) (split f.file_name) (split-NoSeparator path)
        (split-NoSeparator f.file_name)) in
    rw (← passed.0) (all_usable-IsName all parts passed.1)

-- A `split_last` is the list's last element, and what comes before it.
split_last-append :
    (components parents : List (List ℕ)) (leaf : List ℕ)
    → split_last components ≡ some (parents, leaf)
    → components ≡ parents ++ (leaf ∷ [])
unfolding split_last
split_last-append [] parents leaf e = cc
split_last-append (part ∷ parts) parents leaf e = elim (Option-cases (split_last parts)) [
  | inl f ↦
      let none_after : parts ≡ [] = only_empty parts f in
      let same : ◌≡◌ {A = Option (List (List ℕ) × List ℕ)} (some ([], part))
          (some (parents, leaf)) =
        rw f at e in
      let first : [] ≡ parents = cc in
      let last : part ≡ leaf = cc in rw (none_after, ← first, ← last) refl
  | inr ((ps, l), f) ↦
      let rest = split_last-append parts ps l f in
      let same : ◌≡◌ {A = Option (List (List ℕ) × List ℕ)} (some (part ∷ ps, l))
          (some (parents, leaf)) =
        rw f at e in
      let first : part ∷ ps ≡ parents = cc in
      let last : l ≡ leaf = cc in rw (rest, ← first, ← last) refl
]
  where
    some_none : {a : List (List ℕ) × List ℕ} → none ≢ some a
    some_none e = cc

    only_empty : (parts : List (List ℕ)) → split_last parts ≡ none → parts ≡ []
    only_empty [] f = refl
    only_empty (p ∷ ps) f = elim (Option-cases (split_last ps)) [
      | inl g ↦ absurd (some_none (sym (rw g at f)))
      | inr (o, g) ↦ absurd (some_none (sym (rw g at f)))
    ]

All-last :
    (parents : List (List ℕ)) (leaf : List ℕ)
    → All IsName (parents ++ (leaf ∷ []))
    → All IsName parents × IsName leaf
All-last [] leaf h = (tt, h.0)
All-last (part ∷ parents) leaf h = let rest = All-last parents leaf h.1 in ((h.0, rest.0), rest.1)

pub split_last-IsName :
    (components parents : List (List ℕ)) (leaf : List ℕ)
    → All IsName components
    → split_last components ≡ some (parents, leaf)
    → All IsName parents × IsName leaf
split_last-IsName components parents leaf h e =
    All-last parents leaf (subst (All IsName) (split_last-append components parents leaf e) h)
