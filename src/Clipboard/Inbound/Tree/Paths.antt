-- ===== src/Clipboard/Inbound/Tree/Paths.antt =====
-- The end of src/clipboard/inbound/tree.rs: what a descriptor says, and the names of its path.
use hypr_rdp.Base.{
  ℕ, ◌+◌, ◌-◌, ◌*◌, ◌/◌, ◌%◌, Bool, true, false, not, ◌&&◌, ◌||◌, Option, none, some, List, [], ◌∷◌,
  ◌++◌, ◌==◌, if◌then◌else◌, leb, length,
}

-- The flags of `ClipboardFileAttributes` that are read.
pub record Attributes : Type 0 where
  pub is_directory_flag : Bool
  pub is_read_only_flag : Bool

-- What is read of a descriptor. Its times are counted in 100 nanoseconds.
pub record FileDescriptor : Type 0 where
  pub attributes : Option Attributes
  pub last_write_time : Option ℕ
  pub file_size_field : Option ℕ
  pub file_name : List ℕ
  pub relative_path : Option (List ℕ)

-- `system_time`: no time of 64 bits is out of range.
unfoldable pub system_time : Option ℕ → Option ℕ
system_time none = none
system_time (some filetime) =
    some (filetime % 10_000_000 * 100 + filetime / 10_000_000 * 1_000_000_000)

-- `==` of two names.
abbrev pub same_name : List ℕ → List ℕ → Bool
same_name [] [] = true
same_name [] (b ∷ ys) = false
same_name (a ∷ xs) [] = false
same_name (a ∷ xs) (b ∷ ys) = a == b && same_name xs ys

abbrev pub is_separator : ℕ → Bool
is_separator c = c == b'/' || c == b'\\'

abbrev pub onto_first : ℕ → List (List ℕ) → List (List ℕ)
onto_first c [] = (c ∷ []) ∷ []
onto_first c (part ∷ parts) = (c ∷ part) ∷ parts

-- `split(['\\', '/'])`.
abbrev pub split : List ℕ → List (List ℕ)
split [] = [] ∷ []
split (c ∷ cs) = let rest = split cs in if is_separator c then [] ∷ rest else onto_first c rest

abbrev pub non_empty : List (List ℕ) → List (List ℕ)
non_empty [] = []
non_empty ([] ∷ parts) = non_empty parts
non_empty ((c ∷ cs) ∷ parts) = (c ∷ cs) ∷ non_empty parts

abbrev pub contains_nul : List ℕ → Bool
contains_nul [] = false
contains_nul (c ∷ cs) = c == 0 || contains_nul cs

abbrev pub is_usable : List ℕ → Bool
is_usable component =
    not (same_name component (b'.' ∷ []))
    && (not (same_name component (b'.' ∷ (b'.' ∷ []))) && not (contains_nul component))

abbrev pub all_usable : List (List ℕ) → Bool
all_usable [] = true
all_usable (component ∷ components) = is_usable component && all_usable components

abbrev pub is_nil : List (List ℕ) → Bool
is_nil [] = true
is_nil (_ ∷ _) = false

abbrev pub path_or_empty : Option (List ℕ) → List ℕ
path_or_empty none = []
path_or_empty (some path) = path

abbrev pub max_directory_depth : ℕ
max_directory_depth = 128

unfoldable pub path_components : FileDescriptor → Option (List (List ℕ))
path_components f =
    let components = non_empty (split (path_or_empty f.relative_path) ++ split f.file_name) in
    if not (is_nil components)
      && (leb (length components - 1) max_directory_depth && all_usable components)
    then some components
    else none

-- `split_last`: what comes before the last, and the last.
abbrev pub onto_parents : List ℕ → Option (List (List ℕ) × List ℕ) → Option (List (List ℕ) × List ℕ)
onto_parents part none = some ([], part)
onto_parents part (some (parents, leaf)) = some (part ∷ parents, leaf)

unfoldable pub split_last : List (List ℕ) → Option (List (List ℕ) × List ℕ)
split_last [] = none
split_last (part ∷ parts) = onto_parents part (split_last parts)

abbrev pub is_directory : FileDescriptor → Bool
is_directory f = elim f.attributes [ none ↦ false | some a ↦ a.is_directory_flag ]

abbrev pub is_read_only : FileDescriptor → Bool
is_read_only f = elim f.attributes [ none ↦ false | some a ↦ a.is_read_only_flag ]

abbrev pub file_size : FileDescriptor → Option ℕ
file_size f = if is_directory f then some 0 else f.file_size_field
