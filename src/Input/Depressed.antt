-- ===== src/Input/Depressed.antt =====
-- `DepressedKeys` of src/input/actor.rs: the lists of held keys.
pub mod Laws
use mathlib.Core.List.{reverse}
use hypr_rdp.Base.{
  ℕ, Bool, true, false, not, ◌&&◌, List, [], ◌∷◌, ◌++◌, length, ◌==◌, if◌then◌else◌,
}

unfoldable pub contains : List ℕ → ℕ → Bool
contains [] k = false
contains (x ∷ xs) k = if x == k then true else contains xs k

-- `retain(|&key| key != k)`.
unfoldable pub without : List ℕ → ℕ → List ℕ
without [] k = []
without (x ∷ xs) k = if x == k then without xs k else x ∷ without xs k

-- `push` at the end, unless it is there.
unfoldable pub push_new : List ℕ → ℕ → List ℕ
unfolding contains
push_new xs k = if contains xs k then xs else xs ++ (k ∷ [])

abbrev pub is_empty : List ℕ → Bool
is_empty [] = true
is_empty (_ ∷ _) = false

pub record DepressedKeys : Type 0 where
  pub plain : List ℕ
  pub modifiers : List ℕ
  pub unicode_shift_owners : List ℕ

abbrev pub no_keys : DepressedKeys
no_keys = record { plain = []; modifiers = []; unicode_shift_owners = [] }

unfoldable pub nothing_held : DepressedKeys → Bool
nothing_held d = is_empty d.plain && is_empty d.modifiers && is_empty d.unicode_shift_owners

unfoldable pub holds_modifier : DepressedKeys → ℕ → Bool
holds_modifier d k = contains d.modifiers k

unfoldable pub press_unicode_shift : DepressedKeys → ℕ → DepressedKeys
press_unicode_shift d code_point = record d {
  unicode_shift_owners = push_new d.unicode_shift_owners code_point;
}

unfoldable pub release_unicode_shift : DepressedKeys → ℕ → DepressedKeys × Bool
release_unicode_shift d code_point =
    let owners = without d.unicode_shift_owners code_point in
    (
      record d { unicode_shift_owners = owners },
      not (length owners == length d.unicode_shift_owners),
    )

unfoldable pub press : DepressedKeys → ℕ → Bool → DepressedKeys
press d k true = record d { modifiers = push_new d.modifiers k }
press d k false = record d { plain = push_new d.plain k }

unfoldable pub release : DepressedKeys → ℕ → Bool → DepressedKeys
release d k true = record d { modifiers = without d.modifiers k }
release d k false = record d { plain = without d.plain k }

-- The keys in the order of release; the two vectors are left empty.
unfoldable pub release_all : DepressedKeys → List ℕ × DepressedKeys
release_all d = (reverse d.plain ++ reverse d.modifiers, record d { plain = []; modifiers = [] })
