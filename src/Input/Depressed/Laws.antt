-- ===== src/Input/Depressed/Laws.antt =====
-- The lists of held keys of src/input/actor.rs, seen as sets.
use mathlib.Core.List.{reverse, reverse-cons}
use hypr_rdp.Base.{
  ℕ, suc, ◌+◌, ◌≤◌, ◌≡◌, refl, true, false, List, [], ◌∷◌, ◌++◌, length, ◌==◌, if◌then◌else◌, arith,
}
use hypr_rdp.Input.Depressed.{contains, without, push_new, is_empty}

pub contains-append :
    (xs ys : List ℕ) (k : ℕ)
    → contains (xs ++ ys) k ≡ (if contains xs k then true else contains ys k)
unfolding contains
contains-append [] ys k = refl
contains-append (x ∷ xs) ys k = ground (arith, contains-append xs ys k)

pub contains-reverse : (xs : List ℕ) (k : ℕ) → contains (reverse xs) k ≡ contains xs k
unfolding contains
contains-reverse [] k = refl
contains-reverse (x ∷ xs) k =
    rw (reverse-cons x xs, contains-append (reverse xs) (x ∷ []) k)
      (ground (arith, contains-reverse xs k))

pub contains-push_new :
    (xs : List ℕ) (j k : ℕ) → contains (push_new xs j) k ≡ (if j == k then true else contains xs k)
unfolding push_new
contains-push_new xs j k = ground (arith, contains-append xs (j ∷ []) k, contains_one j k)
  where
    contains_one : (j k : ℕ) → contains (j ∷ []) k ≡ (if j == k then true else false)
    contains_one j k = refl

pub contains-without :
    (xs : List ℕ) (j k : ℕ) → contains (without xs j) k ≡ (if j == k then false else contains xs k)
unfolding contains without
contains-without [] j k = ground arith
contains-without (x ∷ xs) j k = ground (arith, contains-without xs j k)

pub is_empty-push_new : (xs : List ℕ) (k : ℕ) → is_empty (push_new xs k) ≡ false
unfolding push_new contains
is_empty-push_new [] k = refl
is_empty-push_new (x ∷ xs) k = ground arith

-- `without` leaves a list of the same length only if it removes nothing.
length-without-le : (xs : List ℕ) (k : ℕ) → length (without xs k) ≤ length xs
unfolding without
length-without-le [] k = omega arith
length-without-le (x ∷ xs) k = ground (arith, length-without-le xs k)

pub is_empty_by_length : (xs ys : List ℕ) → length xs ≡ length ys → is_empty xs ≡ is_empty ys
is_empty_by_length [] [] h = refl
is_empty_by_length [] (y ∷ ys) h = absurd (omega arith)
is_empty_by_length (x ∷ xs) [] h = absurd (omega arith)
is_empty_by_length (x ∷ xs) (y ∷ ys) h = refl

pub length-without_empty :
    (xs : List ℕ) (k : ℕ) → is_empty xs ≡ true → length (without xs k) ≡ length xs
unfolding without
length-without_empty [] k h = refl
length-without_empty (x ∷ xs) k h = cc

-- How often a key stands in a list.
abbrev pub count : ℕ → List ℕ → ℕ
count k [] = 0
count k (x ∷ xs) = if x == k then suc (count k xs) else count k xs

pub count-append : (k : ℕ) (xs ys : List ℕ) → count k (xs ++ ys) ≡ count k xs + count k ys
count-append k [] ys = omega arith
count-append k (x ∷ xs) ys = ground (arith, count-append k xs ys)

pub count-reverse : (k : ℕ) (xs : List ℕ) → count k (reverse xs) ≡ count k xs
count-reverse k [] = refl
count-reverse k (x ∷ xs) =
    rw (reverse-cons x xs, count-append k (reverse xs) (x ∷ []))
      (ground (arith, count-reverse k xs))

pub count-contains : (k : ℕ) (xs : List ℕ) → contains xs k ≡ false → count k xs ≡ 0
unfolding contains
count-contains k [] h = refl
count-contains k (x ∷ xs) h = ground (arith, count-contains k xs)

pub contains-count : (k : ℕ) (xs : List ℕ) → contains xs k ≡ true → 1 ≤ count k xs
unfolding contains
contains-count k [] h = cc
contains-count k (x ∷ xs) h = ground (arith, contains-count k xs)

pub count-push_new : (k j : ℕ) (xs : List ℕ) → count k xs ≤ 1 → count k (push_new xs j) ≤ 1
unfolding push_new
count-push_new k j xs h = ground (arith, count-append k xs (j ∷ []), count-contains k xs)

pub count-without-le : (k j : ℕ) (xs : List ℕ) → count k (without xs j) ≤ count k xs
unfolding without
count-without-le k j [] = omega arith
count-without-le k j (x ∷ xs) = ground (arith, count-without-le k j xs)
