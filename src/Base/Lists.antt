-- ===== src/Base/Lists.antt =====
-- Lists measured and indexed by native numbers, under the library's names, and predicates on them.
use Prim.Native.Nat.{ℕ, zero, suc, ◌+◌, ◌<◌}
use mathlib.Core.Path.{◌≡◌, refl, ap}
use mathlib.Core.Logic.{◌⊎◌, inl, inr}
use mathlib.Core.List.{List, [], ◌∷◌, ◌++◌}
use mathlib.Core.Option.{Option, none, some}
use native.Mathlib.Omega.{arith}

module _ {ℓ} {A : Type ℓ} where
  abbrev pub length : List A → ℕ
  length [] = 0
  length (x ∷ xs) = suc (length xs)

  abbrev pub get_elem? : List A → ℕ → Option A
  get_elem? [] i = none
  get_elem? (x ∷ xs) zero = some x
  get_elem? (x ∷ xs) (suc i) = get_elem? xs i

  abbrev pub get_or : List A → ℕ → A → A
  get_or [] i d = d
  get_or (x ∷ xs) zero d = x
  get_or (x ∷ xs) (suc i) d = get_or xs i d

  abbrev pub take : ℕ → List A → List A
  take zero xs = []
  take (suc n) [] = []
  take (suc n) (x ∷ xs) = x ∷ take n xs

  abbrev pub drop : ℕ → List A → List A
  drop zero xs = xs
  drop (suc n) [] = []
  drop (suc n) (x ∷ xs) = drop n xs

  pub length-append : (xs ys : List A) → length (xs ++ ys) ≡ length xs + length ys
  length-append [] ys = omega arith
  length-append (x ∷ xs) ys = omega (arith, length-append xs ys)

  pub get_elem?-take : (xs : List A) (n i : ℕ) → i < n → get_elem? (take n xs) i ≡ get_elem? xs i
  get_elem?-take xs zero i h = elim h [ ]
  get_elem?-take [] (suc n) i h = refl
  get_elem?-take (x ∷ xs) (suc n) zero h = refl
  get_elem?-take (x ∷ xs) (suc n) (suc i) h = get_elem?-take xs n i (omega arith)

  pub get_elem?-drop :
      (xs : List A) (n i k : ℕ) → n + i ≡ k → get_elem? (drop n xs) i ≡ get_elem? xs k
  get_elem?-drop xs zero i k h = let e : i ≡ k = omega arith in rw e
  get_elem?-drop [] (suc n) i k h = refl
  get_elem?-drop (x ∷ xs) (suc n) i zero h = absurd (omega arith)
  get_elem?-drop (x ∷ xs) (suc n) i (suc k) h = get_elem?-drop xs n i k (omega arith)

  pub take-suc :
      (k : ℕ) (xs : List A) (x : A)
      → get_elem? xs k ≡ some x
      → take (suc k) xs ≡ take k xs ++ (x ∷ [])
  take-suc zero [] x h = cc
  take-suc zero (y ∷ xs) x h = cc
  take-suc (suc k) [] x h = cc
  take-suc (suc k) (y ∷ xs) x h = cc (take-suc k xs x h)

  pub drop-suc :
      (k : ℕ) (xs : List A) (x : A) → get_elem? xs k ≡ some x → drop k xs ≡ x ∷ drop (suc k) xs
  drop-suc zero [] x h = cc
  drop-suc zero (y ∷ xs) x h = cc
  drop-suc (suc k) [] x h = cc
  drop-suc (suc k) (y ∷ xs) x h = drop-suc k xs x h

  pub get_elem?-lt : (xs : List A) (k : ℕ) (x : A) → get_elem? xs k ≡ some x → k < length xs
  get_elem?-lt [] k x h = cc
  get_elem?-lt (y ∷ xs) zero x h = omega arith
  get_elem?-lt (y ∷ xs) (suc k) x h = omega (arith, get_elem?-lt xs k x h)

  -- A list with one more element at its end.
  pub get_elem?-append_left :
      (xs ys : List A) (k : ℕ) (x : A) → get_elem? xs k ≡ some x → get_elem? (xs ++ ys) k ≡ some x
  get_elem?-append_left [] ys k x h = cc
  get_elem?-append_left (y ∷ xs) ys zero x h = h
  get_elem?-append_left (y ∷ xs) ys (suc k) x h = get_elem?-append_left xs ys k x h

  pub get_elem?-append_last :
      (xs : List A) (y : A) → get_elem? (xs ++ (y ∷ [])) (length xs) ≡ some y
  get_elem?-append_last [] y = refl
  get_elem?-append_last (x ∷ xs) y = get_elem?-append_last xs y

  pub get_elem?-append_cases :
      (xs : List A) (y : A) (k : ℕ) (z : A)
      → get_elem? (xs ++ (y ∷ [])) k ≡ some z
      → (get_elem? xs k ≡ some z) ⊎ ((k ≡ length xs) × (z ≡ y))
  get_elem?-append_cases [] y zero z h = inr (refl, cc)
  get_elem?-append_cases [] y (suc k) z h = cc
  get_elem?-append_cases (x ∷ xs) y zero z h = inl h
  get_elem?-append_cases (x ∷ xs) y (suc k) z h = elim (get_elem?-append_cases xs y k z h) [
    | inl e ↦ inl e
    | inr (e, f) ↦ inr (ap suc e, f)
  ]

  pub drop_end : (k : ℕ) (xs : List A) → get_elem? xs k ≡ none → drop k xs ≡ []
  drop_end zero [] h = refl
  drop_end zero (x ∷ xs) h = cc
  drop_end (suc k) [] h = refl
  drop_end (suc k) (x ∷ xs) h = drop_end k xs h

  pub take-append-drop : (k : ℕ) (xs : List A) → take k xs ++ drop k xs ≡ xs
  take-append-drop zero xs = refl
  take-append-drop (suc k) [] = refl
  take-append-drop (suc k) (x ∷ xs) = cc (take-append-drop k xs)

  pub drop-drop : (s k n : ℕ) (xs : List A) → s + k ≡ n → drop k (drop s xs) ≡ drop n xs
  drop-drop zero k n xs h = let e : k ≡ n = omega arith in rw e
  drop-drop (suc s) zero n [] h = drop_nil n
    where
      drop_nil : (m : ℕ) → ◌≡◌ {A = List A} [] (drop m [])
      drop_nil zero = refl
      drop_nil (suc m) = refl
  drop-drop (suc s) (suc k) zero [] h = refl
  drop-drop (suc s) (suc k) (suc n) [] h = refl
  drop-drop (suc s) k zero (x ∷ xs) h = absurd (omega arith)
  drop-drop (suc s) k (suc n) (x ∷ xs) h = drop-drop s k n xs (omega arith)

-- A predicate by recursion computes to tuples, which the tactics read and build.
abbrev pub All {ℓ κ} : {A : Type ℓ} → (A → Type κ) → List A → Type κ
All P [] = Unit
All P (x ∷ xs) = P x × All P xs

pub All-append {ℓ κ} :
    {A : Type ℓ} (P : A → Type κ) (xs ys : List A) → All P xs → All P ys → All P (xs ++ ys)
All-append P [] ys hx hy = hy
All-append P (x ∷ xs) ys hx hy = (hx.0, All-append P xs ys hx.1 hy)
