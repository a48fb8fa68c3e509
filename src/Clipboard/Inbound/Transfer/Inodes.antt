-- ===== src/Clipboard/Inbound/Transfer/Inodes.antt =====
-- The inodes of the selections of src/clipboard/inbound/transfer.rs: no two own one.
use hypr_rdp.Base.{
  ℕ, suc, ◌+◌, ◌≤◌, ◌<◌, max, ◌≡◌, refl, false, List, [], ◌∷◌, ◌++◌, ◌==◌, arith, length, ltb,
  u64_max, Bool-cases, inl, inr, ◌⊎◌, ap, All, All-append,
}
use hypr_rdp.Clipboard.Inbound.Tree.{entries, next_base}
use hypr_rdp.Clipboard.Inbound.Transfer.Selections.{
  Selection, State, insert_retired, remove_retired, trim, max_retiring,
}

-- The inodes of a selection's nodes are those from the first one to before the end.
abbrev pub first_of : Selection → ℕ
first_of sel = sel.tree.base

abbrev pub end_of : Selection → ℕ
end_of sel = sel.tree.base + entries sel.tree

-- An older selection, and a newer one, which has no inodes or has them after the older one's.
abbrev pub Before : ℕ × Selection → Selection → Type 0
Before x sel = (entries sel.tree ≡ 0) ⊎ (end_of x.1 ≤ first_of sel)

abbrev pub Older : ℕ × Selection → ℕ × Selection → Type 0
Older x y = (x.0 < y.0) × Before x y.1

abbrev pub Pairwise : List (ℕ × Selection) → Type 0
Pairwise [] = Unit
Pairwise (x ∷ xs) = All (Older x) xs × Pairwise xs

abbrev pub Under : (generation base : ℕ) → ℕ × Selection → Type 0
Under generation base x = (x.0 < generation) × (end_of x.1 ≤ base)

-- The retired selections in the order of their generations, then the current one. `base` is where the
-- next tree starts.
pub record IsOrderly (generation base : ℕ) (current : Selection) (retiring : List (ℕ × Selection))
    : Type 0 where
  pub apart : Pairwise retiring
  pub older : All (Under generation base) retiring
  pub newest : All (λ x. Before x current) retiring
  pub counted : (entries current.tree ≡ 0) ⊎ (end_of current ≤ base)
  pub few : length retiring ≤ max_retiring

abbrev pub Orderly : {F : Type 0} → State F → Type 0
Orderly s = IsOrderly s.generation s.base_after s.current s.retiring

pub All-map {ℓ κ μ} :
    {A : Type ℓ} (P : A → Type κ) (Q : A → Type μ) (xs : List A)
    → ((x : A) → P x → Q x)
    → All P xs
    → All Q xs
All-map P Q [] f h = tt
All-map P Q (x ∷ xs) f h = (f x h.0, All-map P Q xs f h.1)

All-zip {ℓ κ μ ν} :
    {A : Type ℓ} (P : A → Type κ) (Q : A → Type μ) (R : A → Type ν) (xs : List A)
    → ((x : A) → P x → Q x → R x)
    → All P xs
    → All Q xs
    → All R xs
All-zip P Q R [] f h k = tt
All-zip P Q R (x ∷ xs) f h k = (f x h.0 k.0, All-zip P Q R xs f h.1 k.1)

insert_retired-append :
    (xs : List (ℕ × Selection)) (g base : ℕ) (sel : Selection)
    → All (Under g base) xs
    → insert_retired xs g sel ≡ xs ++ ((g, sel) ∷ [])
insert_retired-append [] g base sel h = refl
insert_retired-append ((k, old) ∷ xs) g base sel h =
    let rest = insert_retired-append xs g base sel h.1 in
    let below = h.0.0 in
    let f : ltb g k ≡ false = ground arith in
    let n : (g == k) ≡ false = ground arith in rw (f, n) (ap (λ r. (k, old) ∷ r) rest)

Pairwise-append :
    (xs : List (ℕ × Selection)) (y : ℕ × Selection)
    → Pairwise xs
    → All (λ x. Older x y) xs
    → Pairwise (xs ++ (y ∷ []))
Pairwise-append [] y p h = (tt, tt)
Pairwise-append (x ∷ xs) y p h =
    (All-append (Older x) xs (y ∷ []) p.0 (h.0, tt), Pairwise-append xs y p.1 h.1)

-- What trimming leaves of a list.
pub trim-All {κ} :
    (P : ℕ × Selection → Type κ) (xs : List (ℕ × Selection)) → All P xs → All P (trim xs).1
trim-All P [] h = tt
trim-All P ((k, sel) ∷ xs) h = elim (Bool-cases (ltb max_retiring (suc (length xs)))) [
  | inl e ↦ rw e (trim-All P xs h.1)
  | inr e ↦ rw e h
]

trim-Pairwise : (xs : List (ℕ × Selection)) → Pairwise xs → Pairwise (trim xs).1
trim-Pairwise [] h = tt
trim-Pairwise ((k, sel) ∷ xs) h = elim (Bool-cases (ltb max_retiring (suc (length xs)))) [
  | inl e ↦ rw e (trim-Pairwise xs h.1)
  | inr e ↦ rw e h
]

length-trim : (xs : List (ℕ × Selection)) → length (trim xs).1 ≤ max_retiring
length-trim [] = omega arith
length-trim ((k, sel) ∷ xs) = elim (Bool-cases (ltb max_retiring (suc (length xs)))) [
  | inl e ↦ rw e (length-trim xs)
  | inr e ↦ rw e (ground arith)
]

pub remove-All {κ} :
    (P : ℕ × Selection → Type κ) (xs : List (ℕ × Selection)) (g : ℕ)
    → All P xs
    → All P (remove_retired xs g)
remove-All P [] g h = tt
remove-All P ((k, sel) ∷ xs) g h = elim (Bool-cases (k == g)) [
  | inl e ↦ rw e (remove-All P xs g h.1)
  | inr e ↦ rw e (h.0, remove-All P xs g h.1)
]

pub remove-Pairwise :
    (xs : List (ℕ × Selection)) (g : ℕ) → Pairwise xs → Pairwise (remove_retired xs g)
remove-Pairwise [] g h = tt
remove-Pairwise ((k, sel) ∷ xs) g h = elim (Bool-cases (k == g)) [
  | inl e ↦ rw e (remove-Pairwise xs g h.1)
  | inr e ↦ rw e (remove-All (Older (k, sel)) xs g h.0, remove-Pairwise xs g h.1)
]

pub length-remove : (xs : List (ℕ × Selection)) (g : ℕ) → length (remove_retired xs g) ≤ length xs
length-remove [] g = omega arith
length-remove ((k, sel) ∷ xs) g = let rest = length-remove xs g in ground arith

-- A current selection without inodes.
pub fresh-IsOrderly :
    (g b c : ℕ) (sel new : Selection) (xs : List (ℕ × Selection))
    → b ≤ c
    → entries new.tree ≡ 0
    → IsOrderly g b sel xs
    → IsOrderly g c new xs
fresh-IsOrderly g b c sel new xs h none_there o = record {
  apart = o.apart;
  older = All-map (Under g b) (Under g c) xs (λ x u. (u.0, let v = u.1 in omega arith)) o.older;
  newest = All-map (λ x. Before x sel) (λ x. Before x new) xs (λ x u. inl none_there) o.newest;
  counted = inl none_there;
  few = o.few;
}

pub suc-IsOrderly :
    (g b : ℕ) (sel : Selection) (xs : List (ℕ × Selection))
    → IsOrderly g b sel xs
    → IsOrderly (suc g) b sel xs
suc-IsOrderly g b sel xs o = record {
  apart = o.apart;
  older =
      All-map (Under g b) (Under (suc g) b) xs (λ x u. (let v = u.0 in omega arith, u.1)) o.older;
  newest = o.newest;
  counted = o.counted;
  few = o.few;
}

end_below :
    (sel : Selection) (b : ℕ)
    → max b (next_base sel.tree) < u64_max
    → end_of sel ≤ max b (next_base sel.tree)
unfolding next_base
end_below sel b h = ground arith

-- The current selection is retired, and a fresh one takes its place.
pub retired-IsOrderly :
    (g b : ℕ) (sel new : Selection) (xs : List (ℕ × Selection))
    → max b (next_base sel.tree) < u64_max
    → entries new.tree ≡ 0
    → IsOrderly g b sel xs
    → IsOrderly (suc g) (max b (next_base sel.tree)) new (trim (insert_retired xs g sel)).1
retired-IsOrderly g b sel new xs small none_there o =
    let c = max b (next_base sel.tree) in
    let all = xs ++ ((g, sel) ∷ []) in
    let olds =
      All-map (Under g b) (Under (suc g) c) xs
        (λ x u. let v = u.0 in let w = u.1 in (omega arith, omega arith)) o.older in
    let under : All (Under (suc g) c) all =
      All-append (Under (suc g) c) xs ((g, sel) ∷ []) olds
        ((omega arith, end_below sel b small), tt) in
    let olders =
      All-zip (Under g b) (λ x. Before x sel) (λ x. Older x (g, sel)) xs (λ x u v. (u.0, v)) o.older
        o.newest in
    let apart = Pairwise-append xs (g, sel) o.apart olders in
    rw (insert_retired-append xs g b sel o.older) (record {
      apart = trim-Pairwise all apart;
      older = trim-All (Under (suc g) c) all under;
      newest =
          trim-All (λ x. Before x new) all
            (All-map (Under (suc g) c) (λ x. Before x new) all (λ x u. inl none_there) under);
      counted = inl none_there;
      few = length-trim all;
    })
