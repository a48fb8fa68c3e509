-- ===== src/Clipboard/Inbound/Transfer/Sizes.antt =====
-- Storing the size of a file in src/clipboard/inbound/transfer.rs moves no inode.
use hypr_rdp.Base.{
  ℕ, zero, suc, ◌-◌, ◌≤◌, ◌≡◌, refl, true, some, List, [], ◌∷◌, ◌==◌, arith, length, Bool-cases,
  Option-cases, inl, inr, ◌⊎◌, ap, ◌∙◌, All, get_elem?,
}
use hypr_rdp.Clipboard.Inbound.Tree.{
  RemoteTree, RemoteNode, entries, offset_of, set_at, set_size, node_is_directory,
}
use hypr_rdp.Clipboard.Inbound.Transfer.Selections.{Selection, State, selection}
use hypr_rdp.Clipboard.Inbound.Transfer.Inodes.{
  end_of, Before, Older, Pairwise, Under, Orderly, All-map,
}
use hypr_rdp.Clipboard.Inbound.Transfer.Reads.{set_in, store_size}

-- Another tree with the same inodes.
abbrev pub SameSpan : RemoteTree → RemoteTree → Type 0
SameSpan t u = (u.base ≡ t.base) × (entries u ≡ entries t)

length-set_at :
    (nodes : List RemoteNode) (i : ℕ) (f : RemoteNode → RemoteNode)
    → length (set_at nodes i f) ≡ length nodes
length-set_at [] i f = refl
length-set_at (n ∷ nodes) zero f = refl
length-set_at (n ∷ nodes) (suc i) f = ap suc (length-set_at nodes i f)

pub set_size-SameSpan : (t : RemoteTree) (inode size : ℕ) → SameSpan t (set_size t inode size).0
unfolding set_size
set_size-SameSpan t inode size = elim (Option-cases (offset_of t inode)) [
  | inl e ↦ rw (e, set_size) (refl, refl)
  | inr (offset, e) ↦ elim (Option-cases (get_elem? t.nodes offset)) [
    | inl f ↦ rw (e, f, set_size) (refl, refl)
    | inr (n, f) ↦ elim (Bool-cases (node_is_directory n)) [
      | inl d ↦ rw (e, f, d, set_size) (refl, refl)
      | inr d ↦
          rw (e, f, d, set_size)
            (
              refl,
              ap (λ k. k - 1) (length-set_at t.nodes offset (λ m. record m { size = some size })),
            )
    ]
  ]
]

-- A predicate on selections that reads no more of a tree than its inodes.
abbrev pub Spanwise {κ} : (ℕ × Selection → Type κ) → Type κ
Spanwise P =
    (k : ℕ) (sel : Selection) (t : RemoteTree)
    → SameSpan sel.tree t
    → P (k, sel)
    → P (k, record sel { tree = t })

pub set_in-All {κ} :
    (P : ℕ × Selection → Type κ) (xs : List (ℕ × Selection)) (g inode size : ℕ)
    → Spanwise P
    → All P xs
    → All P (set_in xs g inode size)
set_in-All P [] g inode size f h = tt
set_in-All P ((k, sel) ∷ xs) g inode size f h = elim (Bool-cases (k == g)) [
  | inl e ↦
      rw e
        (f k sel (set_size sel.tree inode size).0 (set_size-SameSpan sel.tree inode size) h.0, h.1)
  | inr e ↦ rw e (h.0, set_in-All P xs g inode size f h.1)
]

Before-newer :
    (x : ℕ × Selection) (sel : Selection) (t : RemoteTree)
    → SameSpan sel.tree t
    → Before x sel
    → Before x (record sel { tree = t })
Before-newer x sel t e (inl h) = inl (e.1 ∙ h)
Before-newer x sel t e (inr h) = inr (rw e.0 h)

Older-newer : (x : ℕ × Selection) → Spanwise (Older x)
Older-newer x k sel t e h = (h.0, Before-newer x sel t e h.1)

Before-older : (y : Selection) → Spanwise (λ x. Before x y)
Before-older y k sel t e (inl h) = inl h
Before-older y k sel t e (inr h) = inr (let a = e.0 in let b = e.1 in omega arith)

Under-older : (g b : ℕ) → Spanwise (Under g b)
Under-older g b k sel t e h = (h.0, let a = e.0 in let c = e.1 in let v = h.1 in omega arith)

set_in-Pairwise :
    (xs : List (ℕ × Selection)) (g inode size : ℕ) → Pairwise xs → Pairwise (set_in xs g inode size)
set_in-Pairwise [] g inode size h = tt
set_in-Pairwise ((k, sel) ∷ xs) g inode size h = elim (Bool-cases (k == g)) [
  | inl e ↦
      let t = (set_size sel.tree inode size).0 in
      let spans = set_size-SameSpan sel.tree inode size in
      rw (e, set_in)
        (
          All-map (Older (k, sel)) (Older (k, record sel { tree = t })) xs
              (λ y o. (o.0, Before-older y.1 k sel t spans o.1)) h.0,
          h.1,
        )
  | inr e ↦ rw e (
    set_in-All (Older (k, sel)) xs g inode size (Older-newer (k, sel)) h.0,
    set_in-Pairwise xs g inode size h.1,
  )
]

length-set_in :
    (xs : List (ℕ × Selection)) (g inode size : ℕ) → length (set_in xs g inode size) ≡ length xs
length-set_in [] g inode size = refl
length-set_in ((k, sel) ∷ xs) g inode size = elim (Bool-cases (k == g)) [
  | inl e ↦ rw e refl
  | inr e ↦ rw e (ap suc (length-set_in xs g inode size))
]

counted-same :
    (b : ℕ) (sel : Selection) (t : RemoteTree)
    → SameSpan sel.tree t
    → (entries sel.tree ≡ 0) ⊎ (end_of sel ≤ b)
    → (entries t ≡ 0) ⊎ (end_of (record sel { tree = t }) ≤ b)
counted-same b sel t e (inl h) = inl (e.1 ∙ h)
counted-same b sel t e (inr h) = inr (let a = e.0 in let c = e.1 in omega arith)

module _ {F : Type 0} where
  pub get_retired-or_current :
      (s : State F) (g : ℕ) (sel : Selection)
      → (s.generation == g) ≡ true
      → selection s g ≡ some sel
      → sel ≡ s.current
  unfolding selection
  get_retired-or_current s g sel e f = ground arith

  pub store_size-Orderly :
      (s : State F) (g inode size : ℕ) → Orderly s → Orderly (store_size s g inode size).0
  unfolding store_size
  store_size-Orderly s g inode size o = elim (Option-cases (selection s g)) [
    | inl e ↦ rw (e, store_size) o
    | inr (sel, e) ↦ elim (Bool-cases (s.generation == g)) [
      | inl f ↦
          let spans = set_size-SameSpan sel.tree inode size in
          let same = get_retired-or_current s g sel f e in
          rw (e, f, store_size)
            (record {
              apart = o.apart;
              older = o.older;
              newest =
                  All-map (λ x. Before x s.current)
                    (λ x. Before x (record sel { tree = (set_size sel.tree inode size).0 }))
                    s.retiring
                    (λ x b. Before-newer x sel (set_size sel.tree inode size).0 spans (rw same b))
                    o.newest;
              counted =
                  counted-same s.base_after sel (set_size sel.tree inode size).0 spans
                    (rw same o.counted);
              few = o.few;
            })
      | inr f ↦
          let sizes = length-set_in s.retiring g inode size in
          rw (e, f, store_size)
            (record {
              apart = set_in-Pairwise s.retiring g inode size o.apart;
              older =
                  set_in-All (Under s.generation s.base_after) s.retiring g inode size
                    (Under-older s.generation s.base_after) o.older;
              newest =
                  set_in-All (λ x. Before x s.current) s.retiring g inode size
                    (Before-older s.current) o.newest;
              counted = o.counted;
              few = rw sizes o.few;
            })
    ]
  ]
