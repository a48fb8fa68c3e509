-- ===== src/Egfx/ClearCodec/Bands.antt =====
-- The bands of src/egfx/clearcodec.rs, between neighbouring edges of the clipped rectangles.
use hypr_rdp.Base.{
  ℕ, ◌≤◌, ◌<◌, ◌≡◌, refl, ◌⊎◌, Bool, false, ◌||◌, ◌==◌, List, [], ◌∷◌, leb, if◌then◌else◌, arith,
  inl, inr, Bool-cases, All,
}
use hypr_rdp.Egfx.ClearCodec.{
  ExclusiveRectangle, u16_max, insert_number, sort_numbers, dedup_from, dedup, spans_of, band,
  bands,
}
use hypr_rdp.Egfx.ClearCodec.Tiles.{has_pixel, ind, hits, hits-append}
use hypr_rdp.Egfx.ClearCodec.Spans.{any_span, hits-band}

abbrev pub OneOf : ℕ → List ℕ → Type 0
OneOf y [] = ⊥
OneOf y (z ∷ zs) = (y ≡ z) ⊎ OneOf y zs

-- All numbers are at least `k`, or more than `k`.
abbrev pub AtLeast : ℕ → List ℕ → Type 0
AtLeast k [] = Unit
AtLeast k (y ∷ ys) = (k ≤ y) × AtLeast k ys

abbrev pub MoreThan : ℕ → List ℕ → Type 0
MoreThan k [] = Unit
MoreThan k (y ∷ ys) = (k < y) × MoreThan k ys

abbrev pub Ascending : List ℕ → Type 0
Ascending [] = Unit
Ascending (y ∷ ys) = AtLeast y ys × Ascending ys

abbrev pub Rising : List ℕ → Type 0
Rising [] = Unit
Rising (y ∷ ys) = MoreThan y ys × Rising ys

AtLeast-weaken : (j k : ℕ) (ys : List ℕ) → j ≤ k → AtLeast k ys → AtLeast j ys
AtLeast-weaken j k [] h a = tt
AtLeast-weaken j k (y ∷ ys) h a = (omega (arith, a.0), AtLeast-weaken j k ys h a.1)

insert_number-AtLeast :
    (k y : ℕ) (ys : List ℕ) → k ≤ y → AtLeast k ys → AtLeast k (insert_number y ys)
unfolding insert_number
insert_number-AtLeast k y [] h a = (h, tt)
insert_number-AtLeast k y (z ∷ zs) h a = elim (Bool-cases (leb y z)) [
  | inl e ↦ rw e (h, a)
  | inr e ↦ rw e (a.0, insert_number-AtLeast k y zs h a.1)
]

insert_number-Ascending : (y : ℕ) (ys : List ℕ) → Ascending ys → Ascending (insert_number y ys)
unfolding insert_number
insert_number-Ascending y [] a = (tt, tt)
insert_number-Ascending y (z ∷ zs) a = elim (Bool-cases (leb y z)) [
  | inl e ↦ let h : y ≤ z = ground arith in rw e ((h, AtLeast-weaken y z zs h a.0), a)
  | inr e ↦
      let h : z ≤ y = ground arith in
      rw e (insert_number-AtLeast z y zs h a.0, insert_number-Ascending y zs a.1)
]

pub sort_numbers-Ascending : (ys : List ℕ) → Ascending (sort_numbers ys)
unfolding sort_numbers
sort_numbers-Ascending [] = tt
sort_numbers-Ascending (y ∷ ys) =
    insert_number-Ascending y (sort_numbers ys) (sort_numbers-Ascending ys)

insert_number-OneOf : (x y : ℕ) (ys : List ℕ) → (x ≡ y) ⊎ OneOf x ys → OneOf x (insert_number y ys)
unfolding insert_number
insert_number-OneOf x y [] h = h
insert_number-OneOf x y (z ∷ zs) h = elim (Bool-cases (leb y z)) [
  | inl e ↦ rw e h
  | inr e ↦ rw e (ground (arith, insert_number-OneOf x y zs))
]

pub sort_numbers-OneOf : (x : ℕ) (ys : List ℕ) → OneOf x ys → OneOf x (sort_numbers ys)
unfolding sort_numbers
sort_numbers-OneOf x [] h = h
sort_numbers-OneOf x (y ∷ ys) (inl e) = insert_number-OneOf x y (sort_numbers ys) (inl e)
sort_numbers-OneOf x (y ∷ ys) (inr h) =
    insert_number-OneOf x y (sort_numbers ys) (inr (sort_numbers-OneOf x ys h))

dedup_from-OneOf : (x y : ℕ) (ys : List ℕ) → (x ≡ y) ⊎ OneOf x ys → OneOf x (dedup_from y ys)
unfolding dedup_from
dedup_from-OneOf x y [] h = h
dedup_from-OneOf x y (z ∷ zs) h = elim (Bool-cases (y == z)) [
  | inl e ↦ rw e (ground (arith, dedup_from-OneOf x y zs))
  | inr e ↦ rw e (ground (arith, dedup_from-OneOf x z zs))
]

dedup_from-MoreThan :
    (k y : ℕ) (ys : List ℕ) → k < y → Ascending (y ∷ ys) → MoreThan k (dedup_from y ys)
unfolding dedup_from
dedup_from-MoreThan k y [] h a = (h, tt)
dedup_from-MoreThan k y (z ∷ zs) h a = elim (Bool-cases (y == z)) [
  | inl e ↦ rw e (dedup_from-MoreThan k y zs h (a.0.1, a.1.1))
  | inr e ↦ let lt : k < z = omega (arith, a.0.0) in rw e (h, dedup_from-MoreThan k z zs lt a.1)
]

dedup_from-Rising : (y : ℕ) (ys : List ℕ) → Ascending (y ∷ ys) → Rising (dedup_from y ys)
unfolding dedup_from
dedup_from-Rising y [] a = (tt, tt)
dedup_from-Rising y (z ∷ zs) a = elim (Bool-cases (y == z)) [
  | inl e ↦ rw e (dedup_from-Rising y zs (a.0.1, a.1.1))
  | inr e ↦
      let lt : y < z = ground (arith, a.0.0) in
      rw e (dedup_from-MoreThan y z zs lt a.1, dedup_from-Rising z zs a.1)
]

pub dedup-Rising : (ys : List ℕ) → Ascending ys → Rising (dedup ys)
unfolding dedup
dedup-Rising [] a = tt
dedup-Rising (y ∷ ys) a = dedup_from-Rising y ys a

pub dedup-OneOf : (x : ℕ) (ys : List ℕ) → OneOf x ys → OneOf x (dedup ys)
unfolding dedup
dedup-OneOf x [] h = h
dedup-OneOf x (y ∷ ys) h = dedup_from-OneOf x y ys h

-- Whether one of the rectangles has the pixel.
abbrev pub any_pixel : List ExclusiveRectangle → ℕ → ℕ → Bool
any_pixel [] px py = false
any_pixel (c ∷ cs) px py = has_pixel c px py || any_pixel cs px py

-- Both edges of the rectangle are at most `y` or among `zs`.
abbrev pub EdgesIn : ℕ → List ℕ → ExclusiveRectangle → Type 0
EdgesIn y zs c = ((c.top ≤ y) ⊎ OneOf c.top zs) × ((c.bottom ≤ y) ⊎ OneOf c.bottom zs)

pub MoreThan-OneOf : (k x : ℕ) (ys : List ℕ) → MoreThan k ys → OneOf x ys → k < x
MoreThan-OneOf k x [] m h = absurd h
MoreThan-OneOf k x (y ∷ ys) m (inl e) = omega (arith, m.0)
MoreThan-OneOf k x (y ∷ ys) m (inr h) = MoreThan-OneOf k x ys m.1 h

-- An edge that is not past `y` is not before `z`, the next one.
past : (x y z : ℕ) (zs : List ℕ) → (x ≤ y) ⊎ OneOf x (z ∷ zs) → MoreThan z zs → y < x → z ≤ x
past x y z zs (inl h) m lt = absurd (omega arith)
past x y z zs (inr (inl e)) m lt = omega arith
past x y z zs (inr (inr h)) m lt = let q = MoreThan-OneOf z x zs m h in omega arith

-- In a band between two neighbouring edges, the spans are the rectangles at each of its rows.
spans_of-pixels :
    (cs : List ExclusiveRectangle) (y z px py : ℕ) (zs : List ℕ)
    → All (EdgesIn y (z ∷ zs)) cs
    → MoreThan z zs
    → y ≤ py
    → py < z
    → any_span (spans_of cs y z) px ≡ any_pixel cs px py
unfolding spans_of
spans_of-pixels [] y z px py zs h m lo hi = refl
spans_of-pixels (c ∷ cs) y z px py zs h m lo hi = ground (
  arith,
  spans_of-pixels cs y z px py zs h.1 m lo hi,
  past c.top y z zs h.0.0 m,
  past c.bottom y z zs h.0.1 m,
)

EdgesIn-next :
    (y z : ℕ) (zs : List ℕ) (c : ExclusiveRectangle) → y < z → EdgesIn y (z ∷ zs) c → EdgesIn z zs c
EdgesIn-next y z zs c lt h = ground (arith, h)

All-next :
    (y z : ℕ) (zs : List ℕ) (cs : List ExclusiveRectangle)
    → y < z
    → All (EdgesIn y (z ∷ zs)) cs
    → All (EdgesIn z zs) cs
All-next y z zs [] lt h = tt
All-next y z zs (c ∷ cs) lt h = (EdgesIn-next y z zs c lt h.0, All-next y z zs cs lt h.1)

-- Below the last edge there is nothing.
none_after :
    (cs : List ExclusiveRectangle) (y px py : ℕ)
    → All (EdgesIn y []) cs
    → y ≤ py
    → any_pixel cs px py ≡ false
none_after [] y px py h lo = refl
none_after (c ∷ cs) y px py h lo = ground (arith, none_after cs y px py h.1 lo, h.0)

-- The bands from `y` on hit each pixel of the rectangles from there on once, and nothing above.
pub bands-hits :
    (cs : List ExclusiveRectangle) (y px py : ℕ) (zs : List ℕ)
    → px < u16_max
    → py < u16_max
    → Rising (y ∷ zs)
    → All (EdgesIn y zs) cs
    → hits (bands cs (y ∷ zs)) px py ≡ (if leb y py then ind (any_pixel cs px py) else 0)
unfolding bands
bands-hits cs y px py [] hp hq r h = ground (arith, none_after cs y px py h)
bands-hits cs y px py (z ∷ zs) hp hq r h = ground (
  arith,
  r.0.0,
  hits-append (band cs y z) (bands cs (z ∷ zs)) px py,
  hits-band cs y z px py hp hq,
  spans_of-pixels cs y z px py zs h r.1.0,
  bands-hits cs z px py zs hp hq r.1 (All-next y z zs cs r.0.0 h),
)
