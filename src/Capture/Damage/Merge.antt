-- ===== src/Capture/Damage/Merge.antt =====
-- Merging pending damage in src/capture/damage.rs loses no pixel and stays in the frame.
use hypr_rdp.Base.{
  ℕ, zero, suc, ◌+◌, ◌≤◌, ◌<◌, ◌≡◌, refl, ◌⊎◌, inl, inr, List, [], ◌∷◌, ◌++◌, arith, All,
  All-append, length, Bool-cases, ap, ◌∙◌,
}
use hypr_rdp.Base.Int.{ℤ, pos, pos_part, neg_part, i32_max, sat_add, sub_i32}
use hypr_rdp.Capture.Damage.{
  Region, damage_regions_are_near, union_damage_region, last_of, but_last, swap_remove, merge_loop,
  merge_damage_region, damage_merge_distance,
}
use hypr_rdp.Capture.Damage.Clamp.{Covers, CoveredBy, InFrame}

-- One axis of a union.
union_axis :
    (ax aw bx bw : ℤ) (limit : ℕ)
    → limit ≤ i32_max
    → neg_part ax ≡ 0
    → neg_part bx ≡ 0
    → 0 < pos_part aw
    → 0 < pos_part bw
    → pos_part ax + pos_part aw ≤ limit
    → pos_part bx + pos_part bw ≤ limit
    → (sat_add ax aw ≡ pos (pos_part ax + pos_part aw))
      × (sat_add bx bw ≡ pos (pos_part bx + pos_part bw))
unfolding sat_add
union_axis ax aw bx bw limit l p q r s u v = (ground arith, ground arith)

union-InFrame :
    (a b : Region) (width height : ℕ)
    → width ≤ i32_max
    → height ≤ i32_max
    → InFrame width height a
    → InFrame width height b
    → InFrame width height (union_damage_region a b)
unfolding union_damage_region sub_i32
union-InFrame a b width height hw hh ha hb = ground (
  arith,
  union_axis a.x a.w b.x b.w width hw ha.x_pos hb.x_pos ha.w_pos hb.w_pos ha.right hb.right,
  union_axis a.y a.h b.y b.h height hh ha.y_pos hb.y_pos ha.h_pos hb.h_pos ha.bottom hb.bottom,
)

union-Covers :
    (a b : Region) (width height px py : ℕ)
    → width ≤ i32_max
    → height ≤ i32_max
    → InFrame width height a
    → InFrame width height b
    → Covers a px py ⊎ Covers b px py
    → Covers (union_damage_region a b) px py
unfolding union_damage_region sub_i32
union-Covers a b width height px py hw hh ha hb c = ground (
  arith,
  union_axis a.x a.w b.x b.w width hw ha.x_pos hb.x_pos ha.w_pos hb.w_pos ha.right hb.right,
  union_axis a.y a.h b.y b.h height hh ha.y_pos hb.y_pos ha.h_pos hb.h_pos ha.bottom hb.bottom,
)

pub CoveredBy-append_left :
    (rs ss : List Region) (px py : ℕ) → CoveredBy rs px py → CoveredBy (rs ++ ss) px py
CoveredBy-append_left [] ss px py c = absurd c
CoveredBy-append_left (r ∷ rs) ss px py (inl c) = inl c
CoveredBy-append_left (r ∷ rs) ss px py (inr c) = inr (CoveredBy-append_left rs ss px py c)

pub CoveredBy-append_right :
    (rs ss : List Region) (px py : ℕ) → CoveredBy ss px py → CoveredBy (rs ++ ss) px py
CoveredBy-append_right [] ss px py c = c
CoveredBy-append_right (r ∷ rs) ss px py c = inr (CoveredBy-append_right rs ss px py c)

rotate-CoveredBy :
    (r : Region) (rest : List Region) (px py : ℕ)
    → CoveredBy (r ∷ rest) px py
    → CoveredBy (last_of r rest ∷ but_last r rest) px py
unfolding last_of but_last
rotate-CoveredBy r [] px py c = c
rotate-CoveredBy r (s ∷ rest) px py (inl c) = inr (inl c)
rotate-CoveredBy r (s ∷ rest) px py (inr c) = elim (rotate-CoveredBy s rest px py c) [
  | inl d ↦ inl d
  | inr d ↦ inr (inr d)
]

swap_remove-CoveredBy :
    (rest : List Region) (px py : ℕ) → CoveredBy rest px py → CoveredBy (swap_remove rest) px py
unfolding swap_remove
swap_remove-CoveredBy [] px py c = c
swap_remove-CoveredBy (r ∷ rest) px py c = rotate-CoveredBy r rest px py c

rotate-All :
    (P : Region → Type 0) (r : Region) (rest : List Region)
    → All P (r ∷ rest)
    → All P (last_of r rest ∷ but_last r rest)
unfolding last_of but_last
rotate-All P r [] h = h
rotate-All P r (s ∷ rest) h = let k = rotate-All P s rest h.1 in (k.0, (h.0, k.1))

swap_remove-All : (P : Region → Type 0) (rest : List Region) → All P rest → All P (swap_remove rest)
unfolding swap_remove
swap_remove-All P [] h = h
swap_remove-All P (r ∷ rest) h = rotate-All P r rest h

length-but_last : (r : Region) (rest : List Region) → length (but_last r rest) ≡ length rest
unfolding but_last
length-but_last r [] = refl
length-but_last r (s ∷ rest) = omega (arith, length-but_last s rest)

length-swap_remove : (rest : List Region) → length (swap_remove rest) ≡ length rest
unfolding swap_remove
length-swap_remove [] = refl
length-swap_remove (r ∷ rest) = omega (arith, length-but_last r rest)

module _ (width height : ℕ) (hw : width ≤ i32_max) (hh : height ≤ i32_max) (d : ℕ) where
  merge_loop-InFrame :
      (fuel : ℕ) (kept rest : List Region) (m : Region)
      → All (InFrame width height) kept
      → All (InFrame width height) rest
      → InFrame width height m
      → All (InFrame width height) (merge_loop fuel kept rest m d)
  unfolding merge_loop
  merge_loop-InFrame zero kept rest m hk hr hm =
      All-append _ kept (rest ++ (m ∷ [])) hk (All-append _ rest (m ∷ []) hr (hm, tt))
  merge_loop-InFrame (suc fuel) kept [] m hk hr hm = All-append _ kept _ hk (hm, tt)
  merge_loop-InFrame (suc fuel) kept (r ∷ rest) m hk hr hm =
      elim (Bool-cases (damage_regions_are_near r m d)) [
        | inl near ↦
            rw (near, merge_loop)
              (merge_loop-InFrame fuel kept (swap_remove rest) (union_damage_region r m) hk
                (swap_remove-All _ rest hr.1) (union-InFrame r m width height hw hh hr.0 hm))
        | inr far ↦
            rw (far, merge_loop)
              (merge_loop-InFrame fuel (kept ++ (r ∷ [])) rest m (All-append _ kept _ hk (hr.0, tt))
                hr.1 hm)
      ]

  merge_loop-CoveredBy :
      (fuel : ℕ) (kept rest : List Region) (m : Region) (px py : ℕ)
      → All (InFrame width height) rest
      → InFrame width height m
      → CoveredBy kept px py ⊎ (CoveredBy rest px py ⊎ Covers m px py)
      → CoveredBy (merge_loop fuel kept rest m d) px py
  unfolding merge_loop
  merge_loop-CoveredBy zero kept rest m px py hr hm (inl c) = CoveredBy-append_left kept _ px py c
  merge_loop-CoveredBy zero kept rest m px py hr hm (inr (inl c)) =
      CoveredBy-append_right kept _ px py (CoveredBy-append_left rest _ px py c)
  merge_loop-CoveredBy zero kept rest m px py hr hm (inr (inr c)) =
      CoveredBy-append_right kept _ px py (CoveredBy-append_right rest _ px py (inl c))
  merge_loop-CoveredBy (suc fuel) kept [] m px py hr hm (inl c) =
      CoveredBy-append_left kept _ px py c
  merge_loop-CoveredBy (suc fuel) kept [] m px py hr hm (inr (inl c)) = absurd c
  merge_loop-CoveredBy (suc fuel) kept [] m px py hr hm (inr (inr c)) =
      CoveredBy-append_right kept _ px py (inl c)
  merge_loop-CoveredBy (suc fuel) kept (r ∷ rest) m px py hr hm c =
      elim (Bool-cases (damage_regions_are_near r m d)) [
        | inl near ↦
            rw (near, merge_loop)
              (merge_loop-CoveredBy fuel kept (swap_remove rest) (union_damage_region r m) px py
                (swap_remove-All _ rest hr.1) (union-InFrame r m width height hw hh hr.0 hm)
                (into_union c))
        | inr far ↦
            rw (far, merge_loop)
              (merge_loop-CoveredBy fuel (kept ++ (r ∷ [])) rest m px py hr.1 hm (into_kept c))
      ]
    where
      into_union :
          CoveredBy kept px py ⊎ (CoveredBy (r ∷ rest) px py ⊎ Covers m px py)
          → CoveredBy kept px py
            ⊎ (CoveredBy (swap_remove rest) px py ⊎ Covers (union_damage_region r m) px py)
      into_union (inl k) = inl k
      into_union (inr (inl (inl k))) =
          inr (inr (union-Covers r m width height px py hw hh hr.0 hm (inl k)))
      into_union (inr (inl (inr k))) = inr (inl (swap_remove-CoveredBy rest px py k))
      into_union (inr (inr k)) =
          inr (inr (union-Covers r m width height px py hw hh hr.0 hm (inr k)))

      into_kept :
          CoveredBy kept px py ⊎ (CoveredBy (r ∷ rest) px py ⊎ Covers m px py)
          → CoveredBy (kept ++ (r ∷ [])) px py ⊎ (CoveredBy rest px py ⊎ Covers m px py)
      into_kept (inl k) = inl (CoveredBy-append_left kept _ px py k)
      into_kept (inr (inl (inl k))) = inl (CoveredBy-append_right kept _ px py (inl k))
      into_kept (inr (inl (inr k))) = inr (inl k)
      into_kept (inr (inr k)) = inr (inr k)

-- Pending regions in a frame of at most 2^31 - 1 pixels a side, and a new one in it: afterwards all regions are in the frame again, and
-- every pixel of the pending regions and of the new one is still covered.
pub merge_damage_region-Covers :
    (width height : ℕ) (pending : List Region) (r : Region)
    → width ≤ i32_max
    → height ≤ i32_max
    → All (InFrame width height) pending
    → InFrame width height r
    → All (InFrame width height) (merge_damage_region pending r)
      × ((px py : ℕ)
          → CoveredBy pending px py ⊎ Covers r px py
          → CoveredBy (merge_damage_region pending r) px py)
unfolding merge_damage_region
merge_damage_region-Covers width height pending r hw hh hp hr = (
  merge_loop-InFrame width height hw hh damage_merge_distance (length pending) [] pending r tt hp
      hr,
  λ px py c.
      merge_loop-CoveredBy width height hw hh damage_merge_distance (length pending) [] pending r px
        py hp hr (inr c),
)

-- The loop of `merge_nearby_damage_region` needs no more fuel than the regions that it has left to
-- look at: any larger fuel gives the same list.
pub merge_loop_fuel :
    (fuel : ℕ) (kept rest : List Region) (m : Region) (d : ℕ)
    → length rest ≤ fuel
    → merge_loop fuel kept rest m d ≡ merge_loop (length rest) kept rest m d
unfolding merge_loop
merge_loop_fuel zero kept [] m d h = refl
merge_loop_fuel zero kept (r ∷ rest) m d h = absurd (omega arith)
merge_loop_fuel (suc fuel) kept [] m d h = refl
merge_loop_fuel (suc fuel) kept (r ∷ rest) m d h =
    elim (Bool-cases (damage_regions_are_near r m d)) [
      | inl near ↦
          rw (near, merge_loop)
            (merge_loop_fuel fuel kept (swap_remove rest) (union_damage_region r m) d
                (omega (arith, length-swap_remove rest))
              ∙ ap (λ n. merge_loop n kept (swap_remove rest) (union_damage_region r m) d)
                  (length-swap_remove rest))
      | inr far ↦
          rw (far, merge_loop) (merge_loop_fuel fuel (kept ++ (r ∷ [])) rest m d (omega arith))
    ]
