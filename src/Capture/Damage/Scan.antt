-- ===== src/Capture/Damage/Scan.antt =====
-- The scan of src/capture/damage.rs: what a list of regions covers stays covered.
use hypr_rdp.Base.{
  ℕ, zero, suc, ◌+◌, ◌-◌, min, ◌≡◌, inl, inr, Bool, true, false, Option, none, some, List, [], ◌∷◌,
  ltb, arith, Bool-cases,
}
use hypr_rdp.Base.Int.{ℤ, pos_part, eqb_ℤ}
use hypr_rdp.Capture.Damage.{
  Region, region, clamp_damage_region, same_region, has_region, push_unique_damage_region,
  damage_tile_size,
}
use hypr_rdp.Capture.Damage.Detector.{
  push_if, next_tile, frame_tile_changed, scan_columns, scan_rows, scan_candidate, scan_candidates,
}
use hypr_rdp.Capture.Damage.Clamp.{Covers, CoveredBy}
use hypr_rdp.Capture.Damage.Merge.{CoveredBy-append_left, CoveredBy-append_right}

eqb_ℤ-eq : (a b : ℤ) → eqb_ℤ a b ≡ true → a ≡ b
eqb_ℤ-eq a b h = ground arith

same_region-eq : (a b : Region) → same_region a b ≡ true → a ≡ b
same_region-eq a b h =
    ground (arith, eqb_ℤ-eq a.x b.x, eqb_ℤ-eq a.y b.y, eqb_ℤ-eq a.w b.w, eqb_ℤ-eq a.h b.h)

has_region-CoveredBy :
    (rs : List Region) (r : Region) (px py : ℕ)
    → has_region rs r ≡ true
    → Covers r px py
    → CoveredBy rs px py
unfolding has_region
has_region-CoveredBy [] r px py h c = cc
has_region-CoveredBy (s ∷ rs) r px py h c = elim (Bool-cases (same_region s r)) [
  | inl e ↦ inl (rw (same_region-eq s r e) c)
  | inr e ↦ inr (has_region-CoveredBy rs r px py (rw (e, has_region) at h) c)
]

push-keeps :
    (rs : List Region) (r : Region) (px py : ℕ)
    → CoveredBy rs px py
    → CoveredBy (push_unique_damage_region rs r) px py
unfolding push_unique_damage_region
push-keeps rs r px py c = ground (arith, CoveredBy-append_left rs (r ∷ []) px py c)

pub push-Covers :
    (rs : List Region) (r : Region) (px py : ℕ)
    → Covers r px py
    → CoveredBy (push_unique_damage_region rs r) px py
unfolding push_unique_damage_region
push-Covers rs r px py c = elim (Bool-cases (has_region rs r)) [
  | inl e ↦ rw e (has_region-CoveredBy rs r px py e c)
  | inr e ↦ rw e (CoveredBy-append_right rs (r ∷ []) px py (inl c))
]

pub push_if-keeps :
    (b : Bool) (rs : List Region) (r : Region) (px py : ℕ)
    → CoveredBy rs px py
    → CoveredBy (push_if b rs r) px py
push_if-keeps true rs r px py c = push-keeps rs r px py c
push_if-keeps false rs r px py c = c

-- What is covered stays covered as the scan goes on.
pub scan_columns-keeps :
    (fuel : ℕ) (current reference : List ℕ) (stride tile_y tile_h tile_x right : ℕ)
    (rs : List Region) (px py : ℕ)
    → CoveredBy rs px py
    → CoveredBy (scan_columns fuel current reference stride tile_y tile_h tile_x right rs) px py
unfolding scan_columns
scan_columns-keeps zero current reference stride tile_y tile_h tile_x right rs px py c = c
scan_columns-keeps (suc fuel) current reference stride tile_y tile_h tile_x right rs px py c =
    elim (Bool-cases (ltb tile_x right)) [
      | inl e ↦ rw e (
          scan_columns-keeps fuel current reference stride tile_y tile_h (next_tile tile_x) right
            found px py (push_if-keeps changed rs tile px py c))
      | inr e ↦ rw e c
    ]
  where
    tile_w : ℕ
    tile_w = min damage_tile_size (right - tile_x)

    tile : Region
    tile = region tile_x tile_y tile_w tile_h

    changed : Bool
    changed = frame_tile_changed current reference stride tile_x tile_y tile_w tile_h

    found : List Region
    found = push_if changed rs tile

pub scan_rows-keeps :
    (fuel : ℕ) (current reference : List ℕ) (stride left right tile_y bottom : ℕ) (rs : List Region)
    (px py : ℕ)
    → CoveredBy rs px py
    → CoveredBy (scan_rows fuel current reference stride left right tile_y bottom rs) px py
unfolding scan_rows
scan_rows-keeps zero current reference stride left right tile_y bottom rs px py c = c
scan_rows-keeps (suc fuel) current reference stride left right tile_y bottom rs px py c =
    elim (Bool-cases (ltb tile_y bottom)) [
      | inl e ↦ rw e (
          scan_rows-keeps fuel current reference stride left right (next_tile tile_y) bottom found
            px py
            (scan_columns-keeps (right - left) current reference stride tile_y tile_h left right rs
              px py c))
      | inr e ↦ rw e c
    ]
  where
    tile_h : ℕ
    tile_h = min damage_tile_size (bottom - tile_y)

    found : List Region
    found = scan_columns (right - left) current reference stride tile_y tile_h left right rs

pub scan_candidate-keeps :
    (current reference : List ℕ) (stride : ℕ) (c : Option Region) (rs : List Region) (px py : ℕ)
    → CoveredBy rs px py
    → CoveredBy (scan_candidate current reference stride c rs) px py
unfolding scan_candidate
scan_candidate-keeps current reference stride none rs px py h = h
scan_candidate-keeps current reference stride (some c) rs px py h =
    let top = pos_part c.y in
    let left = pos_part c.x in
    scan_rows-keeps (top + pos_part c.h - top) current reference stride left (left + pos_part c.w)
      top (top + pos_part c.h) rs px py h

pub scan_candidates-keeps :
    (current reference : List ℕ) (width height stride : ℕ) (cs rs : List Region) (px py : ℕ)
    → CoveredBy rs px py
    → CoveredBy (scan_candidates current reference width height stride cs rs) px py
unfolding scan_candidates
scan_candidates-keeps current reference width height stride [] rs px py h = h
scan_candidates-keeps current reference width height stride (c ∷ cs) rs px py h =
    scan_candidates-keeps current reference width height stride cs
      (scan_candidate current reference stride (clamp_damage_region c width height) rs) px py
      (scan_candidate-keeps current reference stride (clamp_damage_region c width height) rs px py
        h)
