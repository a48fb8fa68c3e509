-- ===== src/Capture/Damage/Detect.antt =====
-- `detect` of src/capture/damage.rs on the candidate areas.
use hypr_rdp.Base.{
  ◌≢◌, length, get_elem?, u64_max, inl, inr, some, true, Bool-cases, Option-cases, ℕ, zero, suc,
  ◌+◌, ◌-◌, ◌*◌, ◌<◌, ◌≤◌, min, ◌≡◌, List, [], ◌∷◌, ltb, arith, All,
}
use hypr_rdp.Base.Int.{pos_part, IsI32, i32_max}
use hypr_rdp.Capture.Damage.{Region, region, damage_tile_size, clamp_damage_region}
use hypr_rdp.Capture.Damage.Detector.{
  push_if, next_tile, frame_tile_changed, scan_columns, scan_rows, scan_candidate, scan_candidates,
  detect, detect_against, FrameDiffDamageDetector,
}
use hypr_rdp.Capture.Damage.Clamp.{
  Covers, CoveredBy, InFrame, clamp_damage_region-some, clamp_damage_region-none,
}
use hypr_rdp.Capture.Damage.Compare.{frame_tile_changed_complete}
use hypr_rdp.Capture.Damage.Scan.{
  push-Covers, scan_columns-keeps, scan_rows-keeps, scan_candidates-keeps,
}

-- Byte `k` of pixel (px, py) differs between the two frames.
abbrev pub Changed : List ℕ → List ℕ → ℕ → ℕ → ℕ → ℕ → Type 0
Changed current reference stride px py k =
    get_elem? current (py * stride + px * 4 + k) ≢ get_elem? reference (py * stride + px * 4 + k)

scan_columns_complete :
    (fuel : ℕ) (current reference : List ℕ) (stride tile_y tile_h tile_x right : ℕ)
    (rs : List Region) (px py k : ℕ)
    → length current < u64_max
    → k < 4
    → Changed current reference stride px py k
    → right ≤ fuel + tile_x
    → right + damage_tile_size ≤ i32_max
    → tile_x ≤ px
    → px < right
    → tile_y ≤ py
    → py < tile_y + tile_h
    → CoveredBy (scan_columns fuel current reference stride tile_y tile_h tile_x right rs) px py
unfolding scan_columns
scan_columns_complete zero current reference stride tile_y tile_h tile_x right rs px py k sm lk ne
      hf wx a b c d =
    absurd (omega arith)
scan_columns_complete (suc fuel) current reference stride tile_y tile_h tile_x right rs px py k sm
      lk ne hf wx a b c d =
    rw inside (elim (Bool-cases (ltb px (tile_x + damage_tile_size))) [
      | inl here ↦
          let hit =
            frame_tile_changed_complete current reference stride tile_x tile_y tile_w tile_h px py k
              sm a (ground arith) c d lk ne in
          scan_columns-keeps fuel current reference stride tile_y tile_h (next_tile tile_x) right
            found px py (rw hit (push-Covers rs tile px py (ground arith)))
      | inr there ↦
          scan_columns_complete fuel current reference stride tile_y tile_h (next_tile tile_x) right
            found px py k sm lk ne (omega arith) wx (ground arith) b c d
    ])
  where
    inside : ltb tile_x right ≡ true
    inside = ground arith

    tile_w : ℕ
    tile_w = min damage_tile_size (right - tile_x)

    tile : Region
    tile = region tile_x tile_y tile_w tile_h

    found : List Region
    found =
        push_if (frame_tile_changed current reference stride tile_x tile_y tile_w tile_h) rs tile

scan_rows_complete :
    (fuel : ℕ) (current reference : List ℕ) (stride left right tile_y bottom : ℕ) (rs : List Region)
    (px py k : ℕ)
    → length current < u64_max
    → k < 4
    → Changed current reference stride px py k
    → bottom ≤ fuel + tile_y
    → right + damage_tile_size ≤ i32_max
    → bottom + damage_tile_size ≤ i32_max
    → left ≤ px
    → px < right
    → tile_y ≤ py
    → py < bottom
    → CoveredBy (scan_rows fuel current reference stride left right tile_y bottom rs) px py
unfolding scan_rows
scan_rows_complete zero current reference stride left right tile_y bottom rs px py k sm lk ne hf wx
      wy a b c d =
    absurd (omega arith)
scan_rows_complete (suc fuel) current reference stride left right tile_y bottom rs px py k sm lk ne
      hf wx wy a b c d =
    rw inside (elim (Bool-cases (ltb py (tile_y + damage_tile_size))) [
      | inl here ↦
          scan_rows-keeps fuel current reference stride left right (next_tile tile_y) bottom found
            px py
            (scan_columns_complete (right - left) current reference stride tile_y tile_h left right
              rs px py k sm lk ne (omega arith) wx a b c (ground arith))
      | inr there ↦
          scan_rows_complete fuel current reference stride left right (next_tile tile_y) bottom
            found px py k sm lk ne (omega arith) wx wy a b (ground arith) d
    ])
  where
    inside : ltb tile_y bottom ≡ true
    inside = ground arith

    tile_h : ℕ
    tile_h = min damage_tile_size (bottom - tile_y)

    found : List Region
    found = scan_columns (right - left) current reference stride tile_y tile_h left right rs

scan_candidate_complete :
    (current reference : List ℕ) (width height stride : ℕ) (c : Region) (rs : List Region)
    (px py k : ℕ)
    → length current < u64_max
    → k < 4
    → Changed current reference stride px py k
    → width + damage_tile_size ≤ i32_max
    → height + damage_tile_size ≤ i32_max
    → InFrame width height c
    → Covers c px py
    → CoveredBy (scan_candidate current reference stride (some c) rs) px py
unfolding scan_candidate
scan_candidate_complete current reference width height stride c rs px py k sm lk ne hw hh i h =
    scan_rows_complete (top + pos_part c.h - top) current reference stride left
      (left + pos_part c.w) top (top + pos_part c.h) rs px py k sm lk ne (omega arith)
      (ground arith) (ground arith) (ground arith) (ground arith) (ground arith) (ground arith)
  where
    top : ℕ
    top = pos_part c.y

    left : ℕ
    left = pos_part c.x

abbrev pub IsRegion : Region → Type 0
IsRegion r = IsI32 r.x × IsI32 r.y × IsI32 r.w × IsI32 r.h

scan_candidates_complete :
    (current reference : List ℕ) (width height stride : ℕ) (cs rs : List Region) (px py k : ℕ)
    → length current < u64_max
    → width + damage_tile_size ≤ i32_max
    → height + damage_tile_size ≤ i32_max
    → All IsRegion cs
    → px < width
    → py < height
    → k < 4
    → Changed current reference stride px py k
    → CoveredBy cs px py
    → CoveredBy (scan_candidates current reference width height stride cs rs) px py
unfolding scan_candidates
scan_candidates_complete current reference width height stride [] rs px py k sm hw hh i lx ly lk ne
      h =
    absurd h
scan_candidates_complete current reference width height stride (c ∷ cs) rs px py k sm hw hh i lx ly
      lk ne (inr h) =
    scan_candidates_complete current reference width height stride cs
      (scan_candidate current reference stride (clamp_damage_region c width height) rs) px py k sm
      hw hh i.1 lx ly lk ne h
scan_candidates_complete current reference width height stride (c ∷ cs) rs px py k sm hw hh i lx ly
      lk ne (inl h) =
    scan_candidates-keeps current reference width height stride cs
      (scan_candidate current reference stride (clamp_damage_region c width height) rs) px py
      (elim (Option-cases (clamp_damage_region c width height)) [
        | inl e ↦ absurd (
            clamp_damage_region-none c width height px py i.0 (omega arith) (omega arith) e lx ly h)
        | inr (t, e) ↦
            let inside = clamp_damage_region-some c width height i.0 e in
            rw e (
              scan_candidate_complete current reference width height stride t rs px py k sm lk ne hw
                hh inside.0 ((inside.1 px py).1 (h, lx, ly)))
      ])

detect_against_complete :
    (d : FrameDiffDamageDetector) (reference current : List ℕ) (width height stride : ℕ)
    (cs : List Region) (px py k : ℕ)
    → length current < u64_max
    → width + damage_tile_size ≤ i32_max
    → height + damage_tile_size ≤ i32_max
    → All IsRegion cs
    → px < width
    → py < height
    → k < 4
    → Changed current reference stride px py k
    → CoveredBy cs px py
    → CoveredBy (detect_against reference d current width height stride cs) px py
unfolding detect_against
detect_against_complete d reference current width height stride cs px py k sm hw hh i lx ly lk ne
      h =
    ground (
      arith,
      scan_candidates_complete current reference width height stride cs [] px py k sm hw hh i lx ly
          lk ne h,
    )

-- With a reference frame, i32 candidates, a frame of at most 2^31 - 65 pixels a side, so that no
-- position of a tile leaves its i32, and fewer than 2^64 - 1 bytes: every pixel of the frame that a
-- candidate covers and of which one of the four bytes differs from the reference is covered by a
-- region that `detect` reports, whether the tiles were compared or the whole frame was reported.
pub detect_complete :
    (d : FrameDiffDamageDetector) (reference current : List ℕ) (width height stride : ℕ)
    (cs : List Region) (px py k : ℕ)
    → d.reference_frame ≡ some reference
    → length current < u64_max
    → width + damage_tile_size ≤ i32_max
    → height + damage_tile_size ≤ i32_max
    → All IsRegion cs
    → px < width
    → py < height
    → k < 4
    → Changed current reference stride px py k
    → CoveredBy cs px py
    → CoveredBy (detect d current width height stride cs) px py
unfolding detect
detect_complete d reference current width height stride cs px py k e sm hw hh i lx ly lk ne h =
    rw e (
      detect_against_complete d reference current width height stride cs px py k sm hw hh i lx ly lk
        ne h)
