-- ===== src/Capture/Damage/Clamp.antt =====
-- `clamp_damage_region` of src/capture/damage.rs is the intersection with the frame.
use hypr_rdp.Base.{ℕ, ◌+◌, ◌≤◌, ◌<◌, ◌≡◌, ◌⊎◌, ◌↔◌, none, some, List, [], ◌∷◌, arith}
use hypr_rdp.Base.Int.{ℤ, pos_part, neg_part, IsI32, i32_max, sat_add}
use hypr_rdp.Capture.Damage.{Region, clamp_to, clamp_damage_region}

-- The pixel `px` lies in the interval of length `w` from `x`.
abbrev pub Within : ℤ → ℤ → ℕ → Type 0
Within x w px =
    (pos_part x ≤ px + neg_part x) × (px + neg_part x + neg_part w < pos_part x + pos_part w)

abbrev pub Covers : Region → ℕ → ℕ → Type 0
Covers r px py = Within r.x r.w px × Within r.y r.h py

-- Some region of the list covers the pixel.
abbrev pub CoveredBy : List Region → ℕ → ℕ → Type 0
CoveredBy [] px py = ⊥
CoveredBy (r ∷ rs) px py = Covers r px py ⊎ CoveredBy rs px py

-- A region with pixels, all of them in the frame.
pub record InFrame (width height : ℕ) (r : Region) : Type 0 where
  pub x_pos : neg_part r.x ≡ 0
  pub y_pos : neg_part r.y ≡ 0
  pub w_pos : 0 < pos_part r.w
  pub h_pos : 0 < pos_part r.h
  pub right : pos_part r.x + pos_part r.w ≤ width
  pub bottom : pos_part r.y + pos_part r.h ≤ height

clamp_to-le : (v : ℤ) (limit : ℕ) → clamp_to v limit ≤ limit
clamp_to-le v limit = ground arith

-- One axis: clamping the ends of an interval keeps its pixels in the frame.
axis_iff :
    (x w : ℤ) (limit px : ℕ)
    → IsI32 x
    → IsI32 w
    → limit ≤ i32_max
    → ((clamp_to x limit ≤ px) × (px < clamp_to (sat_add x w) limit))
      ↔ ((Within x w px) × (px < limit))
unfolding sat_add
axis_iff x w limit px hx hw hl = (λ h. ground arith, λ h. ground arith)

-- A region of i32 numbers that `clamp_damage_region` does not drop: the result stands in the frame,
-- is not empty, and covers exactly the pixels of the region that lie in the frame.
pub clamp_damage_region-some :
    (r : Region) (width height : ℕ) {c : Region}
    → IsI32 r.x × IsI32 r.y × IsI32 r.w × IsI32 r.h
    → clamp_damage_region r width height ≡ some c
    → InFrame width height c
      × ((px py : ℕ) → Covers c px py ↔ (Covers r px py × (px < width) × (py < height)))
unfolding clamp_damage_region
clamp_damage_region-some r width height {c} i e = (
  in_frame,
  λ px py. (λ k. ground (arith, x_iff px, y_iff py), λ k. ground (arith, x_iff px, y_iff py)),
)
  where
    small : (width ≤ i32_max) × (height ≤ i32_max)
    small = ground arith

    in_frame : InFrame width height c
    in_frame = ground (
      arith,
      clamp_to-le r.x width,
      clamp_to-le r.y height,
      clamp_to-le (sat_add r.x r.w) width,
      clamp_to-le (sat_add r.y r.h) height,
    )

    x_iff :
        (px : ℕ)
        → ((clamp_to r.x width ≤ px) × (px < clamp_to (sat_add r.x r.w) width))
          ↔ ((Within r.x r.w px) × (px < width))
    x_iff px = axis_iff r.x r.w width px i.0 i.2 small.0

    y_iff :
        (py : ℕ)
        → ((clamp_to r.y height ≤ py) × (py < clamp_to (sat_add r.y r.h) height))
          ↔ ((Within r.y r.h py) × (py < height))
    y_iff py = axis_iff r.y r.h height py i.1 i.3 small.1

-- A region of i32 numbers that `clamp_damage_region` drops covers no pixel of the frame, if the frame's
-- width and height are at most 2^31 - 1.
pub clamp_damage_region-none :
    (r : Region) (width height px py : ℕ)
    → IsI32 r.x × IsI32 r.y × IsI32 r.w × IsI32 r.h
    → width ≤ i32_max
    → height ≤ i32_max
    → clamp_damage_region r width height ≡ none
    → px < width
    → py < height
    → ¬ Covers r px py
unfolding clamp_damage_region
clamp_damage_region-none r width height px py i hw hh e lx ly c =
    ground (arith, axis_iff r.x r.w width px, axis_iff r.y r.h height py)
