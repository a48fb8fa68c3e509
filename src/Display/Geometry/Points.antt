-- ===== src/Display/Geometry/Points.antt =====
-- `map_presentation_point_to_source` of src/display/geometry.rs.
use native.Mathlib.Nat.{mul-div_cancel}
use hypr_rdp.Base.{ℕ, suc, ◌+◌, ◌-◌, ◌<◌, ◌≤◌, ◌≡◌, true, sat_u32, clamp, u32_max, arith}
use hypr_rdp.Display.Geometry.Fit.{IsSize}
use hypr_rdp.Display.Geometry.{
  Size, PresentationGeometry, new, visible_size, scale_floor, point_to_source,
  map_presentation_point_to_source, is_identity,
}

-- One axis, whatever the point: the source point is in range; the first and the last pixel of the
-- visible interval are the first and the last of the source.
record AxisMap (offset extent source : ℕ) : Type 0 where
  pub in_range : (v : ℕ) → point_to_source offset extent source v < source
  pub at_first : (v : ℕ) → v ≤ offset → 1 < extent → point_to_source offset extent source v ≡ 0
  pub at_last :
      (v : ℕ) → offset + extent ≤ suc v → suc (point_to_source offset extent source v) ≡ source
  pub monotone :
      (v w : ℕ)
      → v ≤ w
      → point_to_source offset extent source v ≤ point_to_source offset extent source w

-- Every point of the presentation maps into the source, further points not to smaller ones; the
-- first visible point, and all before it, is the source's first, the last one its last.
pub record IsPointMap (g : PresentationGeometry) : Type 0 where
  pub in_source :
      (x y : ℕ)
      → ((map_presentation_point_to_source g x y).0 < (g.source).width)
        × ((map_presentation_point_to_source g x y).1 < (g.source).height)
  pub monotone :
      (x y x' y' : ℕ)
      → x ≤ x'
      → y ≤ y'
      → ((map_presentation_point_to_source g x y).0 ≤ (map_presentation_point_to_source g x' y').0)
        × ((map_presentation_point_to_source g x y).1
            ≤ (map_presentation_point_to_source g x' y').1)
  pub first :
      (x y : ℕ)
      → x ≤ (g.visible).x
      → y ≤ (g.visible).y
      → 1 < (g.visible).width
      → 1 < (g.visible).height
      → map_presentation_point_to_source g x y ≡ (0, 0)
  pub last :
      (x y : ℕ)
      → (g.visible).x + (g.visible).width ≤ suc x
      → (g.visible).y + (g.visible).height ≤ suc y
      → map_presentation_point_to_source g x y ≡ ((g.source).width - 1, (g.source).height - 1)

same_axis : (n v : ℕ) → 0 < n → n ≤ u32_max → v < n → point_to_source 0 n n v ≡ v
unfolding point_to_source scale_floor
same_axis n v hn hu hv = ground (arith, mul-div_cancel (clamp v 0 (sat_u32 n - 1)) hn)

same_visible : (s : Size) → IsSize s → visible_size s s ≡ s
unfolding visible_size
same_visible s h =
    ground (arith, mul-div_cancel s.width h.height_pos, mul-div_cancel s.height h.width_pos)

-- With a source of the size of the presentation, the geometry is the identity and
-- every point of the presentation maps to itself.
same_size_is_identity :
    (s : Size) (x y : ℕ)
    → IsSize s
    → x < s.width
    → y < s.height
    → (is_identity (new s s) ≡ true) × (map_presentation_point_to_source (new s s) x y ≡ (x, y))
unfolding new is_identity map_presentation_point_to_source
same_size_is_identity s x y h lx ly =
    rw (same_visible s h) (ground arith, ground (arith, same_axis s.width x, same_axis s.height y))
