-- ===== src/Display/Geometry.antt =====
-- src/display/geometry.rs: how the captured source is fitted into the client's presentation. `u32`
-- sums wrap and `as u32` truncates, as in the release build; a product of two `u32` fits in `u64`.
pub mod Fit
pub mod Scale
pub mod Rects
pub mod Points
use hypr_rdp.Base.{
  ℕ, ◌+◌, ◌-◌, ◌*◌, ◌/◌, min, max, Bool, not, ◌&&◌, ◌||◌, Option, none, some, List, [], ◌∷◌, ltb,
  leb, ◌==◌, if◌then◌else◌, clamp, u32, sat_u32, sat_u64, sat_u64,
}
use hypr_rdp.Base.Int.{◌+ℤ◌, i32_max}
use hypr_rdp.Capture.Damage.{Region, region, clamp_to, is_positive}

pub record Size : Type 0 where
  pub width : ℕ
  pub height : ℕ

unfoldable pub new_size : ℕ → ℕ → Option Size
new_size width height =
    if ltb 0 width && ltb 0 height then some (record { width = width; height = height }) else none

pub record Rect : Type 0 where
  pub x : ℕ
  pub y : ℕ
  pub width : ℕ
  pub height : ℕ

abbrev pub right : Rect → ℕ
right r = sat_u32 (r.x + r.width)

abbrev pub bottom : Rect → ℕ
bottom r = sat_u32 (r.y + r.height)

-- All four numbers have to fit into i32.
unfoldable pub as_damage_tuple : Rect → Option Region
as_damage_tuple r =
    if leb r.x i32_max && leb r.y i32_max && leb r.width i32_max && leb r.height i32_max
    then some (region r.x r.y r.width r.height)
    else none

pub record PresentationGeometry : Type 0 where
  pub source : Size
  pub presentation : Size
  pub visible : Rect

-- The extent of the visible rectangle, before the `as u32`.
unfoldable pub visible_size : Size → Size → Size
visible_size source presentation =
    if ltb (presentation.width * source.height) (source.width * presentation.height)
    then record {
      width = presentation.width;
      height =
          min (max ((presentation.width * source.height) / source.width) 1) presentation.height;
    }
    else record {
      width = min (max ((presentation.height * source.width) / source.height) 1) presentation.width;
      height = presentation.height;
    }

unfoldable pub new : Size → Size → PresentationGeometry
unfolding visible_size
new source presentation =
    let visible_w = u32 ((visible_size source presentation).width) in
    let visible_h = u32 ((visible_size source presentation).height) in
    record {
      source = source;
      presentation = presentation;
      visible = record {
        x = (presentation.width - visible_w) / 2;
        y = (presentation.height - visible_h) / 2;
        width = visible_w;
        height = visible_h;
      };
    }

unfoldable pub is_identity : PresentationGeometry → Bool
is_identity g =
    ((g.source).width == (g.presentation).width)
    && ((g.source).height == (g.presentation).height)
    && ((g.visible).x == 0)
    && ((g.visible).y == 0)
    && ((g.visible).width == (g.source).width)
    && ((g.visible).height == (g.source).height)

unfoldable pub scale_floor : ℕ → ℕ → ℕ → ℕ
scale_floor value numerator denominator = u32 ((value * numerator) / denominator)

unfoldable pub scale_ceil : ℕ → ℕ → ℕ → ℕ
scale_ceil value numerator denominator =
    u32 (sat_u64 (sat_u64 (value * numerator) + (denominator - 1)) / denominator)

-- One axis of `map_source_rect`: the ends of the mapped interval.
unfoldable pub mapped_start : (offset extent source left : ℕ) → ℕ
unfolding scale_floor
mapped_start offset extent source left =
    clamp (u32 (offset + scale_floor left extent source)) offset (sat_u32 (offset + extent))

unfoldable pub mapped_end : (offset extent source right : ℕ) → ℕ
unfolding scale_ceil
mapped_end offset extent source right =
    clamp (u32 (offset + scale_ceil right extent source)) offset (sat_u32 (offset + extent))

-- The sums of two i32 are exact in i64.
unfoldable pub map_source_rect : PresentationGeometry → Region → Option Rect
unfolding mapped_start mapped_end
map_source_rect g r =
    let left = clamp_to r.x ((g.source).width) in
    let top = clamp_to r.y ((g.source).height) in
    let right = clamp_to (r.x +ℤ r.w) ((g.source).width) in
    let bottom = clamp_to (r.y +ℤ r.h) ((g.source).height) in
    let clamped_left = mapped_start ((g.visible).x) ((g.visible).width) ((g.source).width) left in
    let clamped_top = mapped_start ((g.visible).y) ((g.visible).height) ((g.source).height) top in
    let clamped_right = mapped_end ((g.visible).x) ((g.visible).width) ((g.source).width) right in
    let clamped_bottom =
      mapped_end ((g.visible).y) ((g.visible).height) ((g.source).height) bottom in
    if not (is_positive r.w) || not (is_positive r.h)
    then none
    else if leb right left || leb bottom top
    then none
    else if leb clamped_right clamped_left || leb clamped_bottom clamped_top
    then none
    else some (record {
      x = clamped_left;
      y = clamped_top;
      width = clamped_right - clamped_left;
      height = clamped_bottom - clamped_top;
    })

-- One region through both `filter_map`s.
unfoldable pub map_region : Option Rect → List Region → List Region
map_region none rest = rest
map_region (some r) rest = elim (as_damage_tuple r) [ none ↦ rest | some t ↦ t ∷ rest ]

unfoldable pub map_source_damage : PresentationGeometry → List Region → List Region
unfolding map_region
map_source_damage g [] = []
map_source_damage g (r ∷ rs) = map_region (map_source_rect g r) (map_source_damage g rs)

-- One axis of `map_presentation_point_to_source`.
unfoldable pub point_to_source : (offset extent source v : ℕ) → ℕ
unfolding scale_floor
point_to_source offset extent source v =
    let last = sat_u32 (offset + extent) - 1 in
    let clamped = clamp v offset last in
    if clamped == last
    then source - 1
    else min (scale_floor (clamped - offset) source extent) (source - 1)

unfoldable pub map_presentation_point_to_source : PresentationGeometry → ℕ → ℕ → ℕ × ℕ
unfolding point_to_source
map_presentation_point_to_source g x y = (
  point_to_source ((g.visible).x) ((g.visible).width) ((g.source).width) x,
  point_to_source ((g.visible).y) ((g.visible).height) ((g.source).height) y,
)
