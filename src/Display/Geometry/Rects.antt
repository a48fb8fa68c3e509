-- ===== src/Display/Geometry/Rects.antt =====
-- `map_source_rect` and `map_source_damage` of src/display/geometry.rs: no damaged pixel is lost.
use hypr_rdp.Base.{
  ℕ, ◌+◌, ◌-◌, ◌*◌, ◌<◌, ◌≤◌, ◌≡◌, true, false, inl, inr, some, leb, ltb, u32, sat_u32, clamp,
  u32_max, arith, Bool-cases, refl,
}
use hypr_rdp.Base.Int.{ℤ, pos_part, neg_part, ◌+ℤ◌}
use hypr_rdp.Capture.Damage.{Region, clamp_to, is_positive}
use hypr_rdp.Capture.Damage.Clamp.{Covers, Within}
use hypr_rdp.Display.Geometry.Scale.{mul-le, scale_floor_bounds, scale_ceil_bounds}
use hypr_rdp.Display.Geometry.Fit.{IsSize, new-IsFit}
use hypr_rdp.Display.Geometry.{
  Size, Rect, PresentationGeometry, new, mapped_start, mapped_end, map_source_rect, scale_floor,
  scale_ceil,
}

-- One axis: the interval [start, start + n) of the presentation stands in [offset, offset + extent)
-- and holds the whole image of the source pixel `p` of `source` pixels.
pub record Holds (offset extent source p start n : ℕ) : Type 0 where
  pub lower : offset ≤ start
  pub upper : start + n ≤ offset + extent
  pub first : start * source ≤ offset * source + p * extent
  pub last : offset * source + (p + 1) * extent ≤ (start + n) * source

mapped_start_bounds :
    (offset extent source left p : ℕ)
    → 0 < source
    → offset + extent ≤ u32_max
    → left ≤ p
    → p < source
    → (offset ≤ mapped_start offset extent source left)
      × (mapped_start offset extent source left ≤ offset + extent)
      × (mapped_start offset extent source left * source ≤ offset * source + p * extent)
unfolding mapped_start
mapped_start_bounds offset extent source left p hs hf hl hp = rw exact ground (arith, b, m)
  where
    b :
        (scale_floor left extent source ≤ extent)
        × (scale_floor left extent source * source ≤ left * extent)
        × (left * extent < scale_floor left extent source * source + source)
    b = scale_floor_bounds left extent source hs (omega arith) (omega arith)

    m : left * extent ≤ p * extent
    m = mul-le hl (omega arith)

    exact :
        clamp (u32 (offset + scale_floor left extent source)) offset (sat_u32 (offset + extent))
        ≡ offset + scale_floor left extent source
    exact = ground (arith, b)

mapped_end_bounds :
    (offset extent source right p : ℕ)
    → source ≤ u32_max
    → offset + extent ≤ u32_max
    → p < right
    → right ≤ source
    → (mapped_end offset extent source right ≤ offset + extent)
      × (offset * source + (p + 1) * extent ≤ mapped_end offset extent source right * source)
unfolding mapped_end
mapped_end_bounds offset extent source right p hs hf hl hp = rw exact ground (arith, b, m)
  where
    b :
        (scale_ceil right extent source ≤ extent)
        × (right * extent ≤ scale_ceil right extent source * source)
        × (scale_ceil right extent source * source < right * extent + source)
    b = scale_ceil_bounds right extent source (omega arith) hp (omega arith) hs

    m : (p + 1) * extent ≤ right * extent
    m = mul-le (omega arith) (omega arith)

    exact :
        clamp (u32 (offset + scale_ceil right extent source)) offset (sat_u32 (offset + extent))
        ≡ offset + scale_ceil right extent source
    exact = ground (arith, b)

-- One axis of the mapping, for a pixel between the ends.
axis-Holds :
    (offset extent source left right p : ℕ)
    → source ≤ u32_max
    → 0 < extent
    → offset + extent ≤ u32_max
    → left ≤ p
    → p < right
    → right ≤ source
    → (mapped_start offset extent source left < mapped_end offset extent source right)
      × Holds offset extent source p
          (mapped_start offset extent source left)
          (mapped_end offset extent source right - mapped_start offset extent source left)
axis-Holds offset extent source left right p hs he hf hl hp hr =
    (strict, ground (arith, a, b, strict, together))
  where
    a :
        (offset ≤ mapped_start offset extent source left)
        × (mapped_start offset extent source left ≤ offset + extent)
        × (mapped_start offset extent source left * source ≤ offset * source + p * extent)
    a = mapped_start_bounds offset extent source left p (omega arith) hf hl (omega arith)

    b :
        (mapped_end offset extent source right ≤ offset + extent)
        × (offset * source + (p + 1) * extent ≤ mapped_end offset extent source right * source)
    b = mapped_end_bounds offset extent source right p hs hf hp hr

    strict : mapped_start offset extent source left < mapped_end offset extent source right
    strict =
        elim (Bool-cases
          (ltb (mapped_start offset extent source left) (mapped_end offset extent source right))) [
            | inl e ↦ ground arith
            | inr e ↦
                let back : mapped_end offset extent source right
                    ≤ mapped_start offset extent source left =
                  ground arith in
                let m : mapped_end offset extent source right * source
                    ≤ mapped_start offset extent source left * source =
                  mul-le back (omega arith) in
                absurd (ground (arith, a, b, m))
          ]

    together :
        mapped_start offset extent source left
          + (mapped_end offset extent source right - mapped_start offset extent source left)
        ≡ mapped_end offset extent source right
    together = omega (arith, strict)

-- A pixel of the interval and of the frame lies between the clamped ends.
clamped_ends :
    (x w : ℤ) (limit p : ℕ)
    → Within x w p
    → p < limit
    → (clamp_to x limit ≤ p)
      × (p < clamp_to (x +ℤ w) limit)
      × (clamp_to (x +ℤ w) limit ≤ limit)
      × (0 < pos_part w + neg_part w)
unfolding ◌+ℤ◌
clamped_ends x w limit p h l = ground arith

-- The geometry maps the region to a rectangle that holds the image of the source pixel (px, py).
abbrev pub Shown : PresentationGeometry → Region → ℕ → ℕ → Type 0
Shown g r px py =
    (t : Rect) × (map_source_rect g r ≡ some t)
    × Holds ((g.visible).x) ((g.visible).width) ((g.source).width) px t.x t.width
    × Holds ((g.visible).y) ((g.visible).height) ((g.source).height) py t.y t.height

mapped_is_some :
    (g : PresentationGeometry) (r : Region)
    → (is_positive r.w ≡ true) × (is_positive r.h ≡ true)
    → clamp_to r.x ((g.source).width) < clamp_to (r.x +ℤ r.w) ((g.source).width)
    → clamp_to r.y ((g.source).height) < clamp_to (r.y +ℤ r.h) ((g.source).height)
    → mapped_start
        ((g.visible).x)
        ((g.visible).width)
        ((g.source).width)
        (clamp_to r.x ((g.source).width))
      < mapped_end
          ((g.visible).x)
          ((g.visible).width)
          ((g.source).width)
          (clamp_to (r.x +ℤ r.w) ((g.source).width))
    → mapped_start
        ((g.visible).y)
        ((g.visible).height)
        ((g.source).height)
        (clamp_to r.y ((g.source).height))
      < mapped_end
          ((g.visible).y)
          ((g.visible).height)
          ((g.source).height)
          (clamp_to (r.y +ℤ r.h) ((g.source).height))
    → map_source_rect g r
      ≡ some (record {
        x =
            mapped_start
              ((g.visible).x)
              ((g.visible).width)
              ((g.source).width)
              (clamp_to r.x ((g.source).width));
        y =
            mapped_start
              ((g.visible).y)
              ((g.visible).height)
              ((g.source).height)
              (clamp_to r.y ((g.source).height));
        width =
            mapped_end
              ((g.visible).x)
              ((g.visible).width)
              ((g.source).width)
              (clamp_to (r.x +ℤ r.w) ((g.source).width))
            - mapped_start
                ((g.visible).x)
                ((g.visible).width)
                ((g.source).width)
                (clamp_to r.x ((g.source).width));
        height =
            mapped_end
              ((g.visible).y)
              ((g.visible).height)
              ((g.source).height)
              (clamp_to (r.y +ℤ r.h) ((g.source).height))
            - mapped_start
                ((g.visible).y)
                ((g.visible).height)
                ((g.source).height)
                (clamp_to r.y ((g.source).height));
      })
unfolding map_source_rect
mapped_is_some g r p a b c d = rw (p.0, p.1, lt_ends a, lt_ends b, lt_ends c, lt_ends d) refl
  where
    lt_ends : {m n : ℕ} → m < n → leb n m ≡ false
    lt_ends h = ground arith

shown :
    (g : PresentationGeometry) (r : Region) (px py : ℕ)
    → (g.source).width ≤ u32_max × (g.source).height ≤ u32_max
    → 0 < (g.visible).width × 0 < (g.visible).height
    → (g.visible).x + (g.visible).width ≤ u32_max
    → (g.visible).y + (g.visible).height ≤ u32_max
    → Covers r px py
    → px < (g.source).width
    → py < (g.source).height
    → Shown g r px py
shown g r px py hs hp fx fy c lx ly =
    let ex = clamped_ends r.x r.w ((g.source).width) px c.0 lx in
    let ey = clamped_ends r.y r.h ((g.source).height) py c.1 ly in
    let x =
      axis-Holds ((g.visible).x) ((g.visible).width) ((g.source).width)
        (clamp_to r.x ((g.source).width)) (clamp_to (r.x +ℤ r.w) ((g.source).width)) px hs.0 hp.0 fx
        ex.0 ex.1 ex.2 in
    let y =
      axis-Holds ((g.visible).y) ((g.visible).height) ((g.source).height)
        (clamp_to r.y ((g.source).height)) (clamp_to (r.y +ℤ r.h) ((g.source).height)) py hs.1 hp.1
        fy ey.0 ey.1 ey.2 in
    (
      _,
      mapped_is_some g r (ground arith, ground arith) (omega (arith, ex)) (omega (arith, ey)) x.0
          y.0,
      x.1,
      y.1,
    )

-- Every pixel (px, py) of the source that a damage region covers is shown: in the geometry of two
-- sizes, the region maps to a rectangle, this rectangle stands in the visible one, and it holds the
-- whole scaled image of the pixel, on both axes.
pub map_source_rect_complete :
    (source presentation : Size) (r : Region) (px py : ℕ)
    → IsSize source
    → IsSize presentation
    → Covers r px py
    → px < source.width
    → py < source.height
    → Shown (new source presentation) r px py
unfolding new
map_source_rect_complete source presentation r px py hs hp c lx ly =
    let f = new-IsFit source presentation hs hp in
    shown (new source presentation) r px py (hs.width_u32, hs.height_u32)
      (f.width_pos, f.height_pos) (ground (arith, f.left, f.inside_width, hp.width_u32))
      (ground (arith, f.top, f.inside_height, hp.height_u32)) c lx ly
