-- ===== src/Display/Geometry/Fit.antt =====
-- The visible rectangle of `PresentationGeometry::new` in src/display/geometry.rs.
use hypr_rdp.Base.{
  ℕ, ◌+◌, ◌-◌, ◌*◌, ◌/◌, ◌<◌, ◌≤◌, min, max, ◌≡◌, ◌⊎◌, inl, inr, ltb, u32_max, arith, Bool-cases,
}
use hypr_rdp.Display.Geometry.Scale.{mul-le, div_bounds, div-le}
use hypr_rdp.Display.Geometry.{Size, PresentationGeometry, visible_size, new}

-- A size that `Size::new` lets through.
pub record IsSize (s : Size) : Type 0 where
  pub width_pos : 0 < s.width
  pub width_u32 : s.width ≤ u32_max
  pub height_pos : 0 < s.height
  pub height_u32 : s.height ≤ u32_max

-- `part` of `whole` keeps the ratio `a : b` of the other side, up to rounding down and 1 at least.
pub record Fitted (part whole a b : ℕ) : Type 0 where
  pub fits : part ≤ whole
  pub lower : part * b ≤ a ⊎ part ≡ 1
  pub upper : a < (part + 1) * b

fit :
    (a b whole : ℕ)
    → 0 < b
    → 0 < whole
    → a ≤ whole * b
    → Fitted (min (max (a / b) 1) whole) whole a b
fit a b whole hb hw h =
    let q : a / b ≤ whole = div-le a b whole hb (omega arith) in
    record {
      fits = omega arith;
      lower = elim (Bool-cases (ltb (a / b) 1)) [
        | inl e ↦ inr (ground arith)
        | inr e ↦ inl (
            let same : min (max (a / b) 1) whole ≡ a / b = ground arith in
            rw same ((div_bounds a b hb).0))
      ];
      upper =
          let le : a / b ≤ min (max (a / b) 1) whole = omega arith in
          let m : (a / b) * b ≤ min (max (a / b) 1) whole * b = mul-le le (omega arith) in
          let top = (div_bounds a b hb).1 in omega arith;
    }

-- The geometry of a source size in a presentation size: the source keeps its size, and the visible
-- rectangle is not empty, stands in the presentation, centred, fills one of its sides, and keeps the
-- source's ratio on the other side.
pub record IsFit (source presentation : Size) (g : PresentationGeometry) : Type 0 where
  pub source_same : g.source ≡ source
  pub presentation_same : g.presentation ≡ presentation
  pub width_pos : 0 < (g.visible).width
  pub height_pos : 0 < (g.visible).height
  pub left : (g.visible).x ≡ (presentation.width - (g.visible).width) / 2
  pub top : (g.visible).y ≡ (presentation.height - (g.visible).height) / 2
  pub inside_width : (g.visible).width ≤ presentation.width
  pub inside_height : (g.visible).height ≤ presentation.height
  pub fills :
      ((g.visible).width ≡ presentation.width
        × Fitted
            ((g.visible).height)
            presentation.height
            (presentation.width * source.height)
            source.width)
      ⊎ ((g.visible).height ≡ presentation.height
          × Fitted
              ((g.visible).width)
              presentation.width
              (presentation.height * source.width)
              source.height)

-- Of two sizes that are not empty and fit u32, `new` makes such a geometry.
pub new-IsFit :
    (source presentation : Size)
    → IsSize source
    → IsSize presentation
    → IsFit source presentation (new source presentation)
unfolding new visible_size
new-IsFit source presentation hs hp =
    elim (Bool-cases
      (ltb (presentation.width * source.height) (source.width * presentation.height))) [
        | inl e ↦
            let f =
              fit (presentation.width * source.height) source.width presentation.height hs.width_pos
                hp.height_pos (ground arith) in
            rw e (ground (arith, f))
        | inr e ↦
            let f =
              fit (presentation.height * source.width) source.height presentation.width
                hs.height_pos hp.width_pos (ground arith) in
            rw e (ground (arith, f))
      ]
