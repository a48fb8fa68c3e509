-- ===== src/Display/Tests.antt =====
-- The geometry of src/display/geometry.rs for a wide screen shown on a narrower one.
use hypr_rdp.Base.{arith}
use hypr_rdp.Capture.Damage.{region}
use hypr_rdp.Display.Geometry.{Size, new}
use hypr_rdp.Display.Geometry.Fit.{IsSize, IsFit, new-IsFit}
use hypr_rdp.Display.Geometry.Rects.{Shown, map_source_rect_complete}

abbrev screen : Size
screen = record { width = 1920; height = 1080 }

abbrev tablet : Size
tablet = record { width = 1024; height = 768 }

screen-IsSize : IsSize screen
screen-IsSize = record {
  width_pos = omega arith;
  width_u32 = omega arith;
  height_pos = omega arith;
  height_u32 = omega arith;
}

tablet-IsSize : IsSize tablet
tablet-IsSize = record {
  width_pos = omega arith;
  width_u32 = omega arith;
  height_pos = omega arith;
  height_u32 = omega arith;
}

new-IsFit_example : IsFit screen tablet (new screen tablet)
new-IsFit_example = new-IsFit screen tablet screen-IsSize tablet-IsSize

map_source_rect_complete_example : Shown (new screen tablet) (region 100 100 3 3) 101 102
map_source_rect_complete_example =
    map_source_rect_complete screen tablet (region 100 100 3 3) 101 102 screen-IsSize tablet-IsSize
      ((omega arith, omega arith), (omega arith, omega arith)) (omega arith) (omega arith)
