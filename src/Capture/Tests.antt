-- ===== src/Capture/Tests.antt =====
-- The damage regions of src/capture/damage.rs at concrete frames.
use hypr_rdp.Base.{ℕ, ◌<◌, ◌≡◌, ◌↔◌, ◌⊎◌, inl, refl, true, some, List, [], ◌∷◌, All, arith, length}
use hypr_rdp.Base.Int.{pos, negsuc, sat_add}
use hypr_rdp.Capture.Damage.{
  Region, region, clamp_damage_region, merge_damage_region, merge_loop, damage_merge_distance,
}
use hypr_rdp.Capture.Damage.Detector.{FrameDiffDamageDetector, frame_tile_changed, detect}
use hypr_rdp.Capture.Damage.Clamp.{
  Covers, CoveredBy, InFrame, clamp_damage_region-some, clamp_damage_region-none,
}
use hypr_rdp.Capture.Damage.Merge.{merge_damage_region-Covers, merge_loop_fuel}
use hypr_rdp.Capture.Damage.Compare.{frame_tile_changed_complete}
use hypr_rdp.Capture.Damage.Detect.{detect_complete}

-- Two frames of 2 x 2 pixels, with rows of 8 bytes; the last pixel differs.
abbrev dark : List ℕ
dark = 0 ∷ 0 ∷ 0 ∷ 0 ∷ 0 ∷ 0 ∷ 0 ∷ 0 ∷ 0 ∷ 0 ∷ 0 ∷ 0 ∷ 0 ∷ 0 ∷ 0 ∷ 0 ∷ []

abbrev lit : List ℕ
lit = 0 ∷ 0 ∷ 0 ∷ 0 ∷ 0 ∷ 0 ∷ 0 ∷ 0 ∷ 0 ∷ 0 ∷ 0 ∷ 0 ∷ 0 ∷ 9 ∷ 0 ∷ 0 ∷ []

abbrev detector : FrameDiffDamageDetector
detector = record { reference_frame = some dark; reference_stride = 8 }

detect_complete_example : CoveredBy (detect detector lit 2 2 8 (region 0 0 2 2 ∷ [])) 1 1
detect_complete_example =
    detect_complete detector dark lit 2 2 8 (region 0 0 2 2 ∷ []) 1 1 1 refl (omega arith)
      (omega arith) (omega arith)
      (
        (
          (omega arith, omega arith),
          (omega arith, omega arith),
          (omega arith, omega arith),
          (omega arith, omega arith),
        ),
        tt,
      )
      (omega arith) (omega arith) (omega arith) (λ e. absurd (ground arith))
      (inl ((omega arith, omega arith), (omega arith, omega arith)))

frame_tile_changed_complete_example : frame_tile_changed lit dark 8 0 0 2 2 ≡ true
frame_tile_changed_complete_example =
    frame_tile_changed_complete lit dark 8 0 0 2 2 1 1 1 (omega arith) (omega arith) (omega arith)
      (omega arith) (omega arith) (omega arith) (λ e. absurd (ground arith))

-- A region that starts left of the frame, and one right of it.
abbrev left_of_frame : Region
left_of_frame = record { x = negsuc 4; y = pos 0; w = pos 10; h = pos 5 }

clamp_damage_region-some_example :
    InFrame 20 20 (region 0 0 5 5)
    × ((px py : ℕ)
        → Covers (region 0 0 5 5) px py ↔ (Covers left_of_frame px py × (px < 20) × (py < 20)))
unfolding clamp_damage_region sat_add
clamp_damage_region-some_example =
    clamp_damage_region-some left_of_frame 20 20
      (
        (omega arith, omega arith),
        (omega arith, omega arith),
        (omega arith, omega arith),
        (omega arith, omega arith),
      )
      refl

clamp_damage_region-none_example : ¬ Covers (region 30 0 5 5) 3 3
unfolding clamp_damage_region sat_add
clamp_damage_region-none_example =
    clamp_damage_region-none (region 30 0 5 5) 20 20 3 3
      (
        (omega arith, omega arith),
        (omega arith, omega arith),
        (omega arith, omega arith),
        (omega arith, omega arith),
      )
      (omega arith) (omega arith) refl (omega arith) (omega arith)

-- Two regions, the second near the new one.
abbrev pending_regions : List Region
pending_regions = region 200 200 10 10 ∷ region 0 0 10 10 ∷ []

merge_damage_region-Covers_example :
    All (InFrame 300 300) (merge_damage_region pending_regions (region 20 0 10 10))
    × ((px py : ℕ)
        → CoveredBy pending_regions px py ⊎ Covers (region 20 0 10 10) px py
        → CoveredBy (merge_damage_region pending_regions (region 20 0 10 10)) px py)
merge_damage_region-Covers_example =
    merge_damage_region-Covers 300 300 pending_regions (region 20 0 10 10) (omega arith)
      (omega arith) (ground arith, (ground arith, tt)) (ground arith)

merge_loop_fuel_example :
    merge_loop 9 [] pending_regions (region 20 0 10 10) damage_merge_distance
    ≡ merge_loop
        (length pending_regions)
        []
        pending_regions
        (region 20 0 10 10)
        damage_merge_distance
merge_loop_fuel_example =
    merge_loop_fuel 9 [] pending_regions (region 20 0 10 10) damage_merge_distance (omega arith)
