-- ===== src/Capture/Damage/Detector.antt =====
-- The comparison of a frame with the reference, in src/capture/damage.rs: the tiles that changed, the
-- detector with its reference frame, and the pixels of regions. A frame is a list of bytes.
use hypr_rdp.Base.{
  ℕ, zero, suc, ◌+◌, ◌-◌, ◌*◌, ◌%◌, min, Bool, true, false, not, ◌&&◌, ◌||◌, Option, none, some,
  List, [], ◌∷◌, ◌++◌, ltb, leb, ◌==◌, if◌then◌else◌, length, take, drop, sat_u64,
}
use hypr_rdp.Base.Int.{pos_part, sat_add}
use hypr_rdp.Capture.Damage.{
  damage_tile_size, Region, region, clamp_to, is_positive, clamp_damage_region,
  push_unique_damage_region,
}

unfoldable pub same_bytes : List ℕ → List ℕ → Bool
same_bytes [] [] = true
same_bytes (a ∷ as') (b ∷ bs) = if a == b then same_bytes as' bs else false
same_bytes _ _ = false

-- `data[start..start + n]`, in bounds where it is used.
abbrev pub slice : List ℕ → ℕ → ℕ → List ℕ
slice bytes start n = take n (drop start bytes)

-- One row of `frame_tile_changed`.
unfoldable pub row_changed : List ℕ → List ℕ → ℕ → ℕ → ℕ → ℕ → Bool
unfolding same_bytes
row_changed current reference stride row x width_bytes =
    let start = sat_u64 (sat_u64 (row * stride) + x * 4) in
    let end' = sat_u64 (start + width_bytes) in
    if ltb (length current) end' || ltb (length reference) end'
    then true
    else not
        (same_bytes (slice current start (end' - start)) (slice reference start (end' - start)))

-- The rows `y`, `y + 1`, … of a tile; the first changed row ends the loop.
unfoldable pub rows_changed : ℕ → List ℕ → List ℕ → ℕ → ℕ → ℕ → ℕ → Bool
unfolding row_changed
rows_changed zero current reference stride y x width_bytes = false
rows_changed (suc height) current reference stride y x width_bytes =
    let rest = rows_changed height current reference stride (y + 1) x width_bytes in
    if row_changed current reference stride y x width_bytes then true else rest

unfoldable pub frame_tile_changed : List ℕ → List ℕ → ℕ → ℕ → ℕ → ℕ → ℕ → Bool
unfolding rows_changed
frame_tile_changed current reference stride x y width height =
    if width == 0 || height == 0
    then false
    else rows_changed height current reference stride y x (width * 4)

abbrev pub push_if : Bool → List Region → Region → List Region
push_if true regions r = push_unique_damage_region regions r
push_if false regions r = regions

-- `tile_x += DAMAGE_TILE_SIZE` of an i32, where it wraps around. Past the end of the type the position
-- is negative; `frame_tile_changed` is false at every negative position, and the first one after them
-- is the remainder.
abbrev pub next_tile : ℕ → ℕ
next_tile tile = (tile + damage_tile_size) % 2147483648

-- The inner loop of `detect`, over `tile_x`; the fuel is the width that is left, which is enough where
-- no position wraps around.
unfoldable pub scan_columns :
    ℕ → List ℕ → List ℕ → ℕ → (tile_y tile_h tile_x right : ℕ) → List Region → List Region
scan_columns zero current reference stride tile_y tile_h tile_x right regions = regions
scan_columns (suc fuel) current reference stride tile_y tile_h tile_x right regions =
    let tile_w = min damage_tile_size (right - tile_x) in
    let changed = frame_tile_changed current reference stride tile_x tile_y tile_w tile_h in
    let found = push_if changed regions (region tile_x tile_y tile_w tile_h) in
    let rest =
      scan_columns fuel current reference stride tile_y tile_h (next_tile tile_x) right found in
    if ltb tile_x right then rest else regions

-- The outer loop, over `tile_y`; the fuel is the height that is left.
unfoldable pub scan_rows :
    ℕ → List ℕ → List ℕ → ℕ → (left right tile_y bottom : ℕ) → List Region → List Region
scan_rows zero current reference stride left right tile_y bottom regions = regions
scan_rows (suc fuel) current reference stride left right tile_y bottom regions =
    let tile_h = min damage_tile_size (bottom - tile_y) in
    let found =
      scan_columns (right - left) current reference stride tile_y tile_h left right regions in
    let rest = scan_rows fuel current reference stride left right (next_tile tile_y) bottom found in
    if ltb tile_y bottom then rest else regions

-- One candidate: its clamped region is scanned.
unfoldable pub scan_candidate : List ℕ → List ℕ → ℕ → Option Region → List Region → List Region
scan_candidate current reference stride none regions = regions
scan_candidate current reference stride (some c) regions =
    let left = pos_part c.x in
    let top = pos_part c.y in
    let right = left + pos_part c.w in
    let bottom = top + pos_part c.h in
    scan_rows (bottom - top) current reference stride left right top bottom regions

unfoldable pub scan_candidates :
    List ℕ → List ℕ → (width height stride : ℕ) → List Region → List Region → List Region
scan_candidates current reference width height stride [] regions = regions
scan_candidates current reference width height stride (c ∷ cs) regions =
    scan_candidates current reference width height stride cs
      (scan_candidate current reference stride (clamp_damage_region c width height) regions)

pub record FrameDiffDamageDetector : Type 0 where
  pub reference_frame : Option (List ℕ)
  pub reference_stride : ℕ

abbrev pub new_detector : FrameDiffDamageDetector
new_detector = record { reference_frame = none; reference_stride = 0 }

unfoldable pub invalidate : FrameDiffDamageDetector → FrameDiffDamageDetector
invalidate d = record { reference_frame = none; reference_stride = 0 }

-- `width as i32`: a width from 2^31 on would come out negative, which the caller excludes.
abbrev pub full_frame : ℕ → ℕ → List Region
full_frame width height = region 0 0 width height ∷ []

-- `detect` past the first `let else`.
unfoldable pub detect_against :
    List ℕ
    → FrameDiffDamageDetector
    → List ℕ
    → (width height stride : ℕ) → List Region
    → List Region
detect_against reference d current width height stride candidates =
    let frame_len = sat_u64 (stride * height) in
    if not (d.reference_stride == stride)
      || ltb (length reference) frame_len
      || ltb (length current) frame_len
    then full_frame width height
    else scan_candidates current reference width height stride candidates []

unfoldable pub detect :
    FrameDiffDamageDetector → List ℕ → (width height stride : ℕ) → List Region → List Region
unfolding detect_against
detect d current width height stride candidates = elim d.reference_frame [
  | none ↦ full_frame width height
  | some reference ↦ detect_against reference d current width height stride candidates
]

unfoldable pub update_reference : FrameDiffDamageDetector → List ℕ → ℕ → ℕ → FrameDiffDamageDetector
update_reference d bytes height stride = record {
  reference_frame = some (take (min (sat_u64 (stride * height)) (length bytes)) bytes);
  reference_stride = stride;
}

-- `reference[start..end].copy_from_slice(&data[start..end])`.
abbrev pub overwrite : List ℕ → List ℕ → ℕ → ℕ → List ℕ
overwrite reference bytes start n =
    take start reference ++ (slice bytes start n ++ drop (start + n) reference)

-- The rows of one region.
unfoldable pub copy_rows : ℕ → List ℕ → List ℕ → ℕ → (row left width_bytes : ℕ) → List ℕ
copy_rows zero reference bytes stride row left width_bytes = reference
copy_rows (suc n) reference bytes stride row left width_bytes =
    let start = sat_u64 (sat_u64 (row * stride) + left * 4) in
    let end' = sat_u64 (start + width_bytes) in
    let fits = leb end' (length bytes) && leb end' (length reference) in
    copy_rows n (if fits then overwrite reference bytes start (end' - start) else reference) bytes
      stride (row + 1) left width_bytes

copy_region : List ℕ → List ℕ → ℕ → Option Region → List ℕ
copy_region reference bytes stride none = reference
copy_region reference bytes stride (some c) =
    copy_rows (pos_part c.h) reference bytes stride (pos_part c.y) (pos_part c.x) (pos_part c.w * 4)

unfoldable pub copy_regions : List ℕ → List ℕ → (width height stride : ℕ) → List Region → List ℕ
unfolding copy_region
copy_regions reference bytes width height stride [] = reference
copy_regions reference bytes width height stride (r ∷ rs) =
    copy_regions (copy_region reference bytes stride (clamp_damage_region r width height)) bytes
      width height stride rs

unfoldable pub update_reference_regions :
    FrameDiffDamageDetector
    → List ℕ
    → (width height stride : ℕ) → List Region
    → FrameDiffDamageDetector
unfolding update_reference
update_reference_regions d bytes width height stride regions = elim d.reference_frame [
  | none ↦ update_reference d bytes height stride
  | some reference ↦
      if not (d.reference_stride == stride) || ltb (length reference) (sat_u64 (stride * height))
      then update_reference d bytes height stride
      else record d {
        reference_frame = some (copy_regions reference bytes width height stride regions);
      }
]

-- The pixels of one region in the frame. `width as i32` is taken to be exact.
unfoldable pub region_pixels : Region → ℕ → ℕ → ℕ
region_pixels r width height =
    let left = clamp_to r.x width in
    let top = clamp_to r.y height in
    let right = clamp_to (sat_add r.x r.w) width in
    let bottom = clamp_to (sat_add r.y r.h) height in
    if not (is_positive r.w) || not (is_positive r.h)
    then 0
    else if leb right left || leb bottom top
    then 0
    else (right - left) * (bottom - top)

unfoldable pub damage_area_pixels : List Region → ℕ → ℕ → ℕ
unfolding region_pixels
damage_area_pixels [] width height = 0
damage_area_pixels (r ∷ rs) width height =
    region_pixels r width height + damage_area_pixels rs width height
