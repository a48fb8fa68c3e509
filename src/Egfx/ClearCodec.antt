-- ===== src/Egfx/ClearCodec.antt =====
-- src/egfx/clearcodec.rs: the packing of damage into ClearCodec rectangles, and the protocol of the
-- encoder's state. The encoder is a parameter. Coordinates are u16, `usize` has 64 bits.
pub mod Tiles
pub mod Spans
pub mod Bands
pub mod Exact
pub mod Encoder
mod Tests
use hypr_rdp.Base.{
  ℕ, zero, suc, ◌+◌, ◌-◌, ◌*◌, min, max, Bool, true, false, not, ◌&&◌, ◌||◌, Option, none, some,
  List, [], ◌∷◌, ◌++◌, ltb, leb, ◌==◌, if◌then◌else◌, length, u64_max,
}
use hypr_rdp.Base.Int.{◌+ℤ◌}
use hypr_rdp.Capture.Damage.{Region, clamp_to, is_positive}

abbrev pub u16_max : ℕ
u16_max = 65535

-- The formats that the code names; `other_format` stands for the rest.
pub data PixelFormat : Type 0 where
  bgra32 bgrx32 rgba32 rgbx32 other_format : PixelFormat

pub record ExclusiveRectangle : Type 0 where
  pub left : ℕ
  pub top : ℕ
  pub right : ℕ
  pub bottom : ℕ

pub record ClearCodecInput : Type 0 where
  pub bytes : List ℕ
  pub stride : ℕ
  pub pixel_format : PixelFormat
  pub rectangles : List ExclusiveRectangle

-- The five `ensure!`s and `ok_or_else`s of `new`.
pub data InputError : Type 0 where
  unsupported_format empty_frame short_stride length_overflow short_buffer : InputError

pub data InputResult : Type 0 where
  refused : InputError → InputResult
  packed : ClearCodecInput → InputResult

abbrev pub is_supported : PixelFormat → Bool
is_supported other_format = false
is_supported _ = true

-- One region clipped to the frame; the sums of i32 are exact in i64.
unfoldable pub clip : ℕ → ℕ → Region → Option ExclusiveRectangle
clip width height r =
    let l = clamp_to r.x width in
    let t = clamp_to r.y height in
    let right = clamp_to (r.x +ℤ r.w) width in
    let bottom = clamp_to (r.y +ℤ r.h) height in
    if not (is_positive r.w) || not (is_positive r.h)
    then none
    else if ltb l right && ltb t bottom
    then some (record { left = l; top = t; right = right; bottom = bottom })
    else none

abbrev pub keep_some : Option ExclusiveRectangle → List ExclusiveRectangle → List ExclusiveRectangle
keep_some none cs = cs
keep_some (some c) cs = c ∷ cs

unfoldable pub clipped : ℕ → ℕ → List Region → List ExclusiveRectangle
clipped width height [] = []
clipped width height (r ∷ rs) = keep_some (clip width height r) (clipped width height rs)

-- `sort_unstable` of numbers: equal ones cannot be told apart.
unfoldable pub insert_number : ℕ → List ℕ → List ℕ
insert_number y [] = y ∷ []
insert_number y (z ∷ zs) = if leb y z then y ∷ (z ∷ zs) else z ∷ insert_number y zs

unfoldable pub sort_numbers : List ℕ → List ℕ
sort_numbers [] = []
sort_numbers (y ∷ ys) = insert_number y (sort_numbers ys)

-- `dedup`: of equal neighbours, the first stays.
unfoldable pub dedup_from : ℕ → List ℕ → List ℕ
dedup_from y [] = y ∷ []
dedup_from y (z ∷ zs) = if y == z then dedup_from y zs else y ∷ dedup_from z zs

unfoldable pub dedup : List ℕ → List ℕ
dedup [] = []
dedup (y ∷ ys) = dedup_from y ys

unfoldable pub edges : List ExclusiveRectangle → List ℕ
edges [] = []
edges (c ∷ cs) = c.top ∷ (c.bottom ∷ edges cs)

-- The spans of the clipped rectangles that reach across the whole band.
unfoldable pub spans_of : List ExclusiveRectangle → (top bottom : ℕ) → List (ℕ × ℕ)
spans_of [] top bottom = []
spans_of (c ∷ cs) top bottom =
    if leb c.top top && leb bottom c.bottom
    then (c.left, c.right) ∷ spans_of cs top bottom
    else spans_of cs top bottom

-- The order of tuples: first by the left ends.
abbrev pub span_le : ℕ × ℕ → ℕ × ℕ → Bool
span_le (l, r) (m, s) = if l == m then leb r s else ltb l m

unfoldable pub insert_span : ℕ × ℕ → List (ℕ × ℕ) → List (ℕ × ℕ)
insert_span a [] = a ∷ []
insert_span a (b ∷ bs) = if span_le a b then a ∷ (b ∷ bs) else b ∷ insert_span a bs

unfoldable pub sort_spans : List (ℕ × ℕ) → List (ℕ × ℕ)
sort_spans [] = []
sort_spans (a ∷ rest) = insert_span a (sort_spans rest)

-- The loop over the sorted spans; `last_l` and `last_r` are the last element of `merged`.
unfoldable pub merge_spans : (last_l last_r : ℕ) → List (ℕ × ℕ) → List (ℕ × ℕ)
merge_spans last_l last_r [] = (last_l, last_r) ∷ []
merge_spans last_l last_r ((l, r) ∷ rest) = elim (leb l last_r) [
  | true ↦ merge_spans last_l (max last_r r) rest
  | false ↦ (last_l, last_r) ∷ merge_spans l r rest
]

unfoldable pub merged_spans : List (ℕ × ℕ) → List (ℕ × ℕ)
merged_spans [] = []
merged_spans ((l, r) ∷ rest) = merge_spans l r rest

-- `a.saturating_add(64)` of u16.
abbrev pub tile_end : ℕ → ℕ
tile_end x = min (x + 64) u16_max

-- The loop over `x`; the fuel is the width that is left.
unfoldable pub tile_columns : ℕ → (y tile_bottom x right : ℕ) → List ExclusiveRectangle
tile_columns zero y tile_bottom x right = []
tile_columns (suc fuel) y tile_bottom x right =
    let rest = tile_columns fuel y tile_bottom (x + 64) right in
    if ltb x right
    then record { left = x; top = y; right = min right (tile_end x); bottom = tile_bottom } ∷ rest
    else []

-- The loop over `y`; the fuel is the height that is left.
unfoldable pub tile_rows : ℕ → (left right y bottom : ℕ) → List ExclusiveRectangle
tile_rows zero left right y bottom = []
tile_rows (suc fuel) left right y bottom =
    let row = tile_columns (right - left) y (min bottom (tile_end y)) left right in
    let rest = tile_rows fuel left right (y + 64) bottom in if ltb y bottom then row ++ rest else []

unfoldable pub band_tiles : List (ℕ × ℕ) → (top bottom : ℕ) → List ExclusiveRectangle
band_tiles [] top bottom = []
band_tiles ((l, r) ∷ rest) top bottom =
    tile_rows (bottom - top) l r top bottom ++ band_tiles rest top bottom

-- One pass of the loop over `ys.windows(2)`, and the loop.
unfoldable pub band : List ExclusiveRectangle → (top bottom : ℕ) → List ExclusiveRectangle
band cs top bottom = band_tiles (merged_spans (sort_spans (spans_of cs top bottom))) top bottom

unfoldable pub bands : List ExclusiveRectangle → List ℕ → List ExclusiveRectangle
bands cs [] = []
bands cs (y ∷ []) = []
bands cs (y ∷ (z ∷ zs)) = band cs y z ++ bands cs (z ∷ zs)

unfoldable pub pack : (width height : ℕ) → List Region → List ExclusiveRectangle
pack width height damage =
    let cs = clipped width height damage in bands cs (dedup (sort_numbers (edges cs)))

unfoldable pub new_input :
    List ℕ → (width height stride : ℕ) → List Region → PixelFormat → InputResult
new_input bytes width height stride damage format =
    if not (is_supported format)
    then refused unsupported_format
    else if width == 0 || height == 0
    then refused empty_frame
    else if ltb stride (width * 4)
    then refused short_stride
    else if ltb u64_max (stride * height)
    then refused length_overflow
    else if ltb (length bytes) (stride * height)
    then refused short_buffer
    else packed (record {
      bytes = bytes;
      stride = stride;
      pixel_format = format;
      rectangles = pack width height damage;
    })
