-- ===== src/Egfx/ClearCodec/Tiles.antt =====
-- The tiles of src/egfx/clearcodec.rs: each pixel of a band's span lies in exactly one.
use hypr_rdp.Base.{
  ℕ, zero, suc, ◌+◌, ◌-◌, ◌≤◌, ◌<◌, min, ◌≡◌, Bool, true, false, ◌&&◌, List, [], ◌∷◌, ◌++◌, ltb,
  leb, arith, All, All-append,
}
use hypr_rdp.Egfx.ClearCodec.{ExclusiveRectangle, tile_columns, tile_rows, tile_end, u16_max}

abbrev pub within : ℕ → ℕ → ℕ → Bool
within l r p = leb l p && ltb p r

abbrev pub has_pixel : ExclusiveRectangle → ℕ → ℕ → Bool
has_pixel c px py = within c.left c.right px && within c.top c.bottom py

abbrev pub ind : Bool → ℕ
ind true = 1
ind false = 0

-- How many of the rectangles have the pixel.
abbrev pub hits : List ExclusiveRectangle → ℕ → ℕ → ℕ
hits [] px py = 0
hits (c ∷ cs) px py = ind (has_pixel c px py) + hits cs px py

pub hits-append :
    (cs ds : List ExclusiveRectangle) (px py : ℕ)
    → hits (cs ++ ds) px py ≡ hits cs px py + hits ds px py
hits-append [] ds px py = omega arith
hits-append (c ∷ cs) ds px py = omega (arith, hits-append cs ds px py)

-- At most 64 pixels a side.
abbrev pub IsTile : ExclusiveRectangle → Type 0
IsTile c = (c.right ≤ c.left + 64) × (c.bottom ≤ c.top + 64)

hits-tile_columns :
    (fuel y tile_bottom x right px py : ℕ)
    → px < u16_max
    → right ≤ fuel + x
    → hits (tile_columns fuel y tile_bottom x right) px py
      ≡ ind (within x right px && within y tile_bottom py)
unfolding tile_columns
hits-tile_columns zero y tile_bottom x right px py hp hf = ground arith
hits-tile_columns (suc fuel) y tile_bottom x right px py hp hf =
    ground (arith, hits-tile_columns fuel y tile_bottom (x + 64) right px py hp (omega arith))

pub hits-tile_rows :
    (fuel left right y bottom px py : ℕ)
    → px < u16_max
    → py < u16_max
    → bottom ≤ fuel + y
    → hits (tile_rows fuel left right y bottom) px py
      ≡ ind (within left right px && within y bottom py)
unfolding tile_rows
hits-tile_rows zero left right y bottom px py hp hq hf = ground arith
hits-tile_rows (suc fuel) left right y bottom px py hp hq hf =
    let row = tile_columns (right - left) y (min bottom (tile_end y)) left right in
    ground (
      arith,
      hits-append row (tile_rows fuel left right (y + 64) bottom) px py,
      hits-tile_columns (right - left) y (min bottom (tile_end y)) left right px py hp
          (omega arith),
      hits-tile_rows fuel left right (y + 64) bottom px py hp hq (omega arith),
    )

tile_columns-IsTile :
    (fuel y tile_bottom x right : ℕ)
    → tile_bottom ≤ y + 64
    → All IsTile (tile_columns fuel y tile_bottom x right)
unfolding tile_columns
tile_columns-IsTile zero y tile_bottom x right h = tt
tile_columns-IsTile (suc fuel) y tile_bottom x right h =
    ground (arith, tile_columns-IsTile fuel y tile_bottom (x + 64) right h)

pub tile_rows-IsTile :
    (fuel left right y bottom : ℕ) → All IsTile (tile_rows fuel left right y bottom)
unfolding tile_rows
tile_rows-IsTile zero left right y bottom = tt
tile_rows-IsTile (suc fuel) left right y bottom = ground (
  arith,
  All-append IsTile (tile_columns (right - left) y (min bottom (tile_end y)) left right)
      (tile_rows fuel left right (y + 64) bottom),
  tile_columns-IsTile (right - left) y (min bottom (tile_end y)) left right (omega arith),
  tile_rows-IsTile fuel left right (y + 64) bottom,
)
