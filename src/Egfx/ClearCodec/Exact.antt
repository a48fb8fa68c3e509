-- ===== src/Egfx/ClearCodec/Exact.antt =====
-- The rectangles of src/egfx/clearcodec.rs are the exact union of the damage.
use hypr_rdp.Base.{
  ℕ, ◌≤◌, ◌<◌, ◌≡◌, refl, Bool, false, not, ◌&&◌, ◌||◌, Option, none, some, List, [], ◌∷◌, ltb,
  if◌then◌else◌, arith, inl, inr, All, All-append,
}
use hypr_rdp.Base.Int.{ℤ, pos, ◌+ℤ◌, leb_ℤ, ltb_ℤ}
use hypr_rdp.Capture.Damage.{Region, clamp_to, is_positive}
use hypr_rdp.Egfx.ClearCodec.{
  ExclusiveRectangle, u16_max, clip, clipped, keep_some, sort_numbers, dedup, edges, band, bands,
  pack,
}
use hypr_rdp.Egfx.ClearCodec.Tiles.{within, has_pixel, ind, hits, IsTile}
use hypr_rdp.Egfx.ClearCodec.Spans.{band-IsTile}
use hypr_rdp.Egfx.ClearCodec.Bands.{
  OneOf, Rising, EdgesIn, MoreThan, any_pixel, bands-hits, dedup-Rising, dedup-OneOf,
  sort_numbers-OneOf, sort_numbers-Ascending, MoreThan-OneOf,
}

-- Whether the interval of length `w` from `x` has `p`, over the integers.
abbrev pub on_axis : ℤ → ℤ → ℕ → Bool
on_axis x w p = leb_ℤ x (pos p) && ltb_ℤ (pos p) (x +ℤ w)

abbrev pub is_damaged : Region → ℕ → ℕ → Bool
is_damaged r px py = on_axis r.x r.w px && on_axis r.y r.h py

abbrev pub any_damaged : List Region → ℕ → ℕ → Bool
any_damaged [] px py = false
any_damaged (r ∷ rs) px py = is_damaged r px py || any_damaged rs px py

kept : Option ExclusiveRectangle → ℕ → ℕ → Bool
kept none px py = false
kept (some c) px py = has_pixel c px py

clamped_axis :
    (x w : ℤ) (limit p : ℕ)
    → p < limit
    → within (clamp_to x limit) (clamp_to (x +ℤ w) limit) p ≡ on_axis x w p
clamped_axis x w limit p h = clamped_from x (x +ℤ w)
  where
    clamped_from :
        (a b : ℤ)
        → within (clamp_to a limit) (clamp_to b limit) p ≡ (leb_ℤ a (pos p) && ltb_ℤ (pos p) b)
    clamped_from a b = ground arith

not_positive : (x w : ℤ) (p : ℕ) → is_positive w ≡ false → on_axis x w p ≡ false
unfolding ◌+ℤ◌
not_positive x w p h = ground arith

-- The guards of `clip`, once the axes are known.
guarded :
    (l t right bottom px py : ℕ) (w_ok h_ok : Bool) {a b : Bool}
    → within l right px ≡ a
    → within t bottom py ≡ b
    → (w_ok ≡ false → a ≡ false)
    → (h_ok ≡ false → b ≡ false)
    → kept
        (if not w_ok || not h_ok
          then none
          else if ltb l right && ltb t bottom
          then some (record { left = l; top = t; right = right; bottom = bottom })
          else none)
        px
        py
      ≡ (a && b)
unfolding kept
guarded l t right bottom px py w_ok h_ok ea eb ha hb = ground arith

kept-clip :
    (width height : ℕ) (r : Region) (px py : ℕ)
    → px < width
    → py < height
    → kept (clip width height r) px py ≡ is_damaged r px py
unfolding clip
kept-clip width height r px py lx ly =
    guarded (clamp_to r.x width) (clamp_to r.y height) (clamp_to (r.x +ℤ r.w) width)
      (clamp_to (r.y +ℤ r.h) height) px py (is_positive r.w) (is_positive r.h)
      (clamped_axis r.x r.w width px lx) (clamped_axis r.y r.h height py ly)
      (not_positive r.x r.w px) (not_positive r.y r.h py)

any_pixel-keep_some :
    (o : Option ExclusiveRectangle) (cs : List ExclusiveRectangle) (px py : ℕ)
    → any_pixel (keep_some o cs) px py ≡ (kept o px py || any_pixel cs px py)
unfolding kept
any_pixel-keep_some none cs px py = refl
any_pixel-keep_some (some c) cs px py = refl

any_pixel-clipped :
    (width height : ℕ) (damage : List Region) (px py : ℕ)
    → px < width
    → py < height
    → any_pixel (clipped width height damage) px py ≡ any_damaged damage px py
unfolding clipped
any_pixel-clipped width height [] px py lx ly = refl
any_pixel-clipped width height (r ∷ rs) px py lx ly =
    rw
      (
        any_pixel-keep_some (clip width height r) (clipped width height rs) px py,
        kept-clip width height r px py lx ly,
        any_pixel-clipped width height rs px py lx ly,
      )
      refl

-- Both edges of the rectangle stand in the list.
abbrev Among : List ℕ → ExclusiveRectangle → Type 0
Among ys c = OneOf c.top ys × OneOf c.bottom ys

edges-Among :
    (cs : List ExclusiveRectangle) (ys : List ℕ)
    → ((x : ℕ) → OneOf x (edges cs) → OneOf x ys)
    → All (Among ys) cs
unfolding edges
edges-Among [] ys h = tt
edges-Among (c ∷ cs) ys h = (
  (h c.top (inl refl), h c.bottom (inr (inl refl))),
  edges-Among cs ys (λ x k. h x (inr (inr k))),
)

Among-EdgesIn :
    (cs : List ExclusiveRectangle) (y : ℕ) (zs : List ℕ)
    → All (Among (y ∷ zs)) cs
    → All (EdgesIn y zs) cs
Among-EdgesIn [] y zs h = tt
Among-EdgesIn (c ∷ cs) y zs h = (ground (arith, h.0), Among-EdgesIn cs y zs h.1)

none_above :
    (cs : List ExclusiveRectangle) (y px py : ℕ) (zs : List ℕ)
    → All (Among (y ∷ zs)) cs
    → MoreThan y zs
    → py < y
    → any_pixel cs px py ≡ false
none_above [] y px py zs h m lt = refl
none_above (c ∷ cs) y px py zs h m lt =
    ground (arith, none_above cs y px py zs h.1 m lt, h.0.0, MoreThan-OneOf y c.top zs m)

bands-exact :
    (cs : List ExclusiveRectangle) (ys : List ℕ) (px py : ℕ)
    → px < u16_max
    → py < u16_max
    → Rising ys
    → All (Among ys) cs
    → hits (bands cs ys) px py ≡ ind (any_pixel cs px py)
unfolding bands
bands-exact [] [] px py hp hq r h = refl
bands-exact (c ∷ cs) [] px py hp hq r h = absurd h.0.0
bands-exact cs (y ∷ zs) px py hp hq r h = ground (
  arith,
  bands-hits cs y px py zs hp hq r (Among-EdgesIn cs y zs h),
  none_above cs y px py zs h r.0,
)

bands-IsTile : (cs : List ExclusiveRectangle) (ys : List ℕ) → All IsTile (bands cs ys)
unfolding bands
bands-IsTile cs [] = tt
bands-IsTile cs (y ∷ []) = tt
bands-IsTile cs (y ∷ (z ∷ zs)) =
    All-append IsTile (band cs y z) (bands cs (z ∷ zs)) (band-IsTile cs y z)
      (bands-IsTile cs (z ∷ zs))

-- In a frame whose sides fit u16, each pixel lies in exactly one of the packed rectangles if a damage
-- region has it, and in none otherwise; no rectangle is wider or higher than 64.
pub pack-exact :
    (width height : ℕ) (damage : List Region)
    → width ≤ u16_max
    → height ≤ u16_max
    → All IsTile (pack width height damage)
      × ((px py : ℕ)
          → px < width
          → py < height
          → hits (pack width height damage) px py ≡ ind (any_damaged damage px py))
unfolding pack
pack-exact width height damage hw hh =
    let cs = clipped width height damage in
    let ys = dedup (sort_numbers (edges cs)) in
    (
      bands-IsTile cs ys,
      λ px py lx ly. rw (← any_pixel-clipped width height damage px py lx ly) (
          bands-exact cs ys px py (omega arith) (omega arith)
            (dedup-Rising (sort_numbers (edges cs)) (sort_numbers-Ascending (edges cs)))
            (edges-Among cs ys (λ x k.
              dedup-OneOf x (sort_numbers (edges cs)) (sort_numbers-OneOf x (edges cs) k)))),
    )
