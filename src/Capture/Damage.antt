-- ===== src/Capture/Damage.antt =====
-- The damage regions of src/capture/damage.rs, their clamping and merging. A region is a tuple of i32,
-- and `usize` has 64 bits.
pub mod Detector
pub mod Clamp
pub mod Merge
pub mod Compare
pub mod Scan
pub mod Detect
use hypr_rdp.Base.{
  ℕ, zero, suc, ◌-◌, Bool, true, false, not, ◌&&◌, ◌||◌, Option, none, some, List, [], ◌∷◌, ◌++◌,
  ltb, leb, if◌then◌else◌, length,
}
use hypr_rdp.Base.Int.{
  ℤ, pos, negsuc, leb_ℤ, eqb_ℤ, min_ℤ, max_ℤ, i32_max, sat_add, sat_sub, sub_i32,
}

abbrev pub damage_tile_size : ℕ
damage_tile_size = 64

abbrev pub damage_merge_distance : ℕ
damage_merge_distance = 16

pub record Region : Type 0 where
  pub x : ℤ
  pub y : ℤ
  pub w : ℤ
  pub h : ℤ

-- A region with no negative number in it.
abbrev pub region : ℕ → ℕ → ℕ → ℕ → Region
region x y w h = record { x = pos x; y = pos y; w = pos w; h = pos h }

-- `v.clamp(0, limit)`, which is never negative.
abbrev pub clamp_to : ℤ → ℕ → ℕ
clamp_to (pos n) limit = if ltb limit n then limit else n
clamp_to (negsuc n) limit = 0

abbrev pub is_positive : ℤ → Bool
is_positive (pos n) = ltb 0 n
is_positive (negsuc n) = false

unfoldable pub clamp_damage_region : Region → ℕ → ℕ → Option Region
clamp_damage_region r width height =
    let left = clamp_to r.x width in
    let top = clamp_to r.y height in
    let right = clamp_to (sat_add r.x r.w) width in
    let bottom = clamp_to (sat_add r.y r.h) height in
    if not (is_positive r.w) || not (is_positive r.h)
    then none
    else if ltb i32_max width
    then none
    else if ltb i32_max height
    then none
    else if leb right left || leb bottom top
    then none
    else some (region left top (right - left) (bottom - top))

-- The distance from the end of one interval to the start of the other, as the code computes it.
gap : ℤ → ℤ → ℤ → ℤ → ℤ
gap a a_end b b_end = if leb_ℤ a_end b then sub_i32 b a_end else sat_sub a b_end

unfoldable pub damage_regions_are_near : Region → Region → ℕ → Bool
unfolding gap
damage_regions_are_near a b merge_distance =
    let gap_x = gap a.x (sat_add a.x a.w) b.x (sat_add b.x b.w) in
    let gap_y = gap a.y (sat_add a.y a.h) b.y (sat_add b.y b.h) in
    leb_ℤ gap_x (pos merge_distance) && leb_ℤ gap_y (pos merge_distance)

unfoldable pub union_damage_region : Region → Region → Region
union_damage_region a b =
    let left = min_ℤ a.x b.x in
    let top = min_ℤ a.y b.y in
    let right = max_ℤ (sat_add a.x a.w) (sat_add b.x b.w) in
    let bottom = max_ℤ (sat_add a.y a.h) (sat_add b.y b.h) in
    record { x = left; y = top; w = sub_i32 right left; h = sub_i32 bottom top }

-- The last of `r ∷ rs`, and all but the last.
last_of : Region → List Region → Region
last_of r [] = r
last_of r (s ∷ rs) = last_of s rs

but_last : Region → List Region → List Region
but_last r [] = []
but_last r (s ∷ rs) = r ∷ but_last s rs

-- What `swap_remove(index)` leaves from `index` on, where `rest` stood behind the removed element.
unfoldable pub swap_remove : List Region → List Region
unfolding last_of but_last
swap_remove [] = []
swap_remove (r ∷ rest) = last_of r rest ∷ but_last r rest

-- The `while` of `merge_nearby_damage_region`: `kept` is the vector up to `index`, `rest` what comes
-- from there on. Each round shortens `rest`, whose length is the fuel.
unfoldable pub merge_loop : ℕ → List Region → List Region → Region → ℕ → List Region
merge_loop zero kept rest merged merge_distance = kept ++ (rest ++ (merged ∷ []))
merge_loop (suc fuel) kept [] merged merge_distance = kept ++ (merged ∷ [])
merge_loop (suc fuel) kept (r ∷ rest) merged merge_distance =
    elim (damage_regions_are_near r merged merge_distance) [
      | true ↦ merge_loop fuel kept (swap_remove rest) (union_damage_region r merged) merge_distance
      | false ↦ merge_loop fuel (kept ++ (r ∷ [])) rest merged merge_distance
    ]

unfoldable pub merge_nearby_damage_region : List Region → Region → ℕ → List Region
merge_nearby_damage_region regions r merge_distance =
    merge_loop (length regions) [] regions r merge_distance

unfoldable pub merge_damage_region : List Region → Region → List Region
unfolding merge_nearby_damage_region
merge_damage_region pending r = merge_nearby_damage_region pending r damage_merge_distance

abbrev pub same_region : Region → Region → Bool
same_region a b = (eqb_ℤ a.x b.x) && (eqb_ℤ a.y b.y) && (eqb_ℤ a.w b.w) && (eqb_ℤ a.h b.h)

pub has_region : List Region → Region → Bool
has_region [] r = false
has_region (s ∷ rs) r = if same_region s r then true else has_region rs r

unfoldable pub push_unique_damage_region : List Region → Region → List Region
unfolding has_region
push_unique_damage_region regions r = if has_region regions r then regions else regions ++ (r ∷ [])
