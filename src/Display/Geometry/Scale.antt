-- ===== src/Display/Geometry/Scale.antt =====
-- The scaling of src/display/geometry.rs: `scale_floor` and `scale_ceil` do not truncate here.
use native.Mathlib.Nat.{div-lt_iff_lt-mul, div-mul-le_self, lt-mul-div-succ, mul-le-mul}
use hypr_rdp.Base.{ℕ, ◌+◌, ◌-◌, ◌*◌, ◌/◌, ◌<◌, ◌≤◌, ◌≡◌, u32, u32_max, sat_u64, arith}
use hypr_rdp.Display.Geometry.{scale_floor, scale_ceil}

pub mul-le : {a b c d : ℕ} → a ≤ c → b ≤ d → a * b ≤ c * d
mul-le p q = mul-le-mul p q

-- The quotient of `a` by `b`, by its two bounds.
pub div_bounds : (a b : ℕ) → 0 < b → ((a / b) * b ≤ a) × (a < (a / b) * b + b)
div_bounds a b h = (div-mul-le_self a b, ground (arith, lt-mul-div-succ a h))

pub div-le : (a b c : ℕ) → 0 < b → a < (c + 1) * b → a / b ≤ c
div-le a b c h lt = let q : a / b < c + 1 = (div-lt_iff_lt-mul h).1 lt in omega arith

pub scale_floor_bounds :
    (v n d : ℕ)
    → 0 < d
    → v ≤ d
    → n ≤ u32_max
    → (scale_floor v n d ≤ n)
      × (scale_floor v n d * d ≤ v * n)
      × (v * n < scale_floor v n d * d + d)
unfolding scale_floor
scale_floor_bounds v n d hd hv hn = let b = div_bounds (v * n) d hd in rw fits (le, b.0, b.1)
  where
    le : v * n / d ≤ n
    le = let q : v * n ≤ d * n = mul-le hv (omega arith) in div-le (v * n) d n hd (omega arith)

    fits : u32 (v * n / d) ≡ v * n / d
    fits = ground (arith, le)

pub scale_ceil_bounds :
    (v n d : ℕ)
    → 0 < d
    → v ≤ d
    → n ≤ u32_max
    → d ≤ u32_max
    → (scale_ceil v n d ≤ n) × (v * n ≤ scale_ceil v n d * d) × (scale_ceil v n d * d < v * n + d)
unfolding scale_ceil
scale_ceil_bounds v n d hd hv hn hdm = rw (exact, fits) (le, ground arith, ground arith)
  where
    small : v * n ≤ 4294967295 * 4294967295
    small = let w : v ≤ 4294967295 = omega arith in mul-le w hn

    exact : sat_u64 (sat_u64 (v * n) + (d - 1)) ≡ v * n + (d - 1)
    exact = ground (arith, small)

    bounds :
        (((v * n + (d - 1)) / d) * d ≤ v * n + (d - 1))
        × (v * n + (d - 1) < ((v * n + (d - 1)) / d) * d + d)
    bounds = div_bounds (v * n + (d - 1)) d hd

    le : (v * n + (d - 1)) / d ≤ n
    le =
        let q : v * n ≤ d * n = mul-le hv (omega arith) in
        div-le (v * n + (d - 1)) d n hd (omega arith)

    fits : u32 ((v * n + (d - 1)) / d) ≡ (v * n + (d - 1)) / d
    fits = ground (arith, le)
