-- ===== src/Capture/Damage/Compare.antt =====
-- `frame_tile_changed` of src/capture/damage.rs sees every changed byte of its tile.
use native.Mathlib.Decide.{ℕ_discrete}
use hypr_rdp.Base.{
  ℕ, zero, suc, ◌+◌, ◌-◌, ◌*◌, ◌≤◌, ◌<◌, ◌≡◌, refl, ◌≢◌, inl, inr, true, List, [], ◌∷◌, arith,
  length, drop, get_elem?, get_elem?-take, get_elem?-drop, u64_max, sat_u64, Bool-cases, ap,
}
use hypr_rdp.Capture.Damage.Detector.{
  same_bytes, slice, row_changed, rows_changed, frame_tile_changed,
}

same_bytes-eq : (as' bs : List ℕ) → same_bytes as' bs ≡ true → as' ≡ bs
unfolding same_bytes
same_bytes-eq [] [] h = refl
same_bytes-eq [] (b ∷ bs) h = cc
same_bytes-eq (a ∷ as') [] h = cc
same_bytes-eq (a ∷ as') (b ∷ bs) h = ground (arith, same_bytes-eq as' bs)

-- The bytes of two equal slices are equal.
slice-same :
    (xs ys : List ℕ) (start n i : ℕ)
    → same_bytes (slice xs start n) (slice ys start n) ≡ true
    → start ≤ i
    → i < start + n
    → get_elem? xs i ≡ get_elem? ys i
slice-same xs ys start n i h lo hi = cc (
  get_elem?-take (drop start xs) n (i - start) (omega arith),
  get_elem?-take (drop start ys) n (i - start) (omega arith),
  get_elem?-drop xs start (i - start) i (omega arith),
  get_elem?-drop ys start (i - start) i (omega arith),
  ap (λ l. get_elem? l (i - start)) (same_bytes-eq (slice xs start n) (slice ys start n) h),
)

-- A row with a changed byte in columns `4 * x` to `4 * x + width_bytes` is seen as changed.
row_changed_complete :
    (current reference : List ℕ) (stride row x width_bytes i : ℕ)
    → length current < u64_max
    → row * stride + x * 4 ≤ i
    → i < row * stride + x * 4 + width_bytes
    → get_elem? current i ≢ get_elem? reference i
    → row_changed current reference stride row x width_bytes ≡ true
unfolding row_changed
row_changed_complete current reference stride row x width_bytes i small lo hi ne =
    elim (Bool-cases (row_changed current reference stride row x width_bytes)) [
      | inl e ↦ e
      | inr e ↦ absurd (
          ne (
            slice-same current reference start (end' - start) i (ground arith) (ground arith)
              (ground arith)))
    ]
  where
    start : ℕ
    start = sat_u64 (sat_u64 (row * stride) + x * 4)

    end' : ℕ
    end' = sat_u64 (start + width_bytes)

rows_changed_complete :
    (height : ℕ) (current reference : List ℕ) (stride y x width_bytes row i : ℕ)
    → length current < u64_max
    → y ≤ row
    → row < y + height
    → row * stride + x * 4 ≤ i
    → i < row * stride + x * 4 + width_bytes
    → get_elem? current i ≢ get_elem? reference i
    → rows_changed height current reference stride y x width_bytes ≡ true
unfolding rows_changed
rows_changed_complete zero current reference stride y x wb row i small lo hi a b ne =
    absurd (omega arith)
rows_changed_complete (suc height) current reference stride y x wb row i small lo hi a b ne =
    elim (ℕ_discrete y row) [
      | yes e ↦
          let found : row_changed current reference stride y x wb ≡ true =
            row_changed_complete current reference stride y x wb i small (rw e a) (rw e b) ne in
          rw (found, rows_changed)
      | no other ↦
          let found =
            rows_changed_complete height current reference stride (y + 1) x wb row i small
              (omega arith) (omega arith) a b ne in
          ground (arith, found)
    ]

-- A tile in which one of the four bytes of a pixel (px, py) differs between the frames is seen as
-- changed, if the current frame has fewer than 2^64 - 1 bytes.
pub frame_tile_changed_complete :
    (current reference : List ℕ) (stride x y width height px py k : ℕ)
    → length current < u64_max
    → x ≤ px
    → px < x + width
    → y ≤ py
    → py < y + height
    → k < 4
    → get_elem? current (py * stride + px * 4 + k) ≢ get_elem? reference (py * stride + px * 4 + k)
    → frame_tile_changed current reference stride x y width height ≡ true
unfolding frame_tile_changed
frame_tile_changed_complete current reference stride x y width height px py k small a b c d lt ne =
    ground (
      arith,
      rows_changed_complete height current reference stride y x (width * 4) py
          (py * stride + px * 4 + k) small c d (omega arith) (omega arith) ne,
    )
