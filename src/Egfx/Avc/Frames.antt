-- ===== src/Egfx/Avc/Frames.antt =====
-- The regions of AVC frames, src/egfx/avc420.rs, what the encoders hand over, src/egfx/frame.rs, and
-- the check of its shape, in src/egfx/rdpegfx.rs.
use hypr_rdp.Base.{
  ℕ, ◌-◌, ◌%◌, Bool, true, false, not, ◌&&◌, ◌||◌, Option, none, some, List, [], ◌∷◌, if◌then◌else◌,
  ltb, leb, length, is_some,
}
use hypr_rdp.Base.Int.{sat_add}
use hypr_rdp.Capture.Damage.{Region, clamp_to, is_positive}

pub record Avc420Region : Type 0 where
  pub left : ℕ
  pub top : ℕ
  pub right : ℕ
  pub bottom : ℕ
  pub quantization_parameter : ℕ
  pub quality : ℕ

-- `qp & 0x3f`, of a byte.
abbrev pub avc420_region_quality : (qp : ℕ) → ℕ
avc420_region_quality qp = 100 - qp % 64

unfoldable pub avc420_full_frame_region : (width height qp : ℕ) → Avc420Region
avc420_full_frame_region width height qp = record {
  left = 0;
  top = 0;
  right = width;
  bottom = height;
  quantization_parameter = qp;
  quality = avc420_region_quality qp;
}

unfoldable pub region_to_avc420 : Region → (width height qp : ℕ) → Option Avc420Region
region_to_avc420 r width height qp =
    let left = clamp_to r.x width in
    let top = clamp_to r.y height in
    let right = clamp_to (sat_add r.x r.w) width in
    let bottom = clamp_to (sat_add r.y r.h) height in
    if not (is_positive r.w) || not (is_positive r.h)
    then none
    else if leb right left || leb bottom top
    then none
    else some (record {
      left = left;
      top = top;
      right = right;
      bottom = bottom;
      quantization_parameter = qp;
      quality = avc420_region_quality qp;
    })

abbrev keep_region : Option Avc420Region → List Avc420Region → List Avc420Region
keep_region none regions = regions
keep_region (some r) regions = r ∷ regions

unfoldable pub damage_regions_to_avc420 : List Region → (width height qp : ℕ) → List Avc420Region
unfolding region_to_avc420
damage_regions_to_avc420 [] width height qp = []
damage_regions_to_avc420 (r ∷ rs) width height qp =
    keep_region (region_to_avc420 r width height qp) (damage_regions_to_avc420 rs width height qp)

pub data Avc444FrameEncoding : Type 0 where
  luma_and_chroma luma chroma : Avc444FrameEncoding

pub record Avc444EncodedFrame : Type 0 where
  pub encoding : Avc444FrameEncoding
  pub stream1 : List ℕ
  pub stream2 : List ℕ
  pub stream1_regions : List Region
  pub stream2_regions : List Region

pub data EncodedEgfxFrame : Type 0 where
  avc420_frame : List ℕ → EncodedEgfxFrame
  avc444_frame : Avc444EncodedFrame → EncodedEgfxFrame

pub data EncodedFrameState : Type 0 where
  sendable skipped invalid : EncodedFrameState

module _ {ℓ} {A : Type ℓ} where
  abbrev pub non_empty_list : List A → Bool
  non_empty_list [] = false
  non_empty_list (_ ∷ _) = true

abbrev one_stream_state : Avc444EncodedFrame → EncodedFrameState
one_stream_state f =
    if non_empty_list f.stream1_regions
      && (not (non_empty_list f.stream2_regions) && not (non_empty_list f.stream2))
    then (if non_empty_list f.stream1 then sendable else skipped)
    else invalid

abbrev two_stream_state : Avc444EncodedFrame → EncodedFrameState
two_stream_state f =
    if non_empty_list f.stream1_regions && non_empty_list f.stream2_regions
    then (if non_empty_list f.stream1 && non_empty_list f.stream2 then sendable else skipped)
    else invalid

abbrev by_encoding : Avc444FrameEncoding → Avc444EncodedFrame → EncodedFrameState
by_encoding luma_and_chroma f = two_stream_state f
by_encoding luma f = one_stream_state f
by_encoding chroma f = one_stream_state f

-- `EncodedEgfxFrame::state`.
unfoldable pub frame_state : EncodedEgfxFrame → EncodedFrameState
frame_state (avc420_frame bytes) =
    if not (non_empty_list bytes)
    then skipped
    else if ltb 32 (length bytes)
    then sendable
    else invalid
frame_state (avc444_frame f) =
    if not (non_empty_list f.stream1)
      && (not (non_empty_list f.stream2)
          && (not (non_empty_list f.stream1_regions) && not (non_empty_list f.stream2_regions)))
    then skipped
    else by_encoding f.encoding f

-- The library's name of the encoding is the frame's own.
unfoldable pub validate_avc444_send_shape :
    Avc444FrameEncoding
    → List Avc420Region
    → Option (List ℕ)
    → Option (List Avc420Region)
    → Option Avc444FrameEncoding
validate_avc444_send_shape luma_and_chroma regions1 data2 regions2 =
    if not (is_some data2) || not (elim regions2 [ none ↦ false | some rs ↦ non_empty_list rs ])
    then none
    else if not (non_empty_list regions1)
    then none
    else some luma_and_chroma
validate_avc444_send_shape luma regions1 data2 regions2 =
    if is_some data2 || is_some regions2
    then none
    else if not (non_empty_list regions1)
    then none
    else some luma
validate_avc444_send_shape chroma regions1 data2 regions2 =
    if is_some data2 || is_some regions2
    then none
    else if not (non_empty_list regions1)
    then none
    else some chroma
