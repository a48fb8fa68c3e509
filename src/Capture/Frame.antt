-- ===== src/Capture/Frame.antt =====
-- `FrameProcessor` of src/capture/frame.rs, as far as ClearCodec frames go: the damage that waits, and
-- how a captured frame is sent, through the damage detector and src/egfx. Statistics are left out; the
-- encoder of the other path is named by a number, and the link holds the shared state.
pub mod Keeps
use hypr_rdp.Base.{
  ℕ, max, Bool, true, false, not, ◌||◌, Option, none, some, List, [], ◌∷◌, ◌==◌, if◌then◌else◌, leb,
  is_some,
}
use hypr_rdp.Capture.Damage.{Region, clamp_damage_region, merge_damage_region}
use hypr_rdp.Capture.Damage.Detector.{
  FrameDiffDamageDetector, new_detector, invalidate, full_frame, detect, update_reference_regions,
}
use hypr_rdp.Egfx.Shared.{EgfxShared, EgfxFrameReadiness, readiness_ok}
use hypr_rdp.Egfx.Shared.Window.{
  preferred_frame_rate, full_frame_refresh_readiness, take_full_frame_request,
}
use hypr_rdp.Egfx.ClearCodec.{PixelFormat}
use hypr_rdp.Egfx.Transport.{
  ServerApi, Channel, Link, retry_later, queued_bytes, torn_down, frame_readiness,
  send_clearcodec_damage,
}
use hypr_rdp.Egfx.Surface.{SurfaceApi, init_or_reuse_surface}

pub data EgfxCodec : Type 0 where
  avc420 avc444 : EgfxCodec

pub record FrameProcessor : Type 0 where
  pub h264_encoder : Option ℕ
  pub egfx_surface_id : Option ℕ
  pub egfx_active : Bool
  pub egfx_generation : ℕ
  pub egfx_codec : Option EgfxCodec
  pub width : ℕ
  pub height : ℕ
  pub pixel_format : PixelFormat
  pub stride : ℕ
  pub fps : ℕ
  pub sent_first_frame : Bool
  pub pending_damage_regions : List Region
  pub damage_detector : FrameDiffDamageDetector

unfoldable pub new_processor : (width height stride fps : ℕ) → PixelFormat → FrameProcessor
new_processor width height stride fps format = record {
  h264_encoder = none;
  egfx_surface_id = none;
  egfx_active = false;
  egfx_generation = 0;
  egfx_codec = none;
  width = width;
  height = height;
  pixel_format = format;
  stride = stride;
  fps = fps;
  sent_first_frame = false;
  pending_damage_regions = [];
  damage_detector = new_detector;
}

abbrev pub has_regions : List Region → Bool
has_regions [] = false
has_regions (_ ∷ _) = true

abbrev pub has_pending_damage : FrameProcessor → Bool
has_pending_damage p = has_regions p.pending_damage_regions

-- The shared state, if the graphics pipeline is configured.
unfoldable pub pacing_fps : FrameProcessor → Option EgfxShared → ℕ
pacing_fps p none = max p.fps 1
pacing_fps p (some shared) = preferred_frame_rate shared p.fps

abbrev pub merge_some : List Region → Option Region → List Region
merge_some regions none = regions
merge_some regions (some region) = merge_damage_region regions region

unfoldable pub merge_all : List Region → (width height : ℕ) → List Region → List Region
merge_all pending width height [] = pending
merge_all pending width height (r ∷ rs) =
    merge_all (merge_some pending (clamp_damage_region r width height)) width height rs

unfoldable pub queue_damage : FrameProcessor → List Region → FrameProcessor
unfolding merge_all
queue_damage p regions = record p {
  pending_damage_regions = merge_all p.pending_damage_regions p.width p.height regions;
}

-- What the event channel does during one frame: whether it is closed at first, and how it takes the
-- messages of a new surface and of the frame.
pub record FrameChannel : Type 0 where
  pub closed : Bool
  pub for_surface : Channel
  pub for_frame : Channel

abbrev pub u16_max : ℕ
u16_max = 65535

-- A new generation, or an encoder of the other path: the client has nothing yet.
abbrev pub restart : FrameProcessor → EgfxShared → FrameProcessor
restart p shared =
    if not (shared.ready_generation == p.egfx_generation) || is_some p.h264_encoder
    then record p {
      egfx_generation = shared.ready_generation;
      h264_encoder = none;
      egfx_codec = none;
      egfx_active = false;
      egfx_surface_id = none;
      sent_first_frame = false;
      damage_detector = invalidate p.damage_detector;
    }
    else p

-- What is remembered of a frame that was queued.
after_sent : FrameProcessor → List ℕ → ℕ → List Region → FrameProcessor
after_sent p bytes surface_id damage = record p {
  sent_first_frame = true;
  egfx_surface_id = some surface_id;
  damage_detector =
      update_reference_regions p.damage_detector bytes p.width p.height p.stride damage;
  pending_damage_regions = [];
}

module _ {V E : Type 0} where
  abbrev pub full_refresh : FrameProcessor → Link V E → Bool
  full_refresh p l = (l.shared).force_full_frame || not p.sent_first_frame

  abbrev pub frame_damage : FrameProcessor → Link V E → List ℕ → List Region
  frame_damage p l bytes =
      if full_refresh p l
      then full_frame p.width p.height
      else detect p.damage_detector bytes p.width p.height p.stride p.pending_damage_regions

module _ {V E : Type 0} (api : ServerApi V E) (surfaces : SurfaceApi V) where
  abbrev pub readiness : Link V E → EgfxFrameReadiness
  readiness l =
      if (l.shared).force_full_frame
      then full_frame_refresh_readiness l.shared
      else frame_readiness api l.shared l.server

  send_damage :
      FrameChannel
      → FrameProcessor
      → Link V E
      → List ℕ
      → ℕ
      → List Region
      → (FrameProcessor × Link V E) × Bool
  unfolding after_sent take_full_frame_request
  send_damage ch p l bytes surface_id damage =
      let (sent, outcome) =
        send_clearcodec_damage api ch.for_frame l surface_id bytes p.width p.height p.stride damage
          0 p.pixel_format in
      elim outcome [
        | retry_later ↦ ((p, sent), true)
        | torn_down ↦ ((p, sent), false)
        | queued_bytes n ↦ (
          (
            after_sent p bytes surface_id damage,
            record sent { shared = (take_full_frame_request sent.shared).0 },
          ),
          true,
        )
      ]

  -- Past the readiness.
  send_ready :
      FrameChannel → FrameProcessor → Link V E → List ℕ → (FrameProcessor × Link V E) × Bool
  unfolding send_damage
  send_ready ch p l bytes =
      let damage = frame_damage p l bytes in
      let (m, surface) = init_or_reuse_surface api surfaces ch.for_surface l p.width p.height in
      if not (leb p.width u16_max) || not (leb p.height u16_max)
      then ((p, l), false)
      else if not (has_regions damage)
      then ((record p { pending_damage_regions = [] }, l), true)
      else elim surface [
        | none ↦ ((p, m), true)
        | some surface_id ↦ send_damage ch p m bytes surface_id damage
      ]

  -- The Boolean says whether the capture goes on.
  unfoldable pub process_clearcodec :
      FrameChannel → FrameProcessor → Link V E → List ℕ → (FrameProcessor × Link V E) × Bool
  unfolding send_ready
  process_clearcodec ch old l bytes =
      let p = restart old l.shared in
      if not (is_some (l.shared).handle) || not (is_some (l.shared).event_sender)
      then ((p, l), true)
      else if ch.closed
      then ((p, l), false)
      else if not (readiness_ok (readiness l))
      then ((p, l), true)
      else send_ready ch p l bytes
