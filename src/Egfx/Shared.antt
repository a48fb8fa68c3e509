-- ===== src/Egfx/Shared.antt =====
-- src/egfx/shared.rs: the state that the factory, the protocol handler and the capture thread share.
-- Each atomic is a field; a method is one step, since the flow counters are only touched under the
-- server lock or by the capture thread. `Arc` handles and event senders are named by numbers, an
-- `Instant` is its nanoseconds, and a poisoned mutex is not modelled.
pub mod Window
pub mod Flow
use hypr_rdp.Base.{
  ℕ, max, Bool, true, false, ◌&&◌, Option, none, some, ◌==◌, if◌then◌else◌, u32_max,
}

pub data EgfxCodecPolicy : Type 0 where
  auto avc420 avc444 clear_codec : EgfxCodecPolicy

abbrev pub allows_avc : EgfxCodecPolicy → Bool
allows_avc clear_codec = false
allows_avc _ = true

pub data EgfxFrameReadiness : Type 0 where
  is_ready : EgfxFrameReadiness
  output_backpressure : (queued max : ℕ) → EgfxFrameReadiness
  local_backpressure :
      (in_flight max client_queue_depth : ℕ) (ack_suspended : Bool) → EgfxFrameReadiness
  transport_unavailable transport_not_ready transport_no_channel : EgfxFrameReadiness
  transport_backpressure : (in_flight client_queue_depth : ℕ) → EgfxFrameReadiness

-- `EgfxFrameReadiness::is_ready`.
abbrev pub readiness_ok : EgfxFrameReadiness → Bool
readiness_ok is_ready = true
readiness_ok _ = false

abbrev pub suspend_frame_ack_queue_depth : ℕ
suspend_frame_ack_queue_depth = u32_max

-- GFX_READY_GRACE, two seconds.
abbrev pub gfx_ready_grace : ℕ
gfx_ready_grace = 2_000_000_000

abbrev pub max_queued_output_frames : ℕ
max_queued_output_frames = 3

pub record EgfxShared : Type 0 where
  pub output_pending : ℕ  -- output_queue.pending
  pub clearcodec_uncommitted : Bool  -- clearcodec.uncommitted
  pub handle : Option ℕ
  pub ready : Bool
  pub avc_enabled : Bool
  pub avc444_enabled : Bool
  pub ready_generation : ℕ  -- u32
  pub event_sender : Option ℕ
  pub surface_size : ℕ × ℕ
  pub current_surface : Option (ℕ × ℕ × ℕ)
  pub max_frames : ℕ  -- max_frames_in_flight, u32
  pub in_flight : ℕ  -- frames_in_flight, u32
  pub queue_depth : ℕ  -- client_queue_depth, u32
  pub ack_suspended : Bool  -- frame_ack_suspended
  pub ack_stream_established : Bool  -- frame_ack_stream_established
  pub last_queued : ℕ  -- last_queued_frame_id, u32
  pub last_acked : ℕ  -- last_acked_frame_id, u32
  pub cutoff_frame : ℕ  -- ack_cutoff_frame_id, u32
  pub cutoff_active : Bool  -- ack_cutoff_active
  pub total_queued : ℕ  -- u64
  pub total_acked : ℕ  -- u64
  pub force_full_frame : Bool
  pub gfx_wait_started : Option ℕ
  pub gfx_ever_ready : Bool
  pub gfx_fallback_logged : Bool
  pub codec_policy : EgfxCodecPolicy

unfoldable pub with_codec_policy : ℕ → EgfxCodecPolicy → EgfxShared
with_codec_policy max_frames_in_flight policy = record {
  output_pending = 0;
  clearcodec_uncommitted = false;
  handle = none;
  ready = false;
  avc_enabled = false;
  avc444_enabled = false;
  ready_generation = 0;
  event_sender = none;
  surface_size = (0, 0);
  current_surface = none;
  max_frames = max max_frames_in_flight 1;
  in_flight = 0;
  queue_depth = 0;
  ack_suspended = false;
  ack_stream_established = false;
  last_queued = 0;
  last_acked = 0;
  cutoff_frame = 0;
  cutoff_active = false;
  total_queued = 0;
  total_acked = 0;
  force_full_frame = false;
  gfx_wait_started = none;
  gfx_ever_ready = false;
  gfx_fallback_logged = false;
  codec_policy = policy;
}

pub set_surface_size : EgfxShared → ℕ → ℕ → EgfxShared
set_surface_size s width height = record s { surface_size = (width, height) }

match_surface : Option (ℕ × ℕ × ℕ) → ℕ → ℕ → Option ℕ
match_surface none width height = none
match_surface (some (surface_id, w, h)) width height =
    if w == width && h == height then some surface_id else none

unfoldable pub current_surface_id : EgfxShared → ℕ → ℕ → Option ℕ
unfolding match_surface
current_surface_id s width height = match_surface s.current_surface width height

unfoldable pub set_current_surface : EgfxShared → ℕ → ℕ → ℕ → EgfxShared
set_current_surface s surface_id width height = record s {
  current_surface = some (surface_id, width, height);
}

unfoldable pub clear_current_surface : EgfxShared → EgfxShared
clear_current_surface s = record s { current_surface = none }
