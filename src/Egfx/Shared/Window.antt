-- ===== src/Egfx/Shared/Window.antt =====
-- The frames in flight, in src/egfx/shared.rs: the window and the queue, what is queued and acknowledged,
-- and the reset for a new client.
use hypr_rdp.Base.{
  ℕ, ◌+◌, ◌-◌, ◌*◌, ◌/◌, max, Bool, true, false, not, ◌&&◌, Option, none, some, ltb, leb, ◌==◌,
  if◌then◌else◌, u32, u64, sat_u32,
}
use hypr_rdp.Egfx.Shared.{
  EgfxFrameReadiness, is_ready, output_backpressure, local_backpressure,
  suspend_frame_ack_queue_depth, gfx_ready_grace, max_queued_output_frames, EgfxShared,
  clear_current_surface,
}

unfoldable pub max_frames_in_flight : EgfxShared → ℕ
max_frames_in_flight s = max s.max_frames 1

-- `HYPR_RDP_DISABLE_AVC444` is an argument.
unfoldable pub is_avc444_enabled : EgfxShared → Bool → Bool
is_avc444_enabled s disabled_by_env = s.avc444_enabled && not disabled_by_env

unfoldable pub note_gfx_ready : EgfxShared → EgfxShared
note_gfx_ready s = record s { gfx_ever_ready = true }

abbrev wait_started : EgfxShared → ℕ → ℕ
wait_started s now = elim s.gfx_wait_started [ none ↦ now | some start ↦ start ]

-- `now - started`, and 0 for an earlier `now`, is truncated subtraction.
unfoldable pub bitmap_fallback_due : EgfxShared → ℕ → EgfxShared × Bool
bitmap_fallback_due s now =
    let started = wait_started s now in
    let t = record s { gfx_wait_started = some started } in
    if s.gfx_ever_ready
    then (s, true)
    else if ltb (now - started) gfx_ready_grace
    then (t, false)
    else (record t { gfx_fallback_logged = true }, true)

unfoldable pub request_full_frame : EgfxShared → EgfxShared
request_full_frame s = record s { force_full_frame = true }

unfoldable pub take_full_frame_request : EgfxShared → EgfxShared × Bool
take_full_frame_request s = (record s { force_full_frame = false }, s.force_full_frame)

-- The part of `preferred_frame_rate` past its early returns.
unfoldable pub throttled_rate : ℕ → ℕ → ℕ
throttled_rate fps in_flight =
    let backpressure_percent = 100 / sat_u32 (in_flight + 1) in
    max (sat_u32 (fps * backpressure_percent) / 100) 1

unfoldable pub preferred_frame_rate : EgfxShared → ℕ → ℕ
preferred_frame_rate s target_fps =
    let fps = max target_fps 1 in
    if s.ack_suspended
    then fps
    else if leb s.in_flight 1
    then fps
    else throttled_rate fps s.in_flight

unfoldable pub should_backpressure_frames : EgfxShared → Bool
unfolding max_frames_in_flight
should_backpressure_frames s = not s.ack_suspended && leb (max_frames_in_flight s) s.in_flight

unfoldable pub output_queue_readiness : EgfxShared → Option EgfxFrameReadiness
output_queue_readiness s =
    if leb max_queued_output_frames s.output_pending
    then some (output_backpressure s.output_pending max_queued_output_frames)
    else none

abbrev unwrap_or_ready : Option EgfxFrameReadiness → EgfxFrameReadiness
unwrap_or_ready none = is_ready
unwrap_or_ready (some r) = r

unfoldable pub full_frame_refresh_readiness : EgfxShared → EgfxFrameReadiness
unfolding output_queue_readiness
full_frame_refresh_readiness s =
    if s.ack_suspended
    then unwrap_or_ready (output_queue_readiness s)
    else if s.in_flight == 0
    then unwrap_or_ready (output_queue_readiness s)
    else local_backpressure s.in_flight 1 s.queue_depth false

unfoldable pub record_frame_queued : EgfxShared → ℕ → EgfxShared
record_frame_queued s frame_id = record s {
  last_queued = frame_id;
  in_flight = u32 (s.in_flight + 1);
  total_queued = u64 (s.total_queued + 1);
}

-- The compare-exchange loop at the end of `record_frame_ack`, run without interference.
take_in_flight : EgfxShared → EgfxShared
take_in_flight s =
    if ltb 0 s.in_flight
    then record s { in_flight = s.in_flight - 1; total_acked = u64 (s.total_acked + 1) }
    else s

-- Past the test on the cutoff.
count_ack : EgfxShared → ℕ → Bool → EgfxShared
unfolding take_in_flight
count_ack s frame_id suspended =
    if suspended
    then record s {
      last_acked = frame_id;
      total_acked = s.total_queued;
      in_flight = 0;
      ack_stream_established = false;
    }
    else take_in_flight (record s { last_acked = frame_id; ack_stream_established = true })

unfoldable pub record_frame_ack : EgfxShared → ℕ → ℕ → EgfxShared
unfolding count_ack
record_frame_ack s frame_id depth =
    let suspended = depth == suspend_frame_ack_queue_depth in
    let t = record s { queue_depth = depth; ack_suspended = suspended } in
    if s.cutoff_active && leb frame_id s.cutoff_frame then t else count_ack t frame_id suspended

-- The part of `clear_frame_queue` under `if queued > acked`.
retire_frames : EgfxShared → EgfxShared
retire_frames s =
    if ltb s.total_acked s.total_queued
    then record s {
      cutoff_frame = s.last_queued;
      cutoff_active = true;
      total_acked = s.total_queued;
    }
    else s

unfoldable pub clear_frame_queue : EgfxShared → EgfxShared
unfolding retire_frames
clear_frame_queue s =
    let t = retire_frames s in record t { in_flight = 0; queue_depth = 0; ack_suspended = false }

unfoldable pub reset_frame_queue_for_new_client : EgfxShared → EgfxShared
reset_frame_queue_for_new_client s = record s {
  in_flight = 0;
  queue_depth = 0;
  ack_suspended = false;
  ack_stream_established = false;
  last_queued = 0;
  last_acked = 0;
  cutoff_frame = 0;
  cutoff_active = false;
  total_queued = 0;
  total_acked = 0;
}

pub record EgfxFrameFlowSnapshot : Type 0 where
  pub last_queued_frame_id : ℕ
  pub last_acked_frame_id : ℕ
  pub frames_in_flight : ℕ
  pub client_queue_depth : ℕ
  pub frame_ack_suspended : Bool
  pub frame_ack_stream_established : Bool
  pub total_queued_frames : ℕ
  pub total_acked_frames : ℕ

unfoldable pub frame_flow_snapshot : EgfxShared → EgfxFrameFlowSnapshot
frame_flow_snapshot s = record {
  last_queued_frame_id = s.last_queued;
  last_acked_frame_id = s.last_acked;
  frames_in_flight = s.in_flight;
  client_queue_depth = s.queue_depth;
  frame_ack_suspended = s.ack_suspended;
  frame_ack_stream_established = s.ack_stream_established;
  total_queued_frames = s.total_queued;
  total_acked_frames = s.total_acked;
}

unfoldable pub reset_for_new_client : EgfxShared → EgfxShared
unfolding clear_current_surface reset_frame_queue_for_new_client
reset_for_new_client s =
    let t = record s {
      ready = false;
      gfx_ever_ready = false;
      gfx_fallback_logged = false;
      gfx_wait_started = none;
      avc_enabled = false;
      avc444_enabled = false;
      force_full_frame = false;
    } in
    let u = reset_frame_queue_for_new_client (clear_current_surface t) in
    record u { clearcodec_uncommitted = false }
