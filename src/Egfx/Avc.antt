-- ===== src/Egfx/Avc.antt =====
-- The sending of AVC frames in src/egfx/rdpegfx.rs. Their bytes come from encoders, which are not
-- modelled.
pub mod Frames
pub mod Sending
mod Tests
use hypr_rdp.Base.{
  ℕ, Bool, true, false, not, ◌||◌, Option, none, some, List, [], ◌∷◌, if◌then◌else◌,
}
use hypr_rdp.Capture.Damage.{Region}
use hypr_rdp.Egfx.Avc.Frames.{
  Avc420Region, Avc444FrameEncoding, Avc444EncodedFrame, EncodedEgfxFrame, avc420_frame,
  avc444_frame, sendable, frame_state, non_empty_list, damage_regions_to_avc420,
  avc420_full_frame_region, validate_avc444_send_shape,
}
use hypr_rdp.Egfx.Shared.{readiness_ok}
use hypr_rdp.Egfx.Shared.Window.{record_frame_queued}
use hypr_rdp.Egfx.OutputQueue.{try_reserve, drop_lease}
use hypr_rdp.Egfx.Transport.{
  ServerApi, Channel, Link, has_messages, frame_readiness, send_rdpegfx_dvc_messages,
}

-- What is called of the protocol server for these frames alone.
pub record VideoApi (V : Type 0) : Type 0 where
  pub send_avc420_frame :
      V → (surface_id : ℕ) → List ℕ → List Avc420Region → (timestamp_ms : ℕ) → V × Option ℕ
  pub send_avc444v2_frame :
      V
      → (surface_id : ℕ) → Avc444FrameEncoding
      → List ℕ
      → List Avc420Region
      → Option (List ℕ)
      → Option (List Avc420Region)
      → (timestamp_ms : ℕ) → V × Option ℕ

pub record QueuedRdpegfxFrame : Type 0 where
  pub frame_id : ℕ
  pub dvc_messages : List ℕ
  pub on_channel : ℕ

module _ {V E : Type 0} (api : ServerApi V E) (video : VideoApi V) where
  -- From `queue_frame` on.
  queue_and_drain : (V → V × Option ℕ) → V → (channel : ℕ) → V × Option QueuedRdpegfxFrame
  queue_and_drain queue_frame server channel =
      let (sent, frame) = queue_frame server in
      elim frame [
        | none ↦ (sent, none)
        | some id ↦
            let (drained, messages) = api.drain_output sent in
            (
              drained,
              if has_messages messages
                  then some
                      (record { frame_id = id; dvc_messages = messages; on_channel = channel })
                  else none,
            )
      ]

  unfoldable pub queue_rdpegfx_frame : (V → V × Option ℕ) → V → V × Option QueuedRdpegfxFrame
  unfolding queue_and_drain
  queue_rdpegfx_frame queue_frame server =
      if not (api.server_ready server) || api.should_backpressure server
      then (server, none)
      else elim (api.channel_id server) [
        | none ↦ (server, none)
        | some channel ↦ queue_and_drain queue_frame server channel
      ]

  abbrev on_server : Link V E → V → (pending : ℕ) → Link V E
  on_server l server pending = record {
    shared = record (l.shared) { output_pending = pending };
    encoder = l.encoder;
    server = server;
  }

  -- From `try_reserve` on, with the closure that queues the frame.
  send_reserved : Channel → Link V E → (V → V × Option ℕ) → Link V E × Bool
  unfolding queue_rdpegfx_frame
  send_reserved ch l queue_frame = elim (try_reserve (l.shared).output_pending) [
    | none ↦ (l, false)
    | some pending ↦
        let (server, queued) = queue_rdpegfx_frame queue_frame l.server in
        elim queued [
          | none ↦ (on_server l server (drop_lease pending), false)
          | some q ↦ elim (send_rdpegfx_dvc_messages ch q.on_channel q.dvc_messages) [
            | none ↦ (on_server l server (drop_lease pending), false)
            | some svc ↦
                let done =
                  on_server l server (if has_messages svc then pending else drop_lease pending) in
                (record done { shared = record_frame_queued done.shared q.frame_id }, true)
          ]
        ]
  ]

  -- `can_send_frame`.
  abbrev can_send_frame : Link V E → Bool
  can_send_frame l = readiness_ok (frame_readiness api l.shared l.server)

  unfoldable pub send_tracked_avc420_rdpegfx_frame :
      Channel
      → Link V E
      → (surface_id : ℕ) → List ℕ
      → List Avc420Region
      → (timestamp_ms : ℕ) → Link V E × Bool
  unfolding send_reserved
  send_tracked_avc420_rdpegfx_frame ch l surface_id bytes regions timestamp_ms =
      if not (can_send_frame l) || not (non_empty_list regions)
      then (l, false)
      else send_reserved ch l
          (λ server. video.send_avc420_frame server surface_id bytes regions timestamp_ms)

  unfoldable pub send_tracked_avc444_rdpegfx_frame :
      Channel
      → Link V E
      → (surface_id : ℕ) → Avc444FrameEncoding
      → List ℕ
      → List Avc420Region
      → Option (List ℕ)
      → Option (List Avc420Region)
      → (timestamp_ms : ℕ) → Link V E × Bool
  unfolding send_reserved
  send_tracked_avc444_rdpegfx_frame ch l surface_id encoding data1 regions1 data2 regions2
        timestamp_ms =
      if ch.closed_at_first || not (can_send_frame l)
      then (l, false)
      else elim (validate_avc444_send_shape encoding regions1 data2 regions2) [
        | none ↦ (l, false)
        | some send_encoding ↦ send_reserved ch l (λ server.
            video.send_avc444v2_frame server surface_id send_encoding data1 regions1 data2 regions2
              timestamp_ms)
      ]

  abbrev send_avc420 :
      Channel
      → Link V E
      → ℕ
      → List ℕ
      → List Region
      → (timestamp_ms width height qp : ℕ) → Link V E × Bool
  send_avc420 ch l surface_id bytes damage timestamp_ms width height qp =
      let regions = damage_regions_to_avc420 damage width height qp in
      send_tracked_avc420_rdpegfx_frame ch l surface_id bytes
        (if non_empty_list regions then regions else avc420_full_frame_region width height qp ∷ [])
        timestamp_ms

  abbrev send_avc444 :
      Channel
      → Link V E
      → ℕ
      → Avc444EncodedFrame
      → (timestamp_ms width height qp : ℕ) → Link V E × Bool
  send_avc444 ch l surface_id f timestamp_ms width height qp =
      let two = non_empty_list f.stream2_regions in
      send_tracked_avc444_rdpegfx_frame ch l surface_id f.encoding f.stream1
        (damage_regions_to_avc420 f.stream1_regions width height qp)
        (if two then some f.stream2 else none)
        (if two then some (damage_regions_to_avc420 f.stream2_regions width height qp) else none)
        timestamp_ms

  send_by_codec :
      Channel
      → Link V E
      → ℕ
      → EncodedEgfxFrame
      → List Region
      → (timestamp_ms width height qp : ℕ) → Link V E × Bool
  unfolding send_tracked_avc420_rdpegfx_frame send_tracked_avc444_rdpegfx_frame
      damage_regions_to_avc420 avc420_full_frame_region
  send_by_codec ch l surface_id (avc420_frame bytes) damage timestamp_ms width height qp =
      send_avc420 ch l surface_id bytes damage timestamp_ms width height qp
  send_by_codec ch l surface_id (avc444_frame f) damage timestamp_ms width height qp =
      send_avc444 ch l surface_id f timestamp_ms width height qp

  unfoldable pub send_tracked_encoded_egfx_frame :
      Channel
      → Link V E
      → (surface_id : ℕ) → EncodedEgfxFrame
      → List Region
      → (timestamp_ms width height qp : ℕ) → Link V E × Bool
  unfolding send_by_codec frame_state
  send_tracked_encoded_egfx_frame ch l surface_id frame damage timestamp_ms width height qp =
      elim (frame_state frame) [
        | sendable ↦ send_by_codec ch l surface_id frame damage timestamp_ms width height qp
        | _ ↦ (l, false)
      ]
