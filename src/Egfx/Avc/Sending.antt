-- ===== src/Egfx/Avc/Sending.antt =====
-- What a call of send_tracked_encoded_egfx_frame in src/egfx/rdpegfx.rs leaves behind.
use hypr_rdp.Base.{
  ℕ, ◌+◌, ◌≤◌, ◌≡◌, refl, ◌⊎◌, inl, inr, Bool, true, false, not, ◌||◌, Option, none, some, List, [],
  ◌∷◌, if◌then◌else◌, u32, Bool-cases, Option-cases, ap, arith,
}
use hypr_rdp.Capture.Damage.{Region}
use hypr_rdp.Egfx.Shared.{readiness_ok, max_queued_output_frames}
use hypr_rdp.Egfx.Shared.Window.{record_frame_queued}
use hypr_rdp.Egfx.OutputQueue.{try_reserve, drop_lease}
use hypr_rdp.Egfx.OutputQueue.Budget.{try_reserve-drop_lease}
use hypr_rdp.Egfx.Transport.{ServerApi, Channel, Link, frame_readiness, send_rdpegfx_dvc_messages}
use hypr_rdp.Egfx.Avc.Frames.{
  Avc420Region, Avc444FrameEncoding, EncodedEgfxFrame, avc420_frame, avc444_frame,
  EncodedFrameState, sendable, skipped, invalid, frame_state, non_empty_list,
  damage_regions_to_avc420, avc420_full_frame_region, validate_avc444_send_shape,
}
use hypr_rdp.Egfx.Avc.{
  VideoApi, queue_rdpegfx_frame, on_server, send_reserved, can_send_frame,
  send_tracked_avc420_rdpegfx_frame, send_tracked_avc444_rdpegfx_frame, send_by_codec,
  send_tracked_encoded_egfx_frame,
}

-- The frame is in flight, and the window and the queue had room for it; or it is not, and the shared
-- state is as it was, the slot of the output queue given back.
abbrev pub IsTracked : {V E : Type 0} → ServerApi V E → Link V E → Link V E × Bool → Type 0
IsTracked api l r =
    ((r.1 ≡ true)
      × (readiness_ok (frame_readiness api l.shared l.server) ≡ true)
      × (((r.0).shared).in_flight ≡ u32 ((l.shared).in_flight + 1)))
    ⊎ ((r.1 ≡ false) × ((r.0).shared ≡ l.shared))

module _ {V E : Type 0} (api : ServerApi V E) (video : VideoApi V) (ch : Channel) (l : Link V E)
    (room : (l.shared).output_pending ≤ max_queued_output_frames) where
  given_back :
      (server : V) (pending : ℕ)
      → try_reserve (l.shared).output_pending ≡ some pending
      → (on_server api video l server (drop_lease pending)).shared ≡ l.shared
  given_back server pending e =
      let back = (try_reserve-drop_lease (l.shared).output_pending room).1 pending e in
      ap (λ k. record (l.shared) { output_pending = k }) back

  send_reserved-IsTracked :
      (queue_frame : V → V × Option ℕ)
      → readiness_ok (frame_readiness api l.shared l.server) ≡ true
      → IsTracked api l (send_reserved api video ch l queue_frame)
  unfolding send_reserved record_frame_queued
  send_reserved-IsTracked queue_frame ready =
      elim (Option-cases (try_reserve (l.shared).output_pending)) [
        | inl e ↦ rw (e, send_reserved) (inr (refl, refl))
        | inr (pending, e) ↦
            let done = queue_rdpegfx_frame api video queue_frame l.server in
            elim (Option-cases done.1) [
              | inl f ↦ rw (e, f, send_reserved) (inr (refl, given_back done.0 pending e))
              | inr (q, f) ↦
                  elim (Option-cases (send_rdpegfx_dvc_messages ch q.on_channel q.dvc_messages)) [
                    | inl g ↦ rw (e, f, g, send_reserved) (inr (refl, given_back done.0 pending e))
                    | inr (svc, g) ↦ rw (e, f, g, send_reserved) (inl (refl, ready, refl))
                  ]
            ]
      ]

  avc420-IsTracked :
      (surface_id : ℕ) (bytes : List ℕ) (regions : List Avc420Region) (timestamp_ms : ℕ)
      → IsTracked api l
          (send_tracked_avc420_rdpegfx_frame api video ch l surface_id bytes regions timestamp_ms)
  unfolding send_tracked_avc420_rdpegfx_frame
  avc420-IsTracked surface_id bytes regions timestamp_ms =
      elim (Bool-cases (not (can_send_frame api video l) || not (non_empty_list regions))) [
        | inl e ↦ rw (e, send_tracked_avc420_rdpegfx_frame) (inr (refl, refl))
        | inr e ↦
            let ready : can_send_frame api video l ≡ true = ground arith in
            rw (e, send_tracked_avc420_rdpegfx_frame)
              (send_reserved-IsTracked
                (λ server. video.send_avc420_frame server surface_id bytes regions timestamp_ms)
                ready)
      ]

  avc444-IsTracked :
      (surface_id : ℕ) (encoding : Avc444FrameEncoding) (data1 : List ℕ)
      (regions1 : List Avc420Region) (data2 : Option (List ℕ))
      (regions2 : Option (List Avc420Region)) (timestamp_ms : ℕ)
      → IsTracked api l (
          send_tracked_avc444_rdpegfx_frame api video ch l surface_id encoding data1 regions1 data2
            regions2 timestamp_ms)
  unfolding send_tracked_avc444_rdpegfx_frame
  avc444-IsTracked surface_id encoding data1 regions1 data2 regions2 timestamp_ms =
      elim (Bool-cases (ch.closed_at_first || not (can_send_frame api video l))) [
        | inl e ↦ rw (e, send_tracked_avc444_rdpegfx_frame) (inr (refl, refl))
        | inr e ↦
            elim (Option-cases (validate_avc444_send_shape encoding regions1 data2 regions2)) [
              | inl f ↦ rw (e, f, send_tracked_avc444_rdpegfx_frame) (inr (refl, refl))
              | inr (send_encoding, f) ↦
                  let ready : can_send_frame api video l ≡ true = ground arith in
                  rw (e, f, send_tracked_avc444_rdpegfx_frame)
                    (send_reserved-IsTracked
                      (λ server.
                        video.send_avc444v2_frame server surface_id send_encoding data1 regions1
                          data2 regions2 timestamp_ms)
                      ready)
            ]
      ]

  by_codec-IsTracked :
      (surface_id : ℕ) (frame : EncodedEgfxFrame) (damage : List Region)
      (timestamp_ms width height qp : ℕ)
      → IsTracked api l
          (send_by_codec api video ch l surface_id frame damage timestamp_ms width height qp)
  unfolding send_by_codec
  by_codec-IsTracked surface_id (avc420_frame bytes) damage timestamp_ms width height qp =
      let regions = damage_regions_to_avc420 damage width height qp in
      avc420-IsTracked surface_id bytes
        (if non_empty_list regions then regions else avc420_full_frame_region width height qp ∷ [])
        timestamp_ms
  by_codec-IsTracked surface_id (avc444_frame f) damage timestamp_ms width height qp =
      let two = non_empty_list f.stream2_regions in
      avc444-IsTracked surface_id f.encoding f.stream1
        (damage_regions_to_avc420 f.stream1_regions width height qp)
        (if two then some f.stream2 else none)
        (if two then some (damage_regions_to_avc420 f.stream2_regions width height qp) else none)
        timestamp_ms

  state_cases : (s : EncodedFrameState) → (s ≡ sendable) ⊎ ((s ≡ skipped) ⊎ (s ≡ invalid))
  state_cases sendable = inl refl
  state_cases skipped = inr (inl refl)
  state_cases invalid = inr (inr refl)

  -- Sending an encoded frame, with at most as many slots of the output queue taken as it has: either
  -- the call says so, the frame was fit to be sent, the window, the queue and the transport were
  -- ready, and one more frame is in flight; or it says not, and the shared state is as before, with
  -- the slot that was taken given back, whatever the protocol server and the channel do.
  pub send_tracked_encoded_egfx_frame-IsTracked :
      (surface_id : ℕ) (frame : EncodedEgfxFrame) (damage : List Region)
      (timestamp_ms width height qp : ℕ)
      → IsTracked api l (
          send_tracked_encoded_egfx_frame api video ch l surface_id frame damage timestamp_ms width
            height qp)
        × ((frame_state frame ≡ sendable)
            ⊎ ((send_tracked_encoded_egfx_frame api video ch l surface_id frame damage timestamp_ms
                  width height qp).1
                ≡ false))
  unfolding send_tracked_encoded_egfx_frame
  send_tracked_encoded_egfx_frame-IsTracked surface_id frame damage timestamp_ms width height qp =
      elim (state_cases (frame_state frame)) [
        | inl e ↦
            rw (e, send_tracked_encoded_egfx_frame)
              (by_codec-IsTracked surface_id frame damage timestamp_ms width height qp, inl refl)
        | inr (inl e) ↦ rw (e, send_tracked_encoded_egfx_frame) (inr (refl, refl), inr refl)
        | inr (inr e) ↦ rw (e, send_tracked_encoded_egfx_frame) (inr (refl, refl), inr refl)
      ]
