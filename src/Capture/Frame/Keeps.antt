-- ===== src/Capture/Frame/Keeps.antt =====
-- What one captured frame leaves of the damage and of a request for a full frame, in
-- process_clearcodec of src/capture/frame.rs.
use hypr_rdp.Base.{◌≢◌, none, ℕ, ◌+◌, ◌≡◌, ◌⊎◌, Bool, true, false, List, [], is_some, some, u32}
use hypr_rdp.Capture.Damage.{Region}
use hypr_rdp.Capture.Damage.Detector.{detect, update_reference_regions}
use hypr_rdp.Egfx.Shared.{EgfxShared}
use hypr_rdp.Egfx.Transport.{ServerApi, Link, ClearOutcome, queued_bytes, send_clearcodec_damage}
use hypr_rdp.Egfx.Surface.{SurfaceApi, init_or_reuse_surface}
use hypr_rdp.Egfx.Surface.Flow.{SameFlow}
use hypr_rdp.Capture.Frame.{FrameProcessor, FrameChannel, full_refresh, frame_damage}

-- How a frame begins: the damage that waits stays; with the generation it knows and no encoder of the
-- other path the processor is as it was, and otherwise it takes the generation and forgets that
-- encoder, its surface, its first frame and what it compared with.
abbrev pub IsRestart : FrameProcessor → EgfxShared → FrameProcessor → Type 0
IsRestart p s q =
    (q.pending_damage_regions ≡ p.pending_damage_regions)
    × (((s.ready_generation ≡ p.egfx_generation) × (is_some p.h264_encoder ≡ false) × (q ≡ p))
        ⊎ (((s.ready_generation ≢ p.egfx_generation) ⊎ (is_some p.h264_encoder ≡ true))
            × (q.egfx_generation ≡ s.ready_generation)
            × (q.h264_encoder ≡ none)
            × (q.egfx_surface_id ≡ none)
            × (q.sent_first_frame ≡ false)
            × (q.damage_detector.reference_frame ≡ none)))

-- What the processor is after it sent a frame with the regions.
abbrev pub Remembers : FrameProcessor → List ℕ → ℕ → List Region → FrameProcessor → Type 0
Remembers p bytes surface_id damage q = q ≡ record p {
  sent_first_frame = true;
  egfx_surface_id = some surface_id;
  damage_detector =
      update_reference_regions p.damage_detector bytes p.width p.height p.stride damage;
  pending_damage_regions = [];
}

module _ {V E : Type 0} where
  -- Nothing was sent: the processor is as it was, with all that waits and all it compares with, and so
  -- are the frames in flight and the request.
  abbrev pub Waits : FrameProcessor → Link V E → FrameProcessor → Link V E → Type 0
  Waits p l q m = (q ≡ p) × SameFlow l.shared m.shared

  -- There was nothing to send: no full frame is wanted, and the detector sees no change where damage
  -- waits. Nothing but that damage is cleared.
  abbrev pub Unchanged : FrameProcessor → Link V E → List ℕ → FrameProcessor → Link V E → Type 0
  Unchanged p l bytes q m =
      (full_refresh p l ≡ false)
      × (detect p.damage_detector bytes p.width p.height p.stride p.pending_damage_regions ≡ [])
      × (q ≡ record p { pending_damage_regions = [] })
      × (m ≡ l)

  -- The capture ends, with nothing more in flight.
  abbrev pub Ends : FrameProcessor → Link V E → FrameProcessor → Link V E → Type 0
  Ends p l q m = (q ≡ p) × ((m.shared).in_flight ≡ (l.shared).in_flight)

module _ {V E : Type 0} (api : ServerApi V E) (surfaces : SurfaceApi V) (ch : FrameChannel) where
  -- The call that sends the frame: on the surface, of the captured bytes, with the whole damage.
  abbrev pub sending :
      FrameProcessor → Link V E → List ℕ → ℕ → List Region → Link V E × ClearOutcome
  sending p l bytes surface_id damage =
      send_clearcodec_damage api ch.for_frame
        (init_or_reuse_surface api surfaces ch.for_surface l p.width p.height).0 surface_id bytes
        p.width p.height p.stride damage 0 p.pixel_format

  -- A frame with all the damage went out on the surface, one more frame is in flight, the request for
  -- a full frame is met, and the processor remembers just that frame.
  abbrev pub Queued : FrameProcessor → Link V E → List ℕ → FrameProcessor → Link V E → Type 0
  Queued p l bytes q m =
      (surface_id : ℕ) × (n : ℕ) × ((init_or_reuse_surface api surfaces ch.for_surface l p.width
          p.height).1
        ≡ some surface_id)
      × ((sending p l bytes surface_id (frame_damage p l bytes)).1 ≡ queued_bytes n)
      × (m.server ≡ (sending p l bytes surface_id (frame_damage p l bytes)).0.server)
      × (m.encoder ≡ (sending p l bytes surface_id (frame_damage p l bytes)).0.encoder)
      × ((m.shared).in_flight ≡ u32 ((l.shared).in_flight + 1))
      × ((m.shared).force_full_frame ≡ false)
      × Remembers p bytes surface_id (frame_damage p l bytes) q

  abbrev pub Kept : FrameProcessor → Link V E → List ℕ → (FrameProcessor × Link V E) × Bool → Type 0
  Kept p l bytes r =
      ((r.1 ≡ true)
        × (Waits p l (r.0).0 (r.0).1
            ⊎ (Unchanged p l bytes (r.0).0 (r.0).1 ⊎ Queued p l bytes (r.0).0 (r.0).1)))
      ⊎ ((r.1 ≡ false) × Ends p l (r.0).0 (r.0).1)
