-- ===== src/Egfx/Session.antt =====
-- `EgfxFrameSession` of src/egfx/rdpegfx.rs: what the capture of DMA buffers keeps of the graphics
-- channel between frames.
pub mod Coherent
mod Tests
use hypr_rdp.Base.{
  ℕ, Bool, true, false, not, ◌&&◌, ◌||◌, Option, none, some, List, [], ◌∷◌, ◌==◌, if◌then◌else◌,
  is_some,
}
use hypr_rdp.Capture.Damage.{Region}
use hypr_rdp.Egfx.Shared.{EgfxShared, EgfxFrameReadiness, transport_unavailable}
use hypr_rdp.Egfx.Transport.{ServerApi, Channel, Link, frame_readiness}
use hypr_rdp.Egfx.Surface.{SurfaceApi, init_or_reuse_surface}
use hypr_rdp.Egfx.Avc.Frames.{EncodedEgfxFrame}
use hypr_rdp.Egfx.Avc.{VideoApi, send_tracked_encoded_egfx_frame}

pub record EgfxFrameSession : Type 0 where
  pub session_ready : Bool
  pub session_generation : ℕ
  pub session_handle : Option ℕ
  pub session_sender : Option ℕ
  pub session_surface : Option ℕ

pub record EgfxFrameSessionRefresh : Type 0 where
  pub now_ready : Bool
  pub became_unready : Bool
  pub generation_changed : Bool

abbrev pub new_session : EgfxFrameSession
new_session = record {
  session_ready = false;
  session_generation = 0;
  session_handle = none;
  session_sender = none;
  session_surface = none;
}

abbrev pub reset_transport : EgfxFrameSession → EgfxFrameSession
reset_transport f = record f {
  session_handle = none;
  session_sender = none;
  session_surface = none;
}

-- `shared.is_ready() && shared.is_avc_enabled()`.
abbrev pub avc_ready : EgfxShared → Bool
avc_ready s = s.ready && s.avc_enabled

-- The readiness is noted, and a transport that was lost is forgotten.
unfoldable pub note_ready : EgfxFrameSession → Bool → EgfxFrameSession
note_ready f ready =
    let g = record f { session_ready = ready } in
    if f.session_ready && not ready then reset_transport g else g

unfoldable pub note_generation : EgfxFrameSession → ℕ → EgfxFrameSession
note_generation f generation =
    if f.session_generation == generation
    then f
    else record f { session_generation = generation; session_surface = none }

unfoldable pub take_transport : EgfxFrameSession → EgfxShared → EgfxFrameSession
take_transport f s =
    if f.session_ready && (not (is_some f.session_handle) || not (is_some f.session_sender))
    then record f { session_handle = s.handle; session_sender = s.event_sender }
    else f

unfoldable pub refresh : EgfxFrameSession → EgfxShared → EgfxFrameSession × EgfxFrameSessionRefresh
unfolding note_ready note_generation take_transport
refresh f s = (
  take_transport (note_generation (note_ready f (avc_ready s)) s.ready_generation) s,
  record {
    now_ready = avc_ready s;
    became_unready = f.session_ready && not (avc_ready s);
    generation_changed = not (f.session_generation == s.ready_generation);
  },
)

module _ {V E : Type 0} (api : ServerApi V E) (surfaces : SurfaceApi V) where
  unfoldable pub ensure_surface :
      EgfxFrameSession
      → Channel
      → Link V E
      → (width height : ℕ) → (EgfxFrameSession × Link V E) × Bool
  unfolding init_or_reuse_surface
  ensure_surface f ch l width height =
      if not f.session_ready
      then ((f, l), false)
      else if is_some f.session_surface
      then ((f, l), true)
      else if not (is_some f.session_handle && is_some f.session_sender)
      then ((f, l), false)
      else let (after, surface) = init_or_reuse_surface api surfaces ch l width height in
        ((record f { session_surface = surface }, after), is_some surface)

module _ {V E : Type 0} (api : ServerApi V E) (video : VideoApi V) where
  -- `TransportUnavailable` where there is no handle.
  unfoldable pub session_readiness : EgfxFrameSession → Link V E → EgfxFrameReadiness
  unfolding frame_readiness
  session_readiness f l =
      if is_some f.session_handle
      then frame_readiness api l.shared l.server
      else transport_unavailable

  unfoldable pub send_encoded_frame :
      EgfxFrameSession
      → Channel
      → Link V E
      → EncodedEgfxFrame
      → List Region
      → (timestamp_ms width height qp : ℕ) → Link V E × Bool
  unfolding send_tracked_encoded_egfx_frame
  send_encoded_frame f ch l frame damage timestamp_ms width height qp =
      if not (is_some f.session_handle && is_some f.session_sender)
      then (l, false)
      else elim f.session_surface [
        | none ↦ (l, false)
        | some surface_id ↦
            send_tracked_encoded_egfx_frame api video ch l surface_id frame damage timestamp_ms
              width height qp
      ]

-- A call that changes the session, with the shared state as the other threads left it.
pub data SessionCall (V E : Type 0) : Type 0 where
  refreshes : EgfxShared → SessionCall V E
  ensures : Channel → Link V E → (width height : ℕ) → SessionCall V E

module _ {V E : Type 0} (api : ServerApi V E) (surfaces : SurfaceApi V) where
  unfoldable pub session_step : EgfxFrameSession → SessionCall V E → EgfxFrameSession
  unfolding refresh ensure_surface
  session_step f (refreshes s) = (refresh f s).0
  session_step f (ensures ch l width height) =
      ((ensure_surface api surfaces f ch l width height).0).0

  unfoldable pub session_run : EgfxFrameSession → List (SessionCall V E) → EgfxFrameSession
  unfolding session_step
  session_run f [] = f
  session_run f (c ∷ cs) = session_run (session_step f c) cs
