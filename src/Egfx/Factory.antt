-- ===== src/Egfx/Factory.antt =====
-- src/egfx/factory.rs: capability policy, and the callbacks by which the protocol server and the
-- connection set-up drive the shared state.
pub mod Events
use hypr_rdp.Base.{
  ℕ, ◌+◌, Bool, true, false, not, ◌&&◌, ◌||◌, Option, none, some, List, [], ◌∷◌, ltb, if◌then◌else◌,
  u32,
}
use hypr_rdp.Egfx.Shared.{
  EgfxShared, EgfxCodecPolicy, auto, avc420, avc444, clear_codec, allows_avc, clear_current_surface,
}
use hypr_rdp.Egfx.Shared.Window.{
  record_frame_queued, record_frame_ack, clear_frame_queue, note_gfx_ready, request_full_frame,
  take_full_frame_request, reset_for_new_client,
}

-- The variants that the source matches on. A flag word is kept as the one bit that is read:
-- AVC420_ENABLED of 8.1, AVC_DISABLED of the later versions.
pub data CapabilitySet : Type 0 where
  v8 v10_1 : CapabilitySet
  v8_1 : (avc420_enabled : Bool) → CapabilitySet
  v10 v10_2 v10_3 v10_4 v10_5 v10_6 v10_6_err v10_7 : (avc_disabled : Bool) → CapabilitySet

-- The inner `match cap`: whether the client decodes AVC420 and AVC444.
abbrev pub client_support : CapabilitySet → Bool × Bool
client_support v8 = (false, false)
client_support (v8_1 enabled) = (enabled, false)
client_support v10_1 = (true, true)
client_support (v10 disabled) = (not disabled, not disabled)
client_support (v10_2 disabled) = (not disabled, not disabled)
client_support (v10_3 disabled) = (not disabled, not disabled)
client_support (v10_4 disabled) = (not disabled, not disabled)
client_support (v10_5 disabled) = (not disabled, not disabled)
client_support (v10_6 disabled) = (not disabled, not disabled)
client_support (v10_6_err disabled) = (not disabled, not disabled)
client_support (v10_7 disabled) = (not disabled, not disabled)

policy_avc444 : EgfxCodecPolicy → Bool → Bool → Bool
policy_avc444 auto supported disable_avc444 = supported && not disable_avc444
policy_avc444 avc444 supported disable_avc444 = supported && not disable_avc444
policy_avc444 avc420 _ _ = false
policy_avc444 clear_codec _ _ = false

unfoldable pub capability_avc_support : CapabilitySet → Bool → EgfxCodecPolicy → Bool × Bool
unfolding policy_avc444
capability_avc_support cap disable_avc444 policy =
    let (avc420_ok, avc444_ok) = client_support cap in
    if allows_avc policy
    then (avc420_ok, policy_avc444 policy avc444_ok disable_avc444)
    else (false, false)

unfoldable pub preferred_capabilities_for_policy : EgfxCodecPolicy → List CapabilitySet
preferred_capabilities_for_policy clear_codec = v10_7 false ∷ v10 false ∷ v8_1 false ∷ v8 ∷ []
preferred_capabilities_for_policy auto = v10_7 false ∷ v10 false ∷ v8_1 true ∷ v8 ∷ []
preferred_capabilities_for_policy avc420 = v10_7 false ∷ v10 false ∷ v8_1 true ∷ v8 ∷ []
preferred_capabilities_for_policy avc444 = v10_7 false ∷ v10 false ∷ v8_1 true ∷ v8 ∷ []

unfoldable pub set_sender : EgfxShared → ℕ → EgfxShared
set_sender s sender = record s { event_sender = some sender }

-- The new server is named by `handle`; the second part is the size given to
-- `set_output_dimensions`, if any.
unfoldable pub build_server_with_handle : EgfxShared → ℕ → EgfxShared × Option (ℕ × ℕ)
unfolding reset_for_new_client
build_server_with_handle s handle =
    let t = reset_for_new_client s in
    let (w, h) = t.surface_size in
    (record t { handle = some handle }, if ltb 0 w && ltb 0 h then some (w, h) else none)

unfoldable pub on_frame_ack : EgfxShared → ℕ → ℕ → EgfxShared
unfolding record_frame_ack
on_frame_ack s frame_id queue_depth = record_frame_ack s frame_id queue_depth

unfoldable pub capabilities_advertise : EgfxShared → EgfxShared
unfolding request_full_frame
capabilities_advertise s = if s.ready then request_full_frame s else s

unfoldable pub on_ready : EgfxShared → CapabilitySet → Bool → EgfxShared
unfolding capability_avc_support clear_frame_queue note_gfx_ready
on_ready s cap disable_avc444 =
    let (avc420_ok, avc444_ok) = capability_avc_support cap disable_avc444 s.codec_policy in
    let t = record s { avc_enabled = avc420_ok || avc444_ok; avc444_enabled = avc444_ok } in
    let u = clear_frame_queue t in
    let v = note_gfx_ready (record u { ready_generation = u32 (u.ready_generation + 1) }) in
    record v { ready = true }

unfoldable pub on_close : EgfxShared → EgfxShared
unfolding clear_frame_queue
on_close s = clear_frame_queue (record s { ready = false })

-- What `prepare_for_resize` does to the shared state after the server's resize, the PDUs being sent
-- or there being none; where sending fails, only the surface is cleared.
unfoldable pub resized : EgfxShared → EgfxShared
unfolding clear_frame_queue clear_current_surface
resized s =
    let t = clear_frame_queue (clear_current_surface s) in
    record t { ready_generation = u32 (t.ready_generation + 1) }

-- Everything that happens to the shared state, in the order in which it happens.
pub data Event : Type 0 where
  queued : (frame_id : ℕ) → Event
  acked : (frame_id queue_depth : ℕ) → Event
  advertised : Event
  becomes_ready : CapabilitySet → (disable_avc444 : Bool) → Event
  closes : Event
  resizes : Event
  takes_request : Event
  connects : (handle : ℕ) → Event

unfoldable pub step : EgfxShared → Event → EgfxShared
unfolding record_frame_queued on_frame_ack capabilities_advertise on_ready on_close resized
    take_full_frame_request build_server_with_handle
step s (queued frame_id) = record_frame_queued s frame_id
step s (acked frame_id queue_depth) = on_frame_ack s frame_id queue_depth
step s advertised = capabilities_advertise s
step s (becomes_ready cap disable_avc444) = on_ready s cap disable_avc444
step s closes = on_close s
step s resizes = resized s
step s takes_request = (take_full_frame_request s).0
step s (connects handle) = (build_server_with_handle s handle).0

unfoldable pub run : EgfxShared → List Event → EgfxShared
run s [] = s
run s (e ∷ es) = run (step s e) es
