-- ===== src/Egfx/Surface.antt =====
-- The set-up of surfaces in src/egfx/rdpegfx.rs. What of the protocol server is called here alone is a
-- parameter of its own.
pub mod Flow
use hypr_rdp.Base.{
  ℕ, Bool, true, false, not, ◌||◌, Option, none, some, List, if◌then◌else◌, is_some,
}
use hypr_rdp.Egfx.Shared.{current_surface_id, set_current_surface, clear_current_surface}
use hypr_rdp.Egfx.Factory.{resized}
use hypr_rdp.Egfx.Transport.{ServerApi, Channel, Link, has_messages, send_rdpegfx_dvc_messages}

pub record SurfaceApi (V : Type 0) : Type 0 where
  pub set_output_dimensions : V → (width height : ℕ) → V
  pub create_surface : V → (width height : ℕ) → V × Option ℕ
  pub map_surface_to_output : V → (surface_id : ℕ) → V
  pub resize : V → (width height : ℕ) → V

-- Whether messages, if there are any, reach the event channel.
abbrev pub delivers : Channel → ℕ → List ℕ → Bool
delivers ch channel messages =
    not (has_messages messages) || is_some (send_rdpegfx_dvc_messages ch channel messages)

module _ {V E : Type 0} (api : ServerApi V E) (surfaces : SurfaceApi V) where
  -- From `set_output_dimensions` on.
  create_and_map : Channel → V → (channel width height : ℕ) → V × Option ℕ
  create_and_map ch server channel width height =
      let (made, surface) =
        surfaces.create_surface (surfaces.set_output_dimensions server width height) width height in
      elim surface [
        | none ↦ (made, none)
        | some surface_id ↦
            let (drained, messages) =
              api.drain_output (surfaces.map_surface_to_output made surface_id) in
            (drained, if delivers ch channel messages then some surface_id else none)
      ]

  unfoldable pub init_surface : Channel → V → (width height : ℕ) → V × Option ℕ
  unfolding create_and_map
  init_surface ch server width height =
      if ch.closed_at_first || not (api.server_ready server)
      then (server, none)
      else elim (api.channel_id server) [
        | none ↦ (server, none)
        | some channel ↦ create_and_map ch server channel width height
      ]

  -- The surface is made anew.
  make_surface : Channel → Link V E → (width height : ℕ) → Link V E × Option ℕ
  unfolding init_surface
  make_surface ch l width height =
      let (server, surface) = init_surface ch l.server width height in
      elim surface [
        | none ↦ (record l { server = server }, none)
        | some surface_id ↦ (
          record l {
            server = server;
            shared = set_current_surface l.shared surface_id width height;
          },
          some surface_id,
        )
      ]

  unfoldable pub init_or_reuse_surface :
      Channel → Link V E → (width height : ℕ) → Link V E × Option ℕ
  unfolding make_surface
  init_or_reuse_surface ch l width height = elim (current_surface_id l.shared width height) [
    | none ↦ make_surface ch l width height
    | some surface_id ↦
        let cleared =
          make_surface ch (record l { shared = clear_current_surface l.shared }) width height in
        elim (api.server_ready l.server) [
          | false ↦ cleared
          | true ↦ elim (api.get_surface l.server surface_id) [
            | none ↦ cleared
            | some size ↦ (l, some surface_id)
          ]
        ]
  ]

  -- `handle` and `sender` are there if both of the shared state's are.
  resize_server : Channel → Link V E → ℕ → (width height : ℕ) → Link V E
  unfolding resized
  resize_server ch l channel width height =
      let (drained, messages) = api.drain_output (surfaces.resize l.server width height) in
      let shared =
        if delivers ch channel messages then resized l.shared else clear_current_surface l.shared in
      record l { server = drained; shared = shared }

  unfoldable pub prepare_for_resize : Channel → Link V E → (width height : ℕ) → Link V E
  unfolding resize_server
  prepare_for_resize ch l width height =
      if not (is_some (l.shared).handle) || not (is_some (l.shared).event_sender)
      then l
      else if not (api.server_ready l.server)
      then l
      else elim (api.channel_id l.server) [
        | none ↦ l
        | some channel ↦ resize_server ch l channel width height
      ]
