-- ===== src/Egfx/Surface/Flow.antt =====
-- Setting up a surface in src/egfx/rdpegfx.rs leaves the flow of frames alone.
use hypr_rdp.Base.{◌≡◌, refl, ℕ, Bool-cases, Option-cases, inl, inr}
use hypr_rdp.Egfx.Shared.{
  EgfxShared, current_surface_id, set_current_surface, clear_current_surface,
}
use hypr_rdp.Egfx.Transport.{ServerApi, Channel, Link}
use hypr_rdp.Egfx.Surface.{SurfaceApi, init_surface, make_surface, init_or_reuse_surface}

-- The frames in flight and the request for a full frame are as they were.
abbrev pub SameFlow : EgfxShared → EgfxShared → Type 0
SameFlow s t = (t.in_flight ≡ s.in_flight) × (t.force_full_frame ≡ s.force_full_frame)

module _ {V E : Type 0} (api : ServerApi V E) (surfaces : SurfaceApi V) where
  make_surface-SameFlow :
      (ch : Channel) (l : Link V E) (width height : ℕ)
      → SameFlow l.shared ((make_surface api surfaces ch l width height).0).shared
  unfolding make_surface set_current_surface
  make_surface-SameFlow ch l width height =
      elim (Option-cases (init_surface api surfaces ch l.server width height).1) [
        | inl e ↦ rw (e, make_surface) (refl, refl)
        | inr (surface_id, e) ↦ rw (e, make_surface) (refl, refl)
      ]

  pub init_or_reuse-SameFlow :
      (ch : Channel) (l : Link V E) (width height : ℕ)
      → SameFlow l.shared ((init_or_reuse_surface api surfaces ch l width height).0).shared
  unfolding init_or_reuse_surface clear_current_surface
  init_or_reuse-SameFlow ch l width height =
      elim (Option-cases (current_surface_id l.shared width height)) [
        | inl e ↦ rw (e, init_or_reuse_surface) (make_surface-SameFlow ch l width height)
        | inr (surface_id, e) ↦
            let cleared =
              make_surface-SameFlow ch (record l { shared = clear_current_surface l.shared }) width
                height in
            elim (Bool-cases (api.server_ready l.server)) [
              | inl f ↦ elim (Option-cases (api.get_surface l.server surface_id)) [
                | inl g ↦ rw (e, f, g, init_or_reuse_surface) cleared
                | inr (size, g) ↦ rw (e, f, g, init_or_reuse_surface) (refl, refl)
              ]
              | inr f ↦ rw (e, f, init_or_reuse_surface) cleared
            ]
      ]
