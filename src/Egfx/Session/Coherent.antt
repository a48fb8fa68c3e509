-- ===== src/Egfx/Session/Coherent.antt =====
-- What a frame session of src/egfx/rdpegfx.rs holds, whatever the other threads do between its calls.
use hypr_rdp.Base.{
  ℕ, ◌≡◌, ◌⊎◌, inl, inr, refl, Bool, true, false, not, ◌&&◌, ◌||◌, none, List, [], ◌∷◌, ◌==◌,
  is_some, Bool-cases, sym, ◌∙◌, arith,
}
use hypr_rdp.Capture.Damage.{Region}
use hypr_rdp.Egfx.Shared.{EgfxShared}
use hypr_rdp.Egfx.Transport.{ServerApi, Channel, Link}
use hypr_rdp.Egfx.Surface.{SurfaceApi}
use hypr_rdp.Egfx.Avc.Frames.{EncodedEgfxFrame}
use hypr_rdp.Egfx.Avc.{VideoApi}
use hypr_rdp.Egfx.Session.{
  EgfxFrameSession, new_session, avc_ready, note_ready, note_generation, take_transport, refresh,
  ensure_surface, send_encoded_frame, SessionCall, refreshes, ensures, session_step, session_run,
}

-- A session that is not ready holds nothing; a surface is held only with a way to draw on it.
pub record IsCoherent (f : EgfxFrameSession) : Type 0 where
  pub unready_handle : f.session_ready ≡ false → f.session_handle ≡ none
  pub unready_sender : f.session_ready ≡ false → f.session_sender ≡ none
  pub unready_surface : f.session_ready ≡ false → f.session_surface ≡ none
  pub drawn :
      is_some f.session_surface ≡ true
      → (is_some f.session_handle ≡ true) × (is_some f.session_sender ≡ true)

new_session-IsCoherent : IsCoherent new_session
new_session-IsCoherent = record {
  unready_handle = λ _. refl;
  unready_sender = λ _. refl;
  unready_surface = λ _. refl;
  drawn = λ e. absurd (ground arith);
}

made_ready-IsCoherent :
    (f : EgfxFrameSession) → IsCoherent f → IsCoherent (record f { session_ready = true })
made_ready-IsCoherent f c = record {
  unready_handle = λ e. absurd (ground arith);
  unready_sender = λ e. absurd (ground arith);
  unready_surface = λ e. absurd (ground arith);
  drawn = c.drawn;
}

note_ready-IsCoherent :
    (f : EgfxFrameSession) (ready : Bool) → IsCoherent f → IsCoherent (note_ready f ready)
unfolding note_ready
note_ready-IsCoherent f true c = elim (Bool-cases f.session_ready) [
  | inl e ↦ rw (e, note_ready) (made_ready-IsCoherent f c)
  | inr e ↦ rw (e, note_ready) (made_ready-IsCoherent f c)
]
note_ready-IsCoherent f false c = elim (Bool-cases f.session_ready) [
  | inl e ↦
      rw (e, note_ready)
        (record {
          unready_handle = λ _. refl;
          unready_sender = λ _. refl;
          unready_surface = λ _. refl;
          drawn = λ d. absurd (ground arith);
        })
  | inr e ↦
      rw (e, note_ready)
        (record {
          unready_handle = λ _. c.unready_handle e;
          unready_sender = λ _. c.unready_sender e;
          unready_surface = λ _. c.unready_surface e;
          drawn = c.drawn;
        })
]

note_generation-IsCoherent :
    (f : EgfxFrameSession) (generation : ℕ)
    → IsCoherent f
    → IsCoherent (note_generation f generation)
unfolding note_generation
note_generation-IsCoherent f generation c = elim (Bool-cases (f.session_generation == generation)) [
  | inl e ↦ rw (e, note_generation) c
  | inr e ↦
      rw (e, note_generation)
        (record {
          unready_handle = c.unready_handle;
          unready_sender = c.unready_sender;
          unready_surface = λ _. refl;
          drawn = λ d. absurd (ground arith);
        })
]

take_transport-IsCoherent :
    (f : EgfxFrameSession) (s : EgfxShared) → IsCoherent f → IsCoherent (take_transport f s)
unfolding take_transport
take_transport-IsCoherent f s c =
    elim (Bool-cases
      (f.session_ready && (not (is_some f.session_handle) || not (is_some f.session_sender)))) [
        | inl e ↦
            let ready : f.session_ready ≡ true = ground arith in
            rw (e, take_transport)
              (record {
                unready_handle = λ u. absurd (ground arith);
                unready_sender = λ u. absurd (ground arith);
                unready_surface = λ u. absurd (ground arith);
                drawn = λ d. let (h, k) = c.drawn d in absurd (ground arith);
              })
        | inr e ↦ rw (e, take_transport) c
      ]

-- After a refresh no surface is held, or the one from before, of the same generation, and the channel
-- is ready.
abbrev pub IsKept : EgfxFrameSession → EgfxShared → Type 0
IsKept f s =
    (((refresh f s).0).session_surface ≡ none)
    ⊎ ((((refresh f s).0).session_surface ≡ f.session_surface)
        × (f.session_generation ≡ s.ready_generation)
        × (avc_ready s ≡ true))

refresh-IsCoherent :
    (f : EgfxFrameSession) (s : EgfxShared) → IsCoherent f → IsCoherent (refresh f s).0
unfolding refresh
refresh-IsCoherent f s c =
    take_transport-IsCoherent (note_generation (note_ready f (avc_ready s)) s.ready_generation) s (
      note_generation-IsCoherent (note_ready f (avc_ready s)) s.ready_generation
        (note_ready-IsCoherent f (avc_ready s) c))

module _ {V E : Type 0} (api : ServerApi V E) (surfaces : SurfaceApi V) where
  ensure_surface-IsCoherent :
      (f : EgfxFrameSession) (ch : Channel) (l : Link V E) (width height : ℕ)
      → IsCoherent f
      → IsCoherent ((ensure_surface api surfaces f ch l width height).0).0
  unfolding ensure_surface
  ensure_surface-IsCoherent f ch l width height c = elim (Bool-cases f.session_ready) [
    | inr e ↦ simp (e, ensure_surface) c
    | inl e ↦ elim (Bool-cases (is_some f.session_surface)) [
      | inl g ↦ simp (e, g, ensure_surface) c
      | inr g ↦ elim (Bool-cases (is_some f.session_handle && is_some f.session_sender)) [
        | inr h ↦ simp (e, g, h, ensure_surface) c
        | inl h ↦
            simp (e, g, h, ensure_surface)
              (record {
                unready_handle = λ u. absurd (ground arith);
                unready_sender = λ u. absurd (ground arith);
                unready_surface = λ u. absurd (ground arith);
                drawn = λ d. ground arith;
              })
      ]
    ]
  ]

  session_step-IsCoherent :
      (f : EgfxFrameSession) (c : SessionCall V E)
      → IsCoherent f
      → IsCoherent (session_step api surfaces f c)
  unfolding session_step
  session_step-IsCoherent f (refreshes s) h = refresh-IsCoherent f s h
  session_step-IsCoherent f (ensures ch l width height) h =
      ensure_surface-IsCoherent f ch l width height h

  session_run-IsCoherent :
      (f : EgfxFrameSession) (cs : List (SessionCall V E))
      → IsCoherent f
      → IsCoherent (session_run api surfaces f cs)
  unfolding session_run
  session_run-IsCoherent f [] h = h
  session_run-IsCoherent f (c ∷ cs) h =
      session_run-IsCoherent (session_step api surfaces f c) cs (session_step-IsCoherent f c h)

take_transport-surface :
    (f : EgfxFrameSession) (s : EgfxShared)
    → (take_transport f s).session_surface ≡ f.session_surface
unfolding take_transport
take_transport-surface f s =
    elim (Bool-cases
      (f.session_ready && (not (is_some f.session_handle) || not (is_some f.session_sender)))) [
        | inl e ↦ simp (e, take_transport)
        | inr e ↦ simp (e, take_transport)
      ]

note_ready-lost :
    (f : EgfxFrameSession) → IsCoherent f → (note_ready f false).session_surface ≡ none
unfolding note_ready
note_ready-lost f c = elim (Bool-cases f.session_ready) [
  | inl e ↦ simp (e, note_ready)
  | inr e ↦ let gone = c.unready_surface e in simp (e, gone, note_ready)
]

note_ready-same : (f : EgfxFrameSession) → (note_ready f true).session_surface ≡ f.session_surface
unfolding note_ready
note_ready-same f = elim (Bool-cases f.session_ready) [
  | inl e ↦ simp (e, note_ready)
  | inr e ↦ simp (e, note_ready)
]

note_ready-generation :
    (f : EgfxFrameSession) (ready : Bool)
    → (note_ready f ready).session_generation ≡ f.session_generation
unfolding note_ready
note_ready-generation f ready = elim (Bool-cases (f.session_ready && not ready)) [
  | inl e ↦ simp (e, note_ready)
  | inr e ↦ simp (e, note_ready)
]

note_generation-surface :
    (f : EgfxFrameSession) (generation : ℕ)
    → ((note_generation f generation).session_surface ≡ none)
      ⊎ (((note_generation f generation).session_surface ≡ f.session_surface)
          × (f.session_generation ≡ generation))
unfolding note_generation
note_generation-surface f generation = elim (Bool-cases (f.session_generation == generation)) [
  | inl e ↦ inr (simp (e, note_generation), ground arith)
  | inr e ↦ inl (simp (e, note_generation))
]

refresh-IsKept : (f : EgfxFrameSession) (s : EgfxShared) → IsCoherent f → IsKept f s
unfolding refresh
refresh-IsKept f s c =
    let noted = note_ready f (avc_ready s) in
    let taken = take_transport-surface (note_generation noted s.ready_generation) s in
    elim (note_generation-surface noted s.ready_generation) [
      | inl none_left ↦ inl (taken ∙ none_left)
      | inr (same, generation) ↦ elim (Bool-cases (avc_ready s)) [
        | inl e ↦ inr (
          taken ∙ same ∙ rw e (note_ready-same f),
          sym (note_ready-generation f (avc_ready s)) ∙ generation,
          e,
        )
        | inr e ↦ inl (taken ∙ same ∙ rw e (note_ready-lost f c))
      ]
    ]

module _ {V E : Type 0} (api : ServerApi V E) (surfaces : SurfaceApi V) (video : VideoApi V) where
  unready_sends_nothing :
      (f : EgfxFrameSession)
      → IsCoherent f
      → (ch : Channel) (l : Link V E) (frame : EncodedEgfxFrame) (damage : List Region)
        (timestamp_ms width height qp : ℕ)
      → (f.session_ready ≡ true)
        ⊎ (send_encoded_frame api video f ch l frame damage timestamp_ms width height qp
            ≡ (l, false))
  unfolding send_encoded_frame
  unready_sends_nothing f c ch l frame damage timestamp_ms width height qp =
      elim (Bool-cases f.session_ready) [
        | inl e ↦ inl e
        | inr e ↦ let gone = c.unready_handle e in inr (simp (gone, send_encoded_frame))
      ]

  -- Whatever calls a session has had since it was new, and whatever the shared state was at each of
  -- them: without readiness it has no handle, sender or surface, and a surface never without handle
  -- and sender; after a refresh it has no surface, or still the one from before, if the channel is
  -- ready and the generation the same; and a session that is not ready sends nothing and changes
  -- nothing.
  pub session_run-IsSound :
      (calls : List (SessionCall V E)) (s : EgfxShared) (ch : Channel) (l : Link V E)
      (frame : EncodedEgfxFrame) (damage : List Region) (timestamp_ms width height qp : ℕ)
      → IsCoherent (session_run api surfaces new_session calls)
        × IsKept (session_run api surfaces new_session calls) s
        × (((session_run api surfaces new_session calls).session_ready ≡ true)
            ⊎ (send_encoded_frame api video
                  (session_run api surfaces new_session calls)
                  ch
                  l
                  frame
                  damage
                  timestamp_ms
                  width
                  height
                  qp
                ≡ (l, false)))
  session_run-IsSound calls s ch l frame damage timestamp_ms width height qp =
      let f = session_run api surfaces new_session calls in
      let coherent = session_run-IsCoherent api surfaces new_session calls new_session-IsCoherent in
      (
        coherent,
        refresh-IsKept f s coherent,
        unready_sends_nothing f coherent ch l frame damage timestamp_ms width height qp,
      )
