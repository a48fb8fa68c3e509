-- ===== src/Egfx/Factory/Events.antt =====
-- What holds of the shared state of src/egfx/shared.rs after any sequence of the callbacks of
-- src/egfx/factory.rs.
use hypr_rdp.Base.{
  not, ◌&&◌, ◌||◌, refl, ℕ, suc, ◌+◌, ◌≤◌, ◌<◌, ◌≡◌, ◌≢◌, Bool, true, false, List, [], ◌∷◌, arith,
  u32_max, ◌⊎◌, ◌↔◌,
}
use hypr_rdp.Egfx.Shared.{
  EgfxShared, EgfxCodecPolicy, auto, avc420, avc444, clear_codec, with_codec_policy, allows_avc,
}
use hypr_rdp.Egfx.Shared.Flow.{Counted}
use hypr_rdp.Egfx.Factory.{
  CapabilitySet, v8, v8_1, v10, v10_1, v10_2, v10_3, v10_4, v10_5, v10_6, v10_6_err, v10_7,
  client_support, capability_avc_support, Event, queued, acked, advertised, becomes_ready, closes,
  resizes, takes_request, connects, on_ready, step, run,
}

abbrev pub frames : List Event → ℕ
frames [] = 0
frames (queued id ∷ es) = suc (frames es)
frames (_ ∷ es) = frames es

-- What is kept by every event besides the counts: a surface or an AVC444 flag needs its condition.
pub record Inv (n : ℕ) (s : EgfxShared) : Type 0 where
  pub counted : Counted n s
  pub window : 1 ≤ s.max_frames
  pub avc444_needs_avc : s.avc444_enabled ≡ true → s.avc_enabled ≡ true
  pub avc_allowed : s.avc_enabled ≡ true → allows_avc s.codec_policy ≡ true
  pub ready_noted : s.ready ≡ true → s.gfx_ever_ready ≡ true

count_of : Event → ℕ
count_of (queued id) = 1
count_of _ = 0

step-Inv :
    {n : ℕ} {s : EgfxShared} (e : Event)
    → count_of e + n ≤ u32_max
    → Inv n s
    → Inv (count_of e + n) (step s e)
unfolding step count_of
step-Inv (queued id) h v = ground arith
step-Inv (acked id depth) h v = ground arith
step-Inv advertised h v = ground arith
step-Inv (becomes_ready cap disable) h v = ground arith
step-Inv closes h v = ground arith
step-Inv resizes h v = ground arith
step-Inv takes_request h v = ground arith
step-Inv (connects handle) h v = ground arith

frames-cons : (e : Event) (es : List Event) → frames (e ∷ es) ≡ count_of e + frames es
unfolding count_of
frames-cons (queued id) es = omega arith
frames-cons (acked id depth) es = omega arith
frames-cons _ es = omega arith

run_from-Inv :
    (n : ℕ) (s : EgfxShared) (es : List Event)
    → n + frames es ≤ u32_max
    → Inv n s
    → Inv (n + frames es) (run s es)
unfolding run
run_from-Inv n s [] h v = let e : n ≡ n + 0 = omega arith in rw (← e) v
run_from-Inv n s (e ∷ es) h v =
    let p : count_of e + n + frames es ≡ n + frames (e ∷ es) = omega (arith, frames-cons e es) in
    rw (← p) (
      run_from-Inv (count_of e + n) (step s e) es (omega (arith, frames-cons e es))
        (step-Inv e (omega (arith, frames-cons e es)) v))

with_codec_policy-Inv : (max : ℕ) (policy : EgfxCodecPolicy) → Inv 0 (with_codec_policy max policy)
unfolding with_codec_policy
with_codec_policy-Inv max policy = ground arith

-- Whatever the order of callbacks, as long as fewer than 2^32 frames are queued: the frames in flight
-- are those queued less those accounted for, no counter has wrapped, the window has at least one
-- place, and AVC444 is on only with AVC, which is on only where the policy allows it.
pub run-Inv :
    (max : ℕ) (policy : EgfxCodecPolicy) (es : List Event)
    → frames es ≤ u32_max
    → Inv (frames es) (run (with_codec_policy max policy) es)
run-Inv max policy es h =
    let e : 0 + frames es ≡ frames es = omega arith in
    rw e at (
      run_from-Inv 0 (with_codec_policy max policy) es (omega arith)
        (with_codec_policy-Inv max policy))

-- What the versions and their flags mean: AVC came as AVC420 with the flag of 8.1, and with 10 as both
-- codecs, unless the flag of the version turns them off, which 10.1 does not have.
abbrev pub avc420_flag : CapabilitySet → Bool
avc420_flag (v8_1 enabled) = enabled
avc420_flag _ = false

abbrev pub is_version_10 : CapabilitySet → Bool
is_version_10 v8 = false
is_version_10 (v8_1 _) = false
is_version_10 _ = true

abbrev pub avc_disabled_flag : CapabilitySet → Bool
avc_disabled_flag v8 = false
avc_disabled_flag (v8_1 _) = false
avc_disabled_flag v10_1 = false
avc_disabled_flag (v10 disabled) = disabled
avc_disabled_flag (v10_2 disabled) = disabled
avc_disabled_flag (v10_3 disabled) = disabled
avc_disabled_flag (v10_4 disabled) = disabled
avc_disabled_flag (v10_5 disabled) = disabled
avc_disabled_flag (v10_6 disabled) = disabled
avc_disabled_flag (v10_6_err disabled) = disabled
avc_disabled_flag (v10_7 disabled) = disabled

client_support_lem :
    (cap : CapabilitySet)
    → ((client_support cap).0
        ≡ (avc420_flag cap || (is_version_10 cap && not (avc_disabled_flag cap))))
      × ((client_support cap).1 ≡ (is_version_10 cap && not (avc_disabled_flag cap)))
client_support_lem v8 = (refl, refl)
client_support_lem (v8_1 enabled) = (ground arith, refl)
client_support_lem v10_1 = (refl, refl)
client_support_lem (v10 disabled) = (refl, refl)
client_support_lem (v10_2 disabled) = (refl, refl)
client_support_lem (v10_3 disabled) = (refl, refl)
client_support_lem (v10_4 disabled) = (refl, refl)
client_support_lem (v10_5 disabled) = (refl, refl)
client_support_lem (v10_6 disabled) = (refl, refl)
client_support_lem (v10_6_err disabled) = (refl, refl)
client_support_lem (v10_7 disabled) = (refl, refl)

-- The two flags exactly. AVC420: the policy is not ClearCodec, and the client says 8.1 with the flag
-- for AVC420, or 10 or later without the flag against AVC. AVC444: the policy is `auto` or `avc444`,
-- the environment does not disable it, and the client says 10 or later without the flag against AVC.
pub capability_avc_support_iff :
    (cap : CapabilitySet) (disabled : Bool) (policy : EgfxCodecPolicy)
    → let r = capability_avc_support cap disabled policy in
      ((r.0 ≡ true) ↔ (
        (policy ≢ clear_codec)
        × ((avc420_flag cap ≡ true)
            ⊎ ((is_version_10 cap ≡ true) × (avc_disabled_flag cap ≡ false)))))
      × ((r.1 ≡ true) ↔ (
          ((policy ≡ auto) ⊎ (policy ≡ avc444))
          × (disabled ≡ false)
          × (is_version_10 cap ≡ true)
          × (avc_disabled_flag cap ≡ false)))
unfolding capability_avc_support
capability_avc_support_iff cap disabled auto =
    let c = client_support_lem cap in
    ((λ h. ground arith, λ h. ground arith), (λ h. ground arith, λ h. ground arith))
capability_avc_support_iff cap disabled avc420 =
    let c = client_support_lem cap in
    ((λ h. ground arith, λ h. ground arith), (λ h. ground arith, λ h. ground arith))
capability_avc_support_iff cap disabled _ =
    let c = client_support_lem cap in
    ((λ h. ground arith, λ h. ground arith), (λ h. ground arith, λ h. ground arith))

-- A renegotiation, the generation being a u32: the handler leaves the channel ready, with the window empty and a new generation,
-- and every frame that was in flight is behind the cutoff.
pub on_ready_restarts :
    (s : EgfxShared) (cap : CapabilitySet) (disabled : Bool)
    → s.ready_generation ≤ u32_max
    → let t = on_ready s cap disabled in
      (t.ready ≡ true)
      × (t.in_flight ≡ 0)
      × (t.ack_suspended ≡ false)
      × (t.ready_generation ≢ s.ready_generation)
      × (s.total_acked < s.total_queued
          → (t.cutoff_active ≡ true)
            × (t.cutoff_frame ≡ s.last_queued)
            × (t.total_acked ≡ s.total_queued))
unfolding on_ready
on_ready_restarts s cap disabled h = ground arith
