-- ===== src/Egfx/Transport/Commit.antt =====
-- What a call of `send_clearcodec_damage` in src/egfx/rdpegfx.rs leaves behind, by its result.
use hypr_rdp.Base.{
  ℕ, ◌+◌, ◌≡◌, refl, ◌⊎◌, inl, inr, Bool, true, false, not, ◌&&◌, ◌||◌, Option, none, some, List,
  ◌==◌, u32, Option-cases, Bool-cases, ap, ◌∙◌,
}
use hypr_rdp.Capture.Damage.{Region}
use hypr_rdp.Egfx.Shared.Window.{record_frame_queued, should_backpressure_frames}
use hypr_rdp.Egfx.OutputQueue.{try_reserve}
use hypr_rdp.Egfx.ClearCodec.{ClearCodecInput, PixelFormat, InputResult, refused, packed, new_input}
use hypr_rdp.Egfx.ClearCodec.Encoder.{
  ClearCodecState, ClearCodecRectangle, encode, encode_all, commit,
}
use hypr_rdp.Egfx.Transport.{
  ServerApi, Channel, Link, ClearOutcome, retry_later, queued_bytes, torn_down,
  send_rdpegfx_dvc_messages, codec, with_codec, deliver, enqueue, reserve_and_encode, on_surface,
  send_input, send_clearcodec_damage, no_rectangles, total_bytes,
}

-- After a retry nothing has changed. After a queued frame the codec, which waited for no commit, waits
-- for none again, and one more frame is in flight. After a failure no frame is in flight that was not
-- before, and either the codec has not advanced or it is left waiting for a commit.
abbrev pub Settled : {V E : Type 0} → Link V E → Link V E → ClearOutcome → Type 0
Settled l m retry_later = m ≡ l
Settled l m (queued_bytes n) =
    ((l.shared).clearcodec_uncommitted ≡ false)
    × ((m.shared).clearcodec_uncommitted ≡ false)
    × ((m.shared).in_flight ≡ u32 ((l.shared).in_flight + 1))
Settled l m torn_down =
    ((m.shared).in_flight ≡ (l.shared).in_flight)
    × (((m.encoder ≡ l.encoder)
          × ((m.shared).clearcodec_uncommitted ≡ (l.shared).clearcodec_uncommitted))
        ⊎ ((m.shared).clearcodec_uncommitted ≡ true))

module _ {V E : Type 0} (api : ServerApi V E) (ch : Channel) (l : Link V E) where
  deliver-Settled :
      (s : ClearCodecState E) (server : V) (pending channel frame_id bytes : ℕ)
      → (l.shared).clearcodec_uncommitted ≡ false
      → s.uncommitted ≡ true
      → let r = deliver api ch l s server pending channel frame_id bytes in Settled l r.0 r.1
  unfolding deliver with_codec commit record_frame_queued
  deliver-Settled s server pending channel frame_id bytes ok e =
      let messages = (api.drain_output server).1 in
      elim (Option-cases (send_rdpegfx_dvc_messages ch channel messages)) [
        | inl f ↦ rw (f, deliver) (refl, inr e)
        | inr (svc, f) ↦ rw (f, deliver) (ok, refl, refl)
      ]

  enqueue-Settled :
      (s : ClearCodecState E) (encoded : List ClearCodecRectangle)
      (pending channel surface_id timestamp_ms : ℕ)
      → (l.shared).clearcodec_uncommitted ≡ false
      → s.uncommitted ≡ true
      → let r = enqueue api ch l s encoded pending channel surface_id timestamp_ms in
        Settled l r.0 r.1
  unfolding enqueue with_codec
  enqueue-Settled s encoded pending channel surface_id timestamp_ms ok e =
      let sent = api.send_mixed_frame l.server surface_id encoded timestamp_ms in
      elim (Option-cases sent.1) [
        | inl f ↦ rw (f, enqueue) (refl, inr e)
        | inr (frame_id, f) ↦
            rw (f, enqueue)
              (deliver-Settled s sent.0 pending channel frame_id (total_bytes encoded) ok e)
      ]

  encode_waiting :
      (s : ClearCodecState E) (input : ClearCodecInput)
      → s.uncommitted ≡ true
      → encode api.encode_one s input ≡ (s, none)
  unfolding encode
  encode_waiting s input h = simp h refl

  encode_free :
      (s : ClearCodecState E) (input : ClearCodecInput)
      → s.uncommitted ≡ false
      → encode api.encode_one s input ≡ (
        record {
          encoder = (encode_all api.encode_one s.encoder input input.rectangles).0;
          uncommitted = true;
        },
        some ((encode_all api.encode_one s.encoder input input.rectangles).1),
      )
  unfolding encode
  encode_free s input h = simp h refl

  reserve-Settled :
      (input : ClearCodecInput) (channel surface_id timestamp_ms : ℕ)
      → let r = reserve_and_encode api ch l input channel surface_id timestamp_ms in
        Settled l r.0 r.1
  unfolding reserve_and_encode codec with_codec
  reserve-Settled input channel surface_id timestamp_ms =
      elim (Option-cases (try_reserve (l.shared).output_pending)) [
        | inl f ↦ rw (f, reserve_and_encode) refl
        | inr (pending, f) ↦ elim (Bool-cases (l.shared).clearcodec_uncommitted) [
          | inl waits ↦
              rw (f, encode_waiting (codec api l) input waits, reserve_and_encode)
                (
                  refl,
                  inr (
                      ap
                        (λ (z : ClearCodecState E × Option (List ClearCodecRectangle)).
                          z.0.uncommitted)
                        (encode_waiting (codec api l) input waits)
                      ∙ waits),
                )
          | inr ok ↦
              let free = encode_free (codec api l) input ok in
              rw (f, free, reserve_and_encode)
                (enqueue-Settled (encode api.encode_one (codec api l) input).0
                  (encode_all api.encode_one l.encoder input input.rectangles).1 pending channel
                  surface_id timestamp_ms ok
                  (ap
                    (λ (z : ClearCodecState E × Option (List ClearCodecRectangle)). z.0.uncommitted)
                    free))
        ]
      ]

  on_surface-Settled :
      (input : ClearCodecInput) (surface_id width height timestamp_ms : ℕ)
      → let r = on_surface api ch l input surface_id width height timestamp_ms in Settled l r.0 r.1
  unfolding on_surface
  on_surface-Settled input surface_id width height timestamp_ms =
      elim (Option-cases (api.channel_id l.server)) [
        | inl f ↦ rw (f, on_surface) refl
        | inr (channel, f) ↦ elim (Option-cases (api.get_surface l.server surface_id)) [
          | inl g ↦ rw (f, g, on_surface) refl
          | inr ((w, h), g) ↦ elim (Bool-cases (w == width && h == height)) [
            | inl k ↦
                rw (f, g, k, on_surface) (reserve-Settled input channel surface_id timestamp_ms)
            | inr k ↦ rw (f, g, k, on_surface) (refl, inl (refl, refl))
          ]
        ]
      ]

  send_input-Settled :
      (input : ClearCodecInput) (surface_id width height timestamp_ms : ℕ)
      → let r = send_input api ch l input surface_id width height timestamp_ms in Settled l r.0 r.1
  unfolding send_input
  send_input-Settled input surface_id width height timestamp_ms =
      elim (Bool-cases (first_guard input)) [
        | inl e ↦ rw (e, send_input) refl
        | inr e ↦ elim (Bool-cases second_guard) [
          | inl f ↦ rw (e, f, send_input) refl
          | inr f ↦
              rw (e, f, send_input) (on_surface-Settled input surface_id width height timestamp_ms)
        ]
      ]
    where
      first_guard : ClearCodecInput → Bool
      first_guard i =
          no_rectangles i.rectangles
          || ch.closed_at_first
          || not (l.shared).ready
          || (l.shared).avc_enabled
          || should_backpressure_frames l.shared

      second_guard : Bool
      second_guard =
          not (api.server_ready l.server) || api.should_backpressure l.server || ch.closed_at_second

  -- Whatever the protocol server, the encoder and the event channel do, a call of
  -- `send_clearcodec_damage` is settled: a retry leaves everything as it was; a queued frame finds and
  -- leaves the codec without a frame that awaits its commit, and counts as one more in flight; a
  -- failure adds no frame in flight, and leaves the codec as it was or waiting for a commit, so that it
  -- refuses every further frame.
  pub send_clearcodec_damage-Settled :
      (surface_id : ℕ) (bytes : List ℕ) (width height stride : ℕ) (damage : List Region)
      (timestamp_ms : ℕ) (format : PixelFormat)
      → let r =
          send_clearcodec_damage api ch l surface_id bytes width height stride damage timestamp_ms
            format in
        Settled l r.0 r.1
  unfolding send_clearcodec_damage
  send_clearcodec_damage-Settled surface_id bytes width height stride damage timestamp_ms format =
      by_input (new_input bytes width height stride damage format) refl
    where
      by_input :
          (o : InputResult)
          → new_input bytes width height stride damage format ≡ o
          → let r =
              send_clearcodec_damage api ch l surface_id bytes width height stride damage
                timestamp_ms format in
            Settled l r.0 r.1
      by_input (refused e) f = rw (f, send_clearcodec_damage) (refl, inl (refl, refl))
      by_input (packed input) f =
          rw (f, send_clearcodec_damage)
            (send_input-Settled input surface_id width height timestamp_ms)
