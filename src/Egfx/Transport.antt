-- ===== src/Egfx/Transport.antt =====
-- The sending of ClearCodec frames, and the readiness of the transport, in src/egfx/rdpegfx.rs. The
-- protocol server, the encoding of its messages and the event channel are parameters; a surface's
-- number, a channel's number and a message are numbers. No mutex is poisoned.
pub mod Commit
mod Tests
use hypr_rdp.Base.{
  ℕ, ◌+◌, Bool, true, false, not, ◌&&◌, ◌||◌, Option, none, some, List, [], ◌∷◌, ◌==◌,
  if◌then◌else◌, length,
}
use hypr_rdp.Capture.Damage.{Region}
use hypr_rdp.Egfx.Shared.{
  EgfxShared, EgfxFrameReadiness, is_ready, local_backpressure, transport_not_ready,
  transport_no_channel, transport_backpressure,
}
use hypr_rdp.Egfx.Shared.Window.{
  max_frames_in_flight, should_backpressure_frames, output_queue_readiness, record_frame_queued,
}
use hypr_rdp.Egfx.OutputQueue.{try_reserve, drop_lease}
use hypr_rdp.Egfx.ClearCodec.{
  ClearCodecInput, ExclusiveRectangle, PixelFormat, refused, packed, new_input,
}
use hypr_rdp.Egfx.ClearCodec.Encoder.{ClearCodecRectangle, ClearCodecState, encode, commit}

-- What the program calls of the protocol server `V` and of the ClearCodec encoder `E`.
pub record ServerApi (V E : Type 0) : Type 0 where
  pub server_ready : V → Bool
  pub channel_id : V → Option ℕ
  pub should_backpressure : V → Bool
  pub server_in_flight : V → ℕ
  pub server_queue_depth : V → ℕ
  pub get_surface : V → (surface_id : ℕ) → Option (ℕ × ℕ)
  pub send_mixed_frame :
      V → (surface_id : ℕ) → List ClearCodecRectangle → (timestamp_ms : ℕ) → V × Option ℕ
  pub drain_output : V → V × List ℕ
  pub encode_one : E → List ℕ → (width height : ℕ) → E × List ℕ

-- The event channel during one call: whether it is closed at the two tests, what the messages encode
-- to, whether each of them can be retained, and whether the channel takes them.
pub record Channel : Type 0 where
  pub closed_at_first : Bool
  pub closed_at_second : Bool
  pub encode_dvc_messages : ℕ → List ℕ → Option (List ℕ)
  pub retains : List ℕ → Bool
  pub takes : Bool

pub record Link (V E : Type 0) : Type 0 where
  pub shared : EgfxShared
  pub encoder : E
  pub server : V

-- `Ok(None)`, `Ok(Some(bytes))` and `Err(_)`.
pub data ClearOutcome : Type 0 where
  retry_later : ClearOutcome
  queued_bytes : ℕ → ClearOutcome
  torn_down : ClearOutcome

abbrev pub no_rectangles : List ExclusiveRectangle → Bool
no_rectangles [] = true
no_rectangles (_ ∷ _) = false

abbrev pub has_messages : List ℕ → Bool
has_messages [] = false
has_messages (_ ∷ _) = true

-- `encoded.iter().map(|rect| rect.data.len()).sum()`.
abbrev pub total_bytes : List ClearCodecRectangle → ℕ
total_bytes [] = 0
total_bytes (c ∷ cs) = length c.encoded_bytes + total_bytes cs

-- The messages that reach the event channel, or `none` where the call returns `false`.
unfoldable pub send_rdpegfx_dvc_messages : Channel → ℕ → List ℕ → Option (List ℕ)
send_rdpegfx_dvc_messages ch channel messages = elim (ch.encode_dvc_messages channel messages) [
  | none ↦ none
  | some svc ↦ if ch.retains svc && ch.takes then some svc else none
]

module _ {V E : Type 0} (api : ServerApi V E) where
  unfoldable pub transport_frame_readiness : V → EgfxFrameReadiness
  transport_frame_readiness server =
      if not (api.server_ready server) then transport_not_ready else elim (api.channel_id server) [
        | none ↦ transport_no_channel
        | some channel ↦
            if api.should_backpressure server
            then transport_backpressure (api.server_in_flight server)
                (api.server_queue_depth server)
            else is_ready
      ]

  unfoldable pub frame_readiness : EgfxShared → V → EgfxFrameReadiness
  frame_readiness s server =
      if should_backpressure_frames s
      then local_backpressure s.in_flight (max_frames_in_flight s) s.queue_depth s.ack_suspended
      else elim (output_queue_readiness s) [
        | some readiness ↦ readiness
        | none ↦ transport_frame_readiness server
      ]

  codec : Link V E → ClearCodecState E
  codec l = record { encoder = l.encoder; uncommitted = (l.shared).clearcodec_uncommitted }

  -- The link after the codec's state changed, with `pending` output slots taken.
  with_codec : Link V E → ClearCodecState E → V → ℕ → Link V E
  with_codec l s server pending = record {
    shared = record (l.shared) { clearcodec_uncommitted = s.uncommitted; output_pending = pending };
    encoder = s.encoder;
    server = server;
  }

  -- From `drain_output` on. Messages that are queued keep the slot; otherwise the lease is dropped.
  deliver :
      Channel
      → Link V E
      → ClearCodecState E
      → V
      → (pending channel frame_id bytes : ℕ) → Link V E × ClearOutcome
  unfolding with_codec
  deliver ch l s server pending channel frame_id bytes =
      let (drained, messages) = api.drain_output server in
      elim (send_rdpegfx_dvc_messages ch channel messages) [
        | none ↦ (with_codec l s drained (drop_lease pending), torn_down)
        | some svc ↦
            let done =
              with_codec l (commit api.encode_one s) drained
                (if has_messages svc then pending else drop_lease pending) in
            (record done { shared = record_frame_queued done.shared frame_id }, queued_bytes bytes)
      ]

  -- From `send_mixed_frame` on, with a slot taken and the rectangles encoded.
  enqueue :
      Channel
      → Link V E
      → ClearCodecState E
      → List ClearCodecRectangle
      → (pending channel surface_id timestamp_ms : ℕ) → Link V E × ClearOutcome
  unfolding deliver with_codec
  enqueue ch l s encoded pending channel surface_id timestamp_ms =
      let (server, sent) = api.send_mixed_frame l.server surface_id encoded timestamp_ms in
      elim sent [
        | none ↦ (with_codec l s server (drop_lease pending), torn_down)
        | some frame_id ↦ deliver ch l s server pending channel frame_id (total_bytes encoded)
      ]

  -- From `try_reserve` on.
  reserve_and_encode :
      Channel
      → Link V E
      → ClearCodecInput
      → (channel surface_id timestamp_ms : ℕ) → Link V E × ClearOutcome
  unfolding enqueue codec with_codec
  reserve_and_encode ch l input channel surface_id timestamp_ms =
      elim (try_reserve (l.shared).output_pending) [
        | none ↦ (l, retry_later)
        | some pending ↦
            let (s, out) = encode api.encode_one (codec l) input in
            elim out [
              | none ↦ (with_codec l s l.server (drop_lease pending), torn_down)
              | some encoded ↦ enqueue ch l s encoded pending channel surface_id timestamp_ms
            ]
      ]

  -- From `channel_id` on.
  on_surface :
      Channel
      → Link V E
      → ClearCodecInput
      → (surface_id width height timestamp_ms : ℕ) → Link V E × ClearOutcome
  unfolding reserve_and_encode
  on_surface ch l input surface_id width height timestamp_ms = elim (api.channel_id l.server) [
    | none ↦ (l, retry_later)
    | some channel ↦ elim (api.get_surface l.server surface_id) [
      | none ↦ (l, retry_later)
      | some (w, h) ↦
          if w == width && h == height
          then reserve_and_encode ch l input channel surface_id timestamp_ms
          else (l, torn_down)
    ]
  ]

  send_input :
      Channel
      → Link V E
      → ClearCodecInput
      → (surface_id width height timestamp_ms : ℕ) → Link V E × ClearOutcome
  unfolding on_surface
  send_input ch l input surface_id width height timestamp_ms =
      if no_rectangles input.rectangles
        || ch.closed_at_first
        || not (l.shared).ready
        || (l.shared).avc_enabled
        || should_backpressure_frames l.shared
      then (l, retry_later)
      else if not (api.server_ready l.server)
          || api.should_backpressure l.server
          || ch.closed_at_second
      then (l, retry_later)
      else on_surface ch l input surface_id width height timestamp_ms

  unfoldable pub send_clearcodec_damage :
      Channel
      → Link V E
      → (surface_id : ℕ) → List ℕ
      → (width height stride : ℕ) → List Region
      → (timestamp_ms : ℕ) → PixelFormat
      → Link V E × ClearOutcome
  unfolding send_input
  send_clearcodec_damage ch l surface_id bytes width height stride damage timestamp_ms format =
      elim (new_input bytes width height stride damage format) [
        | refused e ↦ (l, torn_down)
        | packed input ↦ send_input ch l input surface_id width height timestamp_ms
      ]
