-- ===== src/Egfx/Avc/Tests.antt =====
-- One AVC420 frame through src/egfx/rdpegfx.rs, with a server that counts its frames.
use hypr_rdp.Base.{ℕ, zero, suc, ◌+◌, ◌≡◌, ◌⊎◌, refl, true, false, none, some, List, [], ◌∷◌, arith}
use hypr_rdp.Capture.Damage.{region}
use hypr_rdp.Egfx.Shared.{auto, with_codec_policy}
use hypr_rdp.Egfx.Shared.Window.{should_backpressure_frames, output_queue_readiness}
use hypr_rdp.Egfx.OutputQueue.{try_reserve}
use hypr_rdp.Base.Int.{sat_add}
use hypr_rdp.Egfx.Transport.{
  ServerApi, Channel, Link, frame_readiness, transport_frame_readiness, send_rdpegfx_dvc_messages,
}
use hypr_rdp.Egfx.Avc.Frames.{EncodedEgfxFrame, avc420_frame, sendable, frame_state}
use hypr_rdp.Egfx.Avc.{VideoApi, send_tracked_encoded_egfx_frame}
use hypr_rdp.Egfx.Avc.Sending.{IsTracked, send_tracked_encoded_egfx_frame-IsTracked}

abbrev busy_server : ServerApi ℕ ℕ
busy_server = record {
  server_ready = λ server. true;
  channel_id = λ server. some 4;
  should_backpressure = λ server. false;
  server_in_flight = λ server. 0;
  server_queue_depth = λ server. 0;
  get_surface = λ server surface. some (2, 2);
  send_mixed_frame = λ server surface tiles time. (server, none);
  drain_output = λ server. (server, 80 ∷ 81 ∷ []);
  encode_one = λ n bytes width height. (n, []);
}

abbrev video_server : VideoApi ℕ
video_server = record {
  send_avc420_frame = λ server surface bytes regions time. (server + 1, some server);
  send_avc444v2_frame =
      λ server surface encoding data1 regions1 data2 regions2 time. (server, none);
}

abbrev wide_channel : Channel
wide_channel = record {
  closed_at_first = false;
  closed_at_second = false;
  encode_dvc_messages = λ channel messages. some messages;
  retains = λ messages. true;
  takes = true;
}

abbrev video_link : Link ℕ ℕ
video_link = record {
  shared = record (with_codec_policy 3 auto) { ready = true };
  encoder = 0;
  server = 6;
}

abbrev bytes_from : (from count : ℕ) → List ℕ
bytes_from from zero = []
bytes_from from (suc count) = from ∷ bytes_from (from + 1) count

abbrev long_frame : EncodedEgfxFrame
long_frame = avc420_frame (bytes_from 0 33)

sent_frame_is_in_flight :
    (send_tracked_encoded_egfx_frame busy_server video_server wide_channel video_link 5 long_frame
      (region 0 0 2 2 ∷ [])
      100
      2
      2
      22).1
    ≡ true
unfolding with_codec_policy send_tracked_encoded_egfx_frame frame_readiness
    should_backpressure_frames output_queue_readiness transport_frame_readiness sat_add try_reserve
    send_rdpegfx_dvc_messages
sent_frame_is_in_flight = refl

send_tracked_encoded_egfx_frame-IsTracked_example :
    IsTracked busy_server video_link (
      send_tracked_encoded_egfx_frame busy_server video_server wide_channel video_link 5 long_frame
        (region 0 0 2 2 ∷ [])
        100
        2
        2
        22)
    × ((frame_state long_frame ≡ sendable)
        ⊎ ((send_tracked_encoded_egfx_frame busy_server video_server wide_channel video_link 5
              long_frame
              (region 0 0 2 2 ∷ [])
              100
              2
              2
              22).1
            ≡ false))
unfolding with_codec_policy
send_tracked_encoded_egfx_frame-IsTracked_example =
    send_tracked_encoded_egfx_frame-IsTracked busy_server video_server wide_channel video_link
      (omega arith) 5 long_frame (region 0 0 2 2 ∷ []) 100 2 2 22
