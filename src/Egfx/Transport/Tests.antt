-- ===== src/Egfx/Transport/Tests.antt =====
-- One ClearCodec frame through src/egfx/rdpegfx.rs, with a server that counts its frames.
use hypr_rdp.Base.{ℕ, ◌+◌, ◌==◌, if◌then◌else◌, true, false, none, some, List, [], ◌∷◌}
use hypr_rdp.Capture.Damage.{Region, region}
use hypr_rdp.Egfx.Shared.{EgfxShared, clear_codec, with_codec_policy}
use hypr_rdp.Egfx.ClearCodec.{bgra32}
use hypr_rdp.Egfx.Transport.{ServerApi, Channel, Link, send_clearcodec_damage}
use hypr_rdp.Egfx.Transport.Commit.{Settled, send_clearcodec_damage-Settled}

abbrev counting_server : ServerApi ℕ ℕ
counting_server = record {
  server_ready = λ server. true;
  channel_id = λ server. some 9;
  should_backpressure = λ server. false;
  server_in_flight = λ server. 0;
  server_queue_depth = λ server. 0;
  get_surface = λ server surface. if surface == 5 then some (1, 1) else none;
  send_mixed_frame = λ server surface tiles time. (server + 1, some server);
  drain_output = λ server. (server, 70 ∷ []);
  encode_one = λ n bytes width height. (n + 1, n ∷ []);
}

abbrev open_channel : Channel
open_channel = record {
  closed_at_first = false;
  closed_at_second = false;
  encode_dvc_messages = λ channel messages. some messages;
  retains = λ messages. true;
  takes = true;
}

abbrev ready_shared : EgfxShared
ready_shared = record (with_codec_policy 3 clear_codec) { ready = true }

abbrev small_link : Link ℕ ℕ
small_link = record { shared = ready_shared; encoder = 0; server = 1 }

abbrev one_pixel : List ℕ
one_pixel = 1 ∷ 2 ∷ 3 ∷ 4 ∷ []

abbrev one_region : List Region
one_region = region 0 0 1 1 ∷ []

send_clearcodec_damage-Settled_example :
    Settled small_link
      (send_clearcodec_damage counting_server open_channel small_link 5 one_pixel 1 1 4 one_region
        100 bgra32).0
      (send_clearcodec_damage counting_server open_channel small_link 5 one_pixel 1 1 4 one_region
        100 bgra32).1
send_clearcodec_damage-Settled_example =
    send_clearcodec_damage-Settled counting_server open_channel small_link 5 one_pixel 1 1 4
      one_region 100 bgra32
