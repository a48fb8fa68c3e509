-- ===== src/Egfx/Session/Tests.antt =====
-- A frame session of src/egfx/rdpegfx.rs over one change of the client, with a server that has every
-- surface.
use hypr_rdp.Base.{ℕ, ◌≡◌, ◌⊎◌, refl, true, false, none, some, List, [], ◌∷◌}
use hypr_rdp.Capture.Damage.{region}
use hypr_rdp.Egfx.Shared.{EgfxShared, auto, with_codec_policy, current_surface_id}
use hypr_rdp.Egfx.Transport.{ServerApi, Channel, Link}
use hypr_rdp.Egfx.Surface.{SurfaceApi}
use hypr_rdp.Egfx.Avc.Frames.{avc420_frame}
use hypr_rdp.Egfx.Avc.{VideoApi}
use hypr_rdp.Egfx.Session.{
  new_session, send_encoded_frame, SessionCall, refreshes, ensures, session_run,
}
use hypr_rdp.Egfx.Session.Coherent.{IsCoherent, IsKept, session_run-IsSound}

abbrev willing_server : ServerApi ℕ ℕ
willing_server = record {
  server_ready = λ server. true;
  channel_id = λ server. some 3;
  should_backpressure = λ server. false;
  server_in_flight = λ server. 0;
  server_queue_depth = λ server. 0;
  get_surface = λ server surface. some (4, 4);
  send_mixed_frame = λ server surface tiles time. (server, none);
  drain_output = λ server. (server, []);
  encode_one = λ n bytes width height. (n, []);
}

abbrev one_surface : SurfaceApi ℕ
one_surface = record {
  set_output_dimensions = λ server width height. server;
  create_surface = λ server width height. (server, some 11);
  map_surface_to_output = λ server surface. server;
  resize = λ server width height. server;
}

abbrev no_video : VideoApi ℕ
no_video = record {
  send_avc420_frame = λ server surface bytes regions time. (server, none);
  send_avc444v2_frame =
      λ server surface encoding data1 regions1 data2 regions2 time. (server, none);
}

abbrev quiet_channel : Channel
quiet_channel = record {
  closed_at_first = false;
  closed_at_second = false;
  encode_dvc_messages = λ channel messages. some messages;
  retains = λ messages. true;
  takes = true;
}

abbrev client_ready : EgfxShared
client_ready = record (with_codec_policy 3 auto) {
  ready = true;
  avc_enabled = true;
  ready_generation = 1;
  handle = some 20;
  event_sender = some 21;
}

abbrev next_client : EgfxShared
next_client = record client_ready { ready_generation = 2 }

abbrev ready_link : Link ℕ ℕ
ready_link = record { shared = client_ready; encoder = 0; server = 0 }

abbrev first_client : List (SessionCall ℕ ℕ)
first_client = refreshes client_ready ∷ ensures quiet_channel ready_link 4 4 ∷ []

surface_is_held :
    (session_run willing_server one_surface new_session first_client).session_surface ≡ some 11
unfolding with_codec_policy session_run current_surface_id
surface_is_held = refl

session_run-IsSound_example :
    IsCoherent (session_run willing_server one_surface new_session first_client)
    × IsKept (session_run willing_server one_surface new_session first_client) next_client
    × (((session_run willing_server one_surface new_session first_client).session_ready ≡ true)
        ⊎ (send_encoded_frame willing_server no_video
              (session_run willing_server one_surface new_session first_client)
              quiet_channel
              ready_link
              (avc420_frame (1 ∷ []))
              (region 0 0 4 4 ∷ [])
              100
              4
              4
              22
            ≡ (ready_link, false)))
session_run-IsSound_example =
    session_run-IsSound willing_server one_surface no_video first_client next_client quiet_channel
      ready_link (avc420_frame (1 ∷ [])) (region 0 0 4 4 ∷ []) 100 4 4 22
