-- ===== src/Capture/FrameTests.antt =====
-- The pacer and the frame processor of src/capture/frame.rs at concrete frames.
use hypr_rdp.Base.{
  ℕ, ◌+◌, ◌/◌, ◌≡◌, refl, true, false, none, some, List, [], ◌∷◌, ◌==◌, if◌then◌else◌, arith,
}
use hypr_rdp.Capture.Pacer.{FloatDuration, FramePacer, should_send}
use hypr_rdp.Capture.Pacer.Rate.{Call, call, sends, after_calls}
use hypr_rdp.Capture.Pacer.Due.{pacer_due}
use hypr_rdp.Capture.Frame.{FrameProcessor, FrameChannel, new_processor}
use hypr_rdp.Egfx.Shared.{EgfxShared, clear_codec, with_codec_policy}
use hypr_rdp.Egfx.ClearCodec.{bgra32}
use hypr_rdp.Egfx.Transport.{ServerApi, Channel, Link}
use hypr_rdp.Egfx.Surface.{SurfaceApi}

-- Milliseconds, cut off.
abbrev clock : FloatDuration
clock = record { second_over = λ n. 1000 / n; tenth = λ n. n / 10 }

abbrev paced : FramePacer
paced = record {
  base_interval = 16;
  frame_interval = 16;
  next_send_at = some 100;
  last_send_at = some 84;
}

abbrev at_60 : ℕ → Call
at_60 t = record { time = t; damage = true; target = 60 }

abbrev busy : List Call
busy = at_60 99 ∷ at_60 101 ∷ at_60 115 ∷ at_60 160 ∷ at_60 161 ∷ []

three_of_five : sends clock paced busy ≡ 3
unfolding should_send
three_of_five = refl

-- A slower target after a frame at 99: nothing at 110, a frame at 150.
abbrev at_20 : ℕ → Call
at_20 t = record { time = t; damage = true; target = 20 }

-- Of four calls at the slower target, the second and the fourth send.
abbrev slow_calls : List Call
slow_calls = at_20 128 ∷ at_20 129 ∷ at_20 173 ∷ at_20 174 ∷ []

two_of_four : sends clock paced slow_calls ≡ 2
unfolding should_send
two_of_four = refl

went_at_99 : (call clock paced (at_60 99)).1 ≡ true
unfolding should_send
went_at_99 = refl

none_at_110 : sends clock (call clock paced (at_60 99)).0 (at_20 110 ∷ []) ≡ 0
unfolding should_send
none_at_110 = refl

pacer_due_example :
    (call clock (after_calls clock (call clock paced (at_60 99)).0 (at_20 110 ∷ [])) (at_20 150)).1
    ≡ true
pacer_due_example =
    pacer_due clock paced (at_60 99) (at_20 150) (at_20 110 ∷ []) (omega arith) went_at_99
      none_at_110 refl (omega arith) (omega arith)

-- A server that makes surface 5 and counts its frames.
abbrev server : ServerApi ℕ ℕ
server = record {
  server_ready = λ v. true;
  channel_id = λ v. some 9;
  should_backpressure = λ v. false;
  server_in_flight = λ v. 0;
  server_queue_depth = λ v. 0;
  get_surface = λ v surface. if surface == 5 then some (1, 1) else none;
  send_mixed_frame = λ v surface tiles time. (v + 1, some v);
  drain_output = λ v. (v, 70 ∷ []);
  encode_one = λ n bytes width height. (n + 1, n ∷ []);
}

abbrev surface_maker : SurfaceApi ℕ
surface_maker = record {
  set_output_dimensions = λ v width height. v;
  create_surface = λ v width height. (v, some 5);
  map_surface_to_output = λ v surface. v;
  resize = λ v width height. v;
}

abbrev messages_pass : Channel
messages_pass = record {
  closed_at_first = false;
  closed_at_second = false;
  encode_dvc_messages = λ channel messages. some messages;
  retains = λ messages. true;
  takes = true;
}

abbrev open_frame_channel : FrameChannel
open_frame_channel = record {
  closed = false;
  for_surface = messages_pass;
  for_frame = messages_pass;
}

abbrev connected : EgfxShared
connected = record (with_codec_policy 3 clear_codec) {
  ready = true;
  handle = some 1;
  event_sender = some 2;
}

abbrev first_link : Link ℕ ℕ
first_link = record { shared = connected; encoder = 0; server = 1 }

abbrev processor : FrameProcessor
processor = new_processor 1 1 4 60 bgra32

abbrev pixel : List ℕ
pixel = 1 ∷ 2 ∷ 3 ∷ 4 ∷ []
