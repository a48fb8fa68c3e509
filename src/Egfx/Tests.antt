-- ===== src/Egfx/Tests.antt =====
-- The frame counters and the output queue of src/egfx at concrete frames.
use hypr_rdp.Base.{
  ℕ, ◌-◌, ◌*◌, ◌≤◌, max, ◌≡◌, ◌≢◌, ◌↔◌, ◌⊎◌, inl, refl, true, false, none, some, List, [], ◌∷◌,
  arith,
}
use hypr_rdp.Egfx.Shared.{
  EgfxShared, auto, avc444, clear_codec, with_codec_policy, suspend_frame_ack_queue_depth,
}
use hypr_rdp.Egfx.Shared.Window.{
  should_backpressure_frames, record_frame_queued, record_frame_ack, clear_frame_queue,
  preferred_frame_rate, reset_for_new_client,
}
use hypr_rdp.Egfx.Shared.Flow.{
  queue_all, ack_all, stale_acks_ignored, preferred_frame_rate_bounds, acks_drain_window,
  resume_after_suspension, reset_for_new_client_fresh,
}
use hypr_rdp.Egfx.Factory.{
  v10_7, capability_avc_support, Event, queued, acked, becomes_ready, resizes, on_ready, run,
}
use hypr_rdp.Egfx.Factory.Events.{
  avc420_flag, is_version_10, avc_disabled_flag, Inv, frames, run-Inv, capability_avc_support_iff,
  on_ready_restarts,
}
use hypr_rdp.Egfx.OutputQueue.{
  max_queued_output_frames, try_reserve, drop_lease, idle, leased, Queue, load, exchange, first,
  later, Reach, start, next,
}
use hypr_rdp.Egfx.OutputQueue.Budget.{leases, Reach-budget, try_reserve-drop_lease}

abbrev fresh : EgfxShared
fresh = with_codec_policy 3 auto

-- Two frames are in flight.
abbrev busy : EgfxShared
busy = queue_all fresh (7 ∷ 8 ∷ [])

abbrev small_run : List Event
small_run =
    becomes_ready (v10_7 false) false
    ∷ queued 1
    ∷ queued 2
    ∷ acked 1 0
    ∷ resizes
    ∷ queued 3
    ∷ acked 2 0
    ∷ []

run-Inv_example : Inv (frames small_run) (run (with_codec_policy 3 auto) small_run)
run-Inv_example = run-Inv 3 auto small_run (omega arith)

stale_acks_ignored_example :
    ((ack_all (queue_all (clear_frame_queue busy) (9 ∷ [])) ((7, 0) ∷ (8, 0) ∷ [])).in_flight ≡ 1)
    × ((ack_all (queue_all (clear_frame_queue busy) (9 ∷ [])) ((7, 0) ∷ (8, 0) ∷ [])).last_acked
        ≡ busy.last_acked)
unfolding with_codec_policy record_frame_queued
stale_acks_ignored_example =
    stale_acks_ignored busy (9 ∷ []) ((7, 0) ∷ (8, 0) ∷ []) (omega arith) (omega arith)
      (omega arith, (omega arith, tt))

preferred_frame_rate_bounds_example :
    (1 ≤ preferred_frame_rate busy 60)
    × ((busy.ack_suspended ≡ true) ⊎ (busy.in_flight ≤ 1) → preferred_frame_rate busy 60 ≡ max 60 1)
    × (busy.ack_suspended ≡ false
        → 2 ≤ busy.in_flight
        → 3 * preferred_frame_rate busy 60 ≤ max 60 3)
preferred_frame_rate_bounds_example = preferred_frame_rate_bounds busy 60

acks_drain_window_example : (ack_all busy ((7, 0) ∷ (8, 0) ∷ [])).in_flight ≡ busy.in_flight - 2
unfolding with_codec_policy record_frame_queued
acks_drain_window_example =
    acks_drain_window busy ((7, 0) ∷ (8, 0) ∷ [])
      ((λ e. absurd (omega arith), inl refl), ((λ e. absurd (omega arith), inl refl), tt))

resume_after_suspension_example :
    (should_backpressure_frames
        (queue_all (record_frame_ack fresh 1 suspend_frame_ack_queue_depth) (2 ∷ 3 ∷ 4 ∷ 5 ∷ []))
      ≡ false)
    × ((record_frame_ack
          (queue_all (record_frame_ack fresh 1 suspend_frame_ack_queue_depth) (2 ∷ 3 ∷ 4 ∷ 5 ∷ []))
          5
          0).in_flight
        ≡ 3)
unfolding with_codec_policy
resume_after_suspension_example =
    resume_after_suspension fresh (2 ∷ 3 ∷ 4 ∷ 5 ∷ []) 1 5 0 (λ e. absurd (omega arith), inl refl)
      (inl refl) (omega arith)

reset_for_new_client_fresh_example :
    reset_for_new_client busy ≡ record (with_codec_policy busy.max_frames busy.codec_policy) {
      output_pending = busy.output_pending;
      handle = busy.handle;
      ready_generation = busy.ready_generation;
      event_sender = busy.event_sender;
      surface_size = busy.surface_size;
    }
unfolding with_codec_policy record_frame_queued
reset_for_new_client_fresh_example = reset_for_new_client_fresh busy (omega arith)

capability_avc_support_iff_example :
    (((capability_avc_support (v10_7 false) false clear_codec).0 ≡ true) ↔ (
      (clear_codec ≢ clear_codec)
      × ((avc420_flag (v10_7 false) ≡ true)
          ⊎ ((is_version_10 (v10_7 false) ≡ true) × (avc_disabled_flag (v10_7 false) ≡ false)))))
    × (((capability_avc_support (v10_7 false) false clear_codec).1 ≡ true) ↔ (
        ((clear_codec ≡ auto) ⊎ (clear_codec ≡ avc444))
        × (false ≡ false)
        × (is_version_10 (v10_7 false) ≡ true)
        × (avc_disabled_flag (v10_7 false) ≡ false)))
capability_avc_support_iff_example = capability_avc_support_iff (v10_7 false) false clear_codec

on_ready_restarts_example : (on_ready busy (v10_7 false) false).in_flight ≡ 0
unfolding with_codec_policy record_frame_queued
on_ready_restarts_example = (on_ready_restarts busy (v10_7 false) false (omega arith)).1

-- The second of two producers takes a slot.
abbrev one_lease : Queue
one_lease = record { pending = 1; producers = idle ∷ leased 1 ∷ [] }

one_lease-Reach : Reach 2 one_lease
one_lease-Reach =
    next (next start (later idle (first [] (load 0))))
      (later idle (first [] (exchange 0 0 (omega arith) refl)))

Reach-budget_example :
    (one_lease.pending ≡ leases one_lease.producers)
    × (one_lease.pending ≤ max_queued_output_frames)
Reach-budget_example = Reach-budget one_lease-Reach

try_reserve-drop_lease_example :
    ((try_reserve 2 ≡ none) ↔ (2 ≡ max_queued_output_frames))
    × ((p : ℕ) → try_reserve 2 ≡ some p → drop_lease p ≡ 2)
try_reserve-drop_lease_example = try_reserve-drop_lease 2 (omega arith)
