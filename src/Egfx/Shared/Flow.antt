-- ===== src/Egfx/Shared/Flow.antt =====
-- The frame counters of src/egfx/shared.rs, one operation at a time.
use hypr_rdp.Base.{
  ℕ, suc, ◌+◌, ◌-◌, ◌*◌, ◌/◌, ◌≤◌, ◌<◌, max, ◌≡◌, ◌≢◌, ◌↔◌, true, false, List, [], ◌∷◌, All, arith,
  length, u32_max, sat_u32, ◌⊎◌,
}
use hypr_rdp.Egfx.Shared.{EgfxShared, suspend_frame_ack_queue_depth, with_codec_policy}
use hypr_rdp.Egfx.Shared.Window.{
  max_frames_in_flight, should_backpressure_frames, record_frame_queued, record_frame_ack,
  clear_frame_queue, preferred_frame_rate, throttled_rate, reset_for_new_client,
}

-- The frames in flight are those queued and not yet accounted for, and at most `n` were queued.
pub record Counted (n : ℕ) (s : EgfxShared) : Type 0 where
  pub balance : s.in_flight + s.total_acked ≡ s.total_queued
  pub few : s.total_queued ≤ n

-- A run of queued frames, and a run of acknowledgements.
abbrev pub queue_all : EgfxShared → List ℕ → EgfxShared
queue_all s [] = s
queue_all s (id ∷ ids) = queue_all (record_frame_queued s id) ids

abbrev pub ack_all : EgfxShared → List (ℕ × ℕ) → EgfxShared
ack_all s [] = s
ack_all s ((id, depth) ∷ acks) = ack_all (record_frame_ack s id depth) acks

-- What is kept while frames are queued and stale acknowledgements come in.
pub record Cut (cutoff acked k : ℕ) (s : EgfxShared) : Type 0 where
  pub active : s.cutoff_active ≡ true
  pub frame : s.cutoff_frame ≡ cutoff
  pub flying : s.in_flight ≡ k
  pub last : s.last_acked ≡ acked

queue_all-Cut :
    {cutoff acked k : ℕ} (s : EgfxShared) (ids : List ℕ)
    → k + length ids ≤ u32_max
    → Cut cutoff acked k s
    → Cut cutoff acked (k + length ids) (queue_all s ids)
unfolding record_frame_queued
queue_all-Cut s [] h c = ground arith
queue_all-Cut {cutoff} {acked} {k} s (id ∷ ids) h c =
    let e : suc k + length ids ≡ k + suc (length ids) = omega arith in
    rw (← e) (queue_all-Cut {k = suc k} (record_frame_queued s id) ids (omega arith) (ground arith))

abbrev IsStale : ℕ → ℕ × ℕ → Type 0
IsStale cutoff (id, depth) = id ≤ cutoff

ack_all-Cut :
    {cutoff acked k : ℕ} (s : EgfxShared) (acks : List (ℕ × ℕ))
    → All (IsStale cutoff) acks
    → Cut cutoff acked k s
    → Cut cutoff acked k (ack_all s acks)
unfolding record_frame_ack
ack_all-Cut s [] h c = c
ack_all-Cut s ((id, depth) ∷ acks) h c =
    ack_all-Cut (record_frame_ack s id depth) acks h.1 (ground arith)

-- Frames that were waiting when the queue was cleared, at least one, are written off:
-- acknowledgements of them that come later, after fewer than 2^32 new frames, change neither the
-- frames in flight, which are the new ones, nor the last acknowledged frame.
pub stale_acks_ignored :
    (s : EgfxShared) (ids : List ℕ) (acks : List (ℕ × ℕ))
    → s.total_acked < s.total_queued
    → length ids ≤ u32_max
    → All (IsStale s.last_queued) acks
    → let t = ack_all (queue_all (clear_frame_queue s) ids) acks in
      (t.in_flight ≡ length ids) × (t.last_acked ≡ s.last_acked)
unfolding clear_frame_queue
stale_acks_ignored s ids acks waiting few stale = ground (
  arith,
  ack_all-Cut {k = 0 + length ids} _ acks stale (
      queue_all-Cut {cutoff = s.last_queued} {acked = s.last_acked} {k = 0} (clear_frame_queue s)
        ids (omega arith) (ground arith)),
)

percent_le : (d : ℕ) → 3 ≤ d → 100 / d ≤ 33
percent_le d h = grind arith

sat_u32-le : (n : ℕ) → sat_u32 n ≤ n
sat_u32-le n = ground arith

sat_u32_ge : (k n : ℕ) → k ≤ n → k ≤ u32_max → k ≤ sat_u32 n
sat_u32_ge k n h m = ground arith

scaled_le : (f p : ℕ) → p ≤ 33 → f * p ≤ 33 * f
scaled_le f p h = grind arith

third_le : (f x y : ℕ) → x ≤ 33 * f → y ≤ x → 3 * (y / 100) ≤ f
third_le f x y h k = omega arith

throttled_rate_bounds :
    (f n : ℕ) → 1 ≤ f → 2 ≤ n → (1 ≤ throttled_rate f n) × (3 * throttled_rate f n ≤ max f 3)
unfolding throttled_rate
throttled_rate_bounds f n h k = (omega arith, omega (arith, third))
  where
    percent : 100 / sat_u32 (n + 1) ≤ 33
    percent = percent_le _ (sat_u32_ge 3 (n + 1) (omega arith) (omega arith))

    third : 3 * (sat_u32 (f * (100 / sat_u32 (n + 1))) / 100) ≤ f
    third = third_le f _ _ (scaled_le f _ percent) (sat_u32-le _)

-- The rate is at least 1; it is the target while acknowledgements are suspended or at most one frame
-- is in flight, and otherwise at most a third of it, or 1.
pub preferred_frame_rate_bounds :
    (s : EgfxShared) (fps : ℕ)
    → (1 ≤ preferred_frame_rate s fps)
      × ((s.ack_suspended ≡ true) ⊎ (s.in_flight ≤ 1) → preferred_frame_rate s fps ≡ max fps 1)
      × (s.ack_suspended ≡ false → 2 ≤ s.in_flight → 3 * preferred_frame_rate s fps ≤ max fps 3)
unfolding preferred_frame_rate
preferred_frame_rate_bounds s fps = (
  ground (arith, throttled_rate_bounds (max fps 1) s.in_flight),
  λ h. ground arith,
  λ h k. ground (arith, throttled_rate_bounds (max fps 1) s.in_flight),
)

-- A frame may be queued exactly when acknowledgements are suspended or the window has room.
pub should_backpressure_frames_iff :
    (s : EgfxShared)
    → (should_backpressure_frames s ≡ false)
      ↔ ((s.ack_suspended ≡ true) ⊎ (s.in_flight < max_frames_in_flight s))
unfolding should_backpressure_frames
should_backpressure_frames_iff s = (λ h. ground arith, λ h. ground arith)

-- Acknowledgements of frames past the cutoff, none of which suspends.
abbrev pub IsCurrent : EgfxShared → ℕ × ℕ → Type 0
IsCurrent s (id, depth) =
    (depth ≢ suspend_frame_ack_queue_depth) × ((s.cutoff_active ≡ false) ⊎ (s.cutoff_frame < id))

record_frame_ack_keeps :
    (s : EgfxShared) (id depth : ℕ)
    → ((record_frame_ack s id depth).cutoff_active ≡ s.cutoff_active)
      × ((record_frame_ack s id depth).cutoff_frame ≡ s.cutoff_frame)
unfolding record_frame_ack
record_frame_ack_keeps s id depth = ground arith

record_frame_ack_takes :
    (s : EgfxShared) (id depth : ℕ)
    → IsCurrent s (id, depth)
    → (record_frame_ack s id depth).in_flight ≡ s.in_flight - 1
unfolding record_frame_ack
record_frame_ack_takes s id depth h = ground arith

IsCurrent-ack :
    (s : EgfxShared) (id depth : ℕ) (acks : List (ℕ × ℕ))
    → All (IsCurrent s) acks
    → All (IsCurrent (record_frame_ack s id depth)) acks
IsCurrent-ack s id depth [] h = tt
IsCurrent-ack s id depth ((i, d) ∷ acks) h = (
  (h.0.0, ground (arith, h.0.1, record_frame_ack_keeps s id depth)),
  IsCurrent-ack s id depth acks h.1,
)

-- Acknowledgements past the cutoff that do not suspend: each frees one place in the window, until it is empty.
pub acks_drain_window :
    (s : EgfxShared) (acks : List (ℕ × ℕ))
    → All (IsCurrent s) acks
    → (ack_all s acks).in_flight ≡ s.in_flight - length acks
acks_drain_window s [] h = omega arith
acks_drain_window s ((id, depth) ∷ acks) h = omega (
  arith,
  acks_drain_window (record_frame_ack s id depth) acks (IsCurrent-ack s id depth acks h.1),
  record_frame_ack_takes s id depth h.0,
)

-- What queueing frames does to the window.
abbrev Queued : EgfxShared → EgfxShared → ℕ → Type 0
Queued s t k =
    (t.in_flight ≡ s.in_flight + k)
    × (t.ack_suspended ≡ s.ack_suspended)
    × (t.cutoff_active ≡ s.cutoff_active)
    × (t.cutoff_frame ≡ s.cutoff_frame)

queue_all_window :
    (s : EgfxShared) (ids : List ℕ)
    → s.in_flight + length ids ≤ u32_max
    → Queued s (queue_all s ids) (length ids)
unfolding record_frame_queued
queue_all_window s [] h = ground arith
queue_all_window s (id ∷ ids) h = ground (arith, queue_all_window (record_frame_queued s id) ids)

-- A client that suspends acknowledgements by a current one and, after `ids` more frames (fewer than
-- 2^32), resumes with one current acknowledgement: until then no frame is held back, and afterwards
-- all of those frames but one count against its window.
pub resume_after_suspension :
    (s : EgfxShared) (ids : List ℕ) (first resumed depth : ℕ)
    → IsCurrent s (resumed, depth)
    → (s.cutoff_active ≡ false) ⊎ (s.cutoff_frame < first)
    → length ids ≤ u32_max
    → let t = queue_all (record_frame_ack s first suspend_frame_ack_queue_depth) ids in
      (should_backpressure_frames t ≡ false)
      × ((record_frame_ack t resumed depth).in_flight ≡ length ids - 1)
unfolding record_frame_ack should_backpressure_frames
resume_after_suspension s ids first resumed depth h k few =
    let t = record_frame_ack s first suspend_frame_ack_queue_depth in
    ground (arith, queue_all_window t ids, record_frame_ack_takes (queue_all t ids) resumed depth)

-- With a window of at least one frame, a new client starts from the state of a fresh object, whatever the last one did: only the slots
-- held by queued output, the handles, the generation and the surface size outlive it.
pub reset_for_new_client_fresh :
    (s : EgfxShared)
    → 1 ≤ s.max_frames
    → reset_for_new_client s ≡ record (with_codec_policy s.max_frames s.codec_policy) {
      output_pending = s.output_pending;
      handle = s.handle;
      ready_generation = s.ready_generation;
      event_sender = s.event_sender;
      surface_size = s.surface_size;
    }
unfolding reset_for_new_client with_codec_policy
reset_for_new_client_fresh s h = ground arith
