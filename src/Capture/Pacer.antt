-- ===== src/Capture/Pacer.antt =====
-- `FramePacer` of src/capture/frame.rs. An `Instant` and a `Duration` are nanoseconds. The two
-- conversions through floating-point numbers are a parameter.
pub mod Rate
pub mod Due
use hypr_rdp.Base.{
  ℕ, zero, suc, ◌+◌, ◌-◌, max, Bool, true, false, not, Option, none, some, ltb, leb, if◌then◌else◌,
}

-- `Duration::from_secs_f64(1.0 / f64::from(n))` and `mul_f64(0.10)` of the standard library.
pub record FloatDuration : Type 0 where
  pub second_over : ℕ → ℕ
  pub tenth : ℕ → ℕ

pub record FramePacer : Type 0 where
  pub base_interval : ℕ
  pub frame_interval : ℕ
  pub next_send_at : Option ℕ
  pub last_send_at : Option ℕ

abbrev pub or_now : Option ℕ → ℕ → ℕ
or_now none now = now
or_now (some t) now = t

-- `while next <= now`, with fuel: each round adds an interval, which is at least 1.
unfoldable pub catch_up : (fuel interval now next : ℕ) → ℕ
catch_up zero interval now next = next
catch_up (suc fuel) interval now next =
    let rest = catch_up fuel interval now (next + interval) in if leb next now then rest else next

module _ (d : FloatDuration) where
  abbrev pub interval_for : (target_fps : ℕ) → ℕ
  interval_for target_fps = d.second_over (max target_fps 1)

  unfoldable pub new_pacer : (target_fps now : ℕ) → FramePacer
  new_pacer target_fps now = record {
    base_interval = interval_for target_fps;
    frame_interval = interval_for target_fps;
    next_send_at = some now;
    last_send_at = none;
  }

  abbrev throttled_next : FramePacer → ℕ → ℕ → ℕ
  throttled_next p interval now = elim p.last_send_at [ none ↦ now | some last ↦ last + interval ]

  unfoldable pub should_send :
      FramePacer
      → (now : ℕ) → (sent_first_frame has_damage : Bool) → (target_fps : ℕ) → FramePacer × Bool
  unfolding catch_up
  should_send p now sent_first_frame has_damage target_fps =
      let interval = interval_for target_fps in
      let q = record p { frame_interval = interval } in
      let paced = record q { next_send_at = some (now + interval); last_send_at = some now } in
      let next = or_now p.next_send_at now in
      let early = d.tenth interval in
      if not sent_first_frame
      then (paced, true)
      else if not has_damage
      then (q, false)
      else if ltb p.base_interval interval
      then (if ltb (now + early) (throttled_next p interval now) then (q, false) else (paced, true))
      else if ltb (now + early) next
      then (q, false)
      else (
        record q {
          next_send_at = some (catch_up (suc now - next) interval now (next + interval));
          last_send_at = some now;
        },
        true,
      )
