-- ===== src/Capture/Pacer/Rate.antt =====
-- The pacer of src/capture/frame.rs does not let frames burst.
use hypr_rdp.Base.{
  ℕ, zero, suc, ◌+◌, ◌≤◌, ◌<◌, max, ◌≡◌, Bool, true, List, [], ◌∷◌, arith, if◌then◌else◌,
}
use hypr_rdp.Capture.Pacer.{FloatDuration, FramePacer, catch_up, interval_for, should_send}

-- Enough fuel brings the next time past `now`, by at most an interval, and never back.
pub catch_up-bounds :
    (fuel interval now next : ℕ)
    → 1 ≤ interval
    → suc now ≤ fuel + next
    → (now < catch_up fuel interval now next)
      × (next ≤ catch_up fuel interval now next)
      × (catch_up fuel interval now next ≤ max next (now + interval))
unfolding catch_up
catch_up-bounds zero interval now next pos enough = (omega arith, omega arith, omega arith)
catch_up-bounds (suc fuel) interval now next pos enough =
    let rest = catch_up-bounds fuel interval now (next + interval) pos (omega arith) in ground arith

-- A call of `should_send` after the first frame.
pub record Call : Type 0 where
  pub time : ℕ
  pub damage : Bool
  pub target : ℕ

module _ (d : FloatDuration) where
  abbrev pub call : FramePacer → Call → FramePacer × Bool
  call p c = should_send d p c.time true c.damage c.target

  -- How many of the calls answer that a frame is sent, and the pacer after them.
  abbrev pub sends : FramePacer → List Call → ℕ
  sends p [] = 0
  sends p (c ∷ calls) = (if (call p c).1 then 1 else 0) + sends (call p c).0 calls

  abbrev pub after_calls : FramePacer → List Call → FramePacer
  after_calls p [] = p
  after_calls p (c ∷ calls) = after_calls (call p c).0 calls

  -- A call at the rate of the interval, not after the time.
  abbrev pub AtRate : (interval until : ℕ) → Call → Type 0
  AtRate interval until c = (interval_for d c.target ≡ interval) × (c.time ≤ until)
