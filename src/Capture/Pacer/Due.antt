-- ===== src/Capture/Pacer/Due.antt =====
-- The pacer of src/capture/frame.rs does not starve the client of frames.
use hypr_rdp.Base.{
  ℕ, suc, ◌+◌, ◌-◌, ◌≤◌, ◌≡◌, refl, true, false, some, List, [], ◌∷◌, arith, ltb, if◌then◌else◌,
  Bool-cases, inl, inr, ◌⊎◌, sym, ◌∙◌,
}
use hypr_rdp.Capture.Pacer.{
  FloatDuration, FramePacer, or_now, catch_up, interval_for, should_send, throttled_next,
}
use hypr_rdp.Capture.Pacer.Rate.{catch_up-bounds, Call, call, sends, after_calls}

module _ (d : FloatDuration) where
  -- What any call does: it notes the interval, sends at a slower rate, or sends at the base rate.
  noted : FramePacer → Call → FramePacer
  noted p c = record p { frame_interval = interval_for d c.target }

  abbrev sent_next : FramePacer → Call → ℕ → FramePacer
  sent_next p c n = record p {
    frame_interval = interval_for d c.target;
    next_send_at = some n;
    last_send_at = some c.time;
  }

  caught_up : FramePacer → Call → ℕ
  caught_up p c =
      let n = or_now p.next_send_at c.time in
      catch_up (suc c.time - n) (interval_for d c.target) c.time (n + interval_for d c.target)

  call_cases :
      (p : FramePacer) (c : Call)
      → (((call d p c).1 ≡ false) × ((call d p c).0 ≡ noted p c))
        ⊎ ((((call d p c).1 ≡ true)
              × ((call d p c).0 ≡ sent_next p c (c.time + interval_for d c.target)))
            ⊎ (((call d p c).1 ≡ true)
                × (or_now p.next_send_at c.time ≤ c.time + d.tenth (interval_for d c.target))
                × ((call d p c).0 ≡ sent_next p c (caught_up p c))))
  unfolding should_send noted caught_up
  call_cases p c =
      let i = interval_for d c.target in
      elim (Bool-cases c.damage) [
        | inr dm ↦ inl (ground arith)
        | inl dm ↦ elim (Bool-cases (ltb p.base_interval i)) [
          | inl f ↦ elim (Bool-cases (ltb (c.time + d.tenth i) (throttled_next d p i c.time))) [
            | inl g ↦ inl (ground arith)
            | inr g ↦ inr (inl (ground arith))
          ]
          | inr f ↦ elim (Bool-cases (ltb (c.time + d.tenth i) (or_now p.next_send_at c.time))) [
            | inl g ↦ inl (ground arith)
            | inr g ↦ inr (inr (ground arith))
          ]
        ]
      ]

  -- A frame went out at the time, and the next is due not more than `slack` later.
  abbrev pub Sent : FramePacer → (at slack : ℕ) → Type 0
  Sent p at slack =
      (p.last_send_at ≡ some at) × ((n : ℕ) × (p.next_send_at ≡ some n) × (n ≤ at + slack))

  abbrev pub slack_of : ℕ → ℕ
  slack_of target = interval_for d target + d.tenth (interval_for d target)

  -- The state that a call leaves when it sends.
  call-Sent :
      (p : FramePacer) (c : Call)
      → 1 ≤ interval_for d c.target
      → (call d p c).1 ≡ true
      → Sent (call d p c).0 c.time (slack_of c.target)
  unfolding caught_up
  call-Sent p c pos e = elim (call_cases p c) [
    | inl (waits, same) ↦ absurd (false_true (sym waits ∙ e))
    | inr (inl (sends_it, same)) ↦
        rw same (refl, (c.time + interval_for d c.target, refl, omega arith))
    | inr (inr (sends_it, due, same)) ↦
        let n = or_now p.next_send_at c.time in
        let bounds =
          catch_up-bounds (suc c.time - n) (interval_for d c.target) c.time
            (n + interval_for d c.target) pos (omega arith) in
        rw same (refl, (caught_up p c, refl, omega arith))
  ]
    where
      false_true : false ≡ true → ⊥
      false_true h = cc

  -- A call that does not send.
  idle-Sent :
      (p : FramePacer) (c : Call) (at slack : ℕ)
      → (call d p c).1 ≡ false
      → Sent p at slack
      → Sent (call d p c).0 at slack
  unfolding noted
  idle-Sent p c at slack e s = elim (call_cases p c) [
    | inl (waits, same) ↦ rw same s
    | inr (inl (sends_it, same)) ↦ absurd (true_false (sym sends_it ∙ e))
    | inr (inr (sends_it, due, same)) ↦ absurd (true_false (sym sends_it ∙ e))
  ]
    where
      true_false : true ≡ false → ⊥
      true_false h = cc

  idle_calls-Sent :
      (calls : List Call) (p : FramePacer) (at slack : ℕ)
      → sends d p calls ≡ 0
      → Sent p at slack
      → Sent (after_calls d p calls) at slack
  idle_calls-Sent [] p at slack e s = s
  idle_calls-Sent (c ∷ calls) p at slack e s = elim (Bool-cases (call d p c).1) [
    | inl sent ↦ absurd (
        let one : ◌≡◌ {A = ℕ} (if (call d p c).1 then 1 else 0) 1 = rw sent refl in
        omega (arith, one, e))
    | inr waits ↦
        let none_sent : ◌≡◌ {A = ℕ} (if (call d p c).1 then 1 else 0) 0 = rw waits refl in
        idle_calls-Sent calls (call d p c).0 at slack (omega (arith, none_sent, e))
          (idle-Sent p c at slack waits s)
  ]

  call_due :
      (p : FramePacer) (c : Call) (at slack : ℕ)
      → Sent p at slack
      → c.damage ≡ true
      → at + slack ≤ c.time
      → at + interval_for d c.target ≤ c.time
      → (call d p c).1 ≡ true
  unfolding should_send
  call_due p c at slack s dm late later =
      let last = s.0 in
      let next = s.1.1 in
      let bound = s.1.2 in
      let i = interval_for d c.target in
      let throttle : throttled_next d p i c.time ≡ at + i = rw last refl in
      let base : or_now p.next_send_at c.time ≡ s.1.0 = rw next refl in ground arith

  -- After a frame is sent at one target rate, and however many calls sent none since, a call with
  -- damage does send one if it comes an interval and a tenth of that rate later, and an interval of
  -- its own rate later, throttled or not.
  pub pacer_due :
      (p : FramePacer) (sent c : Call) (idle : List Call)
      → 1 ≤ interval_for d sent.target
      → (call d p sent).1 ≡ true
      → sends d (call d p sent).0 idle ≡ 0
      → c.damage ≡ true
      → sent.time + slack_of sent.target ≤ c.time
      → sent.time + interval_for d c.target ≤ c.time
      → (call d (after_calls d (call d p sent).0 idle) c).1 ≡ true
  pacer_due p sent c idle pos went none_since dm late later =
      call_due (after_calls d (call d p sent).0 idle) c sent.time (slack_of sent.target)
        (idle_calls-Sent idle (call d p sent).0 sent.time (slack_of sent.target) none_since
          (call-Sent p sent pos went))
        dm late later
