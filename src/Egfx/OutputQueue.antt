-- ===== src/Egfx/OutputQueue.antt =====
-- src/egfx/output_queue.rs: the counter of output slots, its leases, and any number of threads that
-- reserve, retain and drop them. Each shared access is one atomic step.
pub mod Budget
use hypr_rdp.Base.{
  ℕ, zero, suc, ◌+◌, ◌-◌, ◌≤◌, ◌<◌, ◌≡◌, Option, none, some, List, [], ◌∷◌, leb, if◌then◌else◌, u32,
}
pub use hypr_rdp.Egfx.Shared.{max_queued_output_frames}

-- `try_reserve` when no other thread runs between its load and its compare-exchange.
unfoldable pub try_reserve : ℕ → Option ℕ
try_reserve pending =
    if leb max_queued_output_frames pending then none else some (u32 (pending + 1))

-- `Drop for EgfxOutputLease`.
unfoldable pub drop_lease : ℕ → ℕ
drop_lease pending = u32 (pending + 4294967295)

-- Where a producer stands. `reserving seen` is in the loop of `try_reserve` with the last value that
-- it loaded; `leased refs` owns a lease that `refs` handles share: the producer's own, and one for
-- each fragment of `retain_messages`.
pub data Producer : Type 0 where
  idle : Producer
  reserving : (seen : ℕ) → Producer
  leased : (refs : ℕ) → Producer

pub record Queue : Type 0 where
  pub pending : ℕ
  pub producers : List Producer

-- One atomic access of one producer: the counter and the producer, before and after.
pub data Access : ℕ → Producer → ℕ → Producer → Type 0 where
  load : (p : ℕ) → Access p idle p (reserving p)
  give_up : (p seen : ℕ) → max_queued_output_frames ≤ seen → Access p (reserving seen) p idle
  exchange :
      (p seen : ℕ)
      → seen < max_queued_output_frames
      → p ≡ seen
      → Access p (reserving seen) (u32 (seen + 1)) (leased 1)
  -- A weak exchange may fail also where the value is the expected one.
  retry : (p seen : ℕ) → seen < max_queued_output_frames → Access p (reserving seen) p (reserving p)
  retain : (p refs : ℕ) → 0 < refs → Access p (leased refs) p (leased (suc refs))
  drop_handle : (p refs : ℕ) → 1 < refs → Access p (leased refs) p (leased (refs - 1))
  drop_last : (p : ℕ) → Access p (leased 1) (drop_lease p) idle

-- Any producer may move next; `at` is its place in the list.
pub data Turn : Queue → Queue → Type 0 where
  first :
      {p q : ℕ} {a b : Producer} (rest : List Producer)
      → Access p a q b
      → Turn
          (record { pending = p; producers = a ∷ rest })
          (record { pending = q; producers = b ∷ rest })
  later :
      {p q : ℕ} {rest rest' : List Producer} (a : Producer)
      → Turn (record { pending = p; producers = rest }) (record { pending = q; producers = rest' })
      → Turn
          (record { pending = p; producers = a ∷ rest })
          (record { pending = q; producers = a ∷ rest' })

abbrev pub all_idle : ℕ → List Producer
all_idle zero = []
all_idle (suc n) = idle ∷ all_idle n

-- The queue is made empty; later any number of turns are taken.
pub data Reach (n : ℕ) : Queue → Type 0 where
  start : Reach n (record { pending = 0; producers = all_idle n })
  next : {s t : Queue} → Reach n s → Turn s t → Reach n t
