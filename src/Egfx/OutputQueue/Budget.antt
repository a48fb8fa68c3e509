-- ===== src/Egfx/OutputQueue/Budget.antt =====
-- At most three leases are out at any time, whatever the interleaving.
use hypr_rdp.Base.{ℕ, zero, suc, ◌+◌, ◌≤◌, ◌≡◌, refl, List, [], ◌∷◌, none, some, arith, ◌↔◌}
use hypr_rdp.Egfx.OutputQueue.{
  max_queued_output_frames, try_reserve, drop_lease, Producer, idle, reserving, leased, Queue,
  Access, load, give_up, exchange, retry, retain, drop_handle, drop_last, Turn, first, later,
  all_idle, Reach, start, next,
}

abbrev pub holds : Producer → ℕ
holds idle = 0
holds (reserving seen) = 0
holds (leased refs) = 1

abbrev pub leases : List Producer → ℕ
leases [] = 0
leases (a ∷ rest) = holds a + leases rest

Access-count :
    {p q : ℕ} {a b : Producer}
    → Access p a q b
    → (k : ℕ) → p ≡ holds a + k
    → p ≤ max_queued_output_frames
    → (q ≡ holds b + k) × (q ≤ max_queued_output_frames)
unfolding drop_lease
Access-count (load p) k h m = omega arith
Access-count (give_up p seen g) k h m = omega arith
Access-count (exchange p seen g e) k h m = omega arith
Access-count (retry p seen g) k h m = omega arith
Access-count (retain p refs g) k h m = omega arith
Access-count (drop_handle p refs g) k h m = omega arith
Access-count (drop_last p) k h m = omega arith

-- The other producers' leases are `k`.
Turn-count :
    {s t : Queue}
    → Turn s t
    → (k : ℕ) → s.pending ≡ k + leases s.producers
    → s.pending ≤ max_queued_output_frames
    → (t.pending ≡ k + leases t.producers) × (t.pending ≤ max_queued_output_frames)
Turn-count (first rest m) k h b = omega (arith, Access-count m (k + leases rest) (omega arith) b)
Turn-count (later a m) k h b = omega (arith, Turn-count m (k + holds a) (omega arith) b)

leases-all_idle : (n : ℕ) → leases (all_idle n) ≡ 0
leases-all_idle zero = refl
leases-all_idle (suc n) = omega (arith, leases-all_idle n)

-- In every reachable state the counter is the number of leases that are out, and there are at most
-- three of them: no interleaving of producers loses a slot or exceeds the budget.
pub Reach-budget :
    {n : ℕ} {q : Queue}
    → Reach n q
    → (q.pending ≡ leases q.producers) × (q.pending ≤ max_queued_output_frames)
Reach-budget {n} start = omega (arith, leases-all_idle n)
Reach-budget (next r m) =
    omega (arith, Turn-count m 0 (omega (arith, Reach-budget r)) (Reach-budget r).1)

-- With at most three slots taken, run alone: `try_reserve` succeeds exactly when fewer than three slots are taken, and dropping the
-- lease gives the slot back.
pub try_reserve-drop_lease :
    (pending : ℕ)
    → pending ≤ max_queued_output_frames
    → ((try_reserve pending ≡ none) ↔ (pending ≡ max_queued_output_frames))
      × ((p : ℕ) → try_reserve pending ≡ some p → drop_lease p ≡ pending)
unfolding try_reserve drop_lease
try_reserve-drop_lease pending h = ((λ e. ground arith, λ e. ground arith), λ p e. ground arith)
