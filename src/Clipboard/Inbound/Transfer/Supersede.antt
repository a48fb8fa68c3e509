-- ===== src/Clipboard/Inbound/Transfer/Supersede.antt =====
-- The calls of src/clipboard/inbound/transfer.rs that end or replace a selection keep the inodes of
-- the selections apart.
use hypr_rdp.Base.{
  ℕ, suc, ◌+◌, ◌≤◌, ◌<◌, ◌≡◌, refl, Bool, ◌&&◌, Option, none, List, [], ◌∷◌, ◌++◌, ◌==◌,
  if◌then◌else◌, arith, u64_max, sat_u64, Bool-cases, inl, inr,
}
use hypr_rdp.Clipboard.Inbound.Tree.{entries, empty, rooted, next_base}
use hypr_rdp.Clipboard.Inbound.Tree.Entries.{build}
use hypr_rdp.Clipboard.Inbound.Tree.Paths.{FileDescriptor}
use hypr_rdp.Clipboard.Inbound.Tree.First.{build-base}
use hypr_rdp.Clipboard.Inbound.Transfer.Selections.{
  Selection, State, live, insert_retired, remove_retired, trim, fail_pending, fail_all,
  take_current, bump, supersede, nothing_to_keep, retire_current, shutdown,
}
use hypr_rdp.Clipboard.Inbound.Transfer.Inodes.{
  Before, Under, IsOrderly, Orderly, All-map, fresh-IsOrderly, suc-IsOrderly, retired-IsOrderly,
  remove-All, remove-Pairwise, length-remove,
}
use hypr_rdp.Clipboard.Inbound.Transfer.{
  capabilities, retire_generation, release_locks, close, accept_for, announced, drop_retired,
  same_flag, covered, is_among,
}

abbrev pub no_selection : ℕ → Selection
no_selection now = record { tree = empty now; data_id = none }

pub empty-entries : (now : ℕ) → entries (empty now) ≡ 0
unfolding empty rooted
empty-entries now = refl

removed-IsOrderly :
    (g b h : ℕ) (sel : Selection) (xs : List (ℕ × Selection))
    → IsOrderly g b sel xs
    → IsOrderly g b sel (remove_retired xs h)
removed-IsOrderly g b h sel xs o = record {
  apart = remove-Pairwise xs h o.apart;
  older = remove-All (Under g b) xs h o.older;
  newest = remove-All (λ x. Before x sel) xs h o.newest;
  counted = o.counted;
  few = let shorter = length-remove xs h in let few = o.few in omega arith;
}

built_end :
    (base count : ℕ)
    → sat_u64 (base + count) < u64_max
    → (base < u64_max) × (base + count ≤ sat_u64 (base + count))
built_end base count h = ground arith

module _ {F : Type 0} where
  -- The inodes are apart, unless a counter has come to the end of its 64 bits.
  abbrev pub Good : State F → Type 0
  Good s = s.generation < u64_max → s.base_after < u64_max → Orderly s

  -- As before a new generation begins.
  abbrev Next : State F → Type 0
  Next s = s.base_after < u64_max → IsOrderly (suc s.generation) s.base_after s.current s.retiring

  bump-Good : (s : State F) → Next s → Good (bump s)
  unfolding bump
  bump-Good s n = elim (Bool-cases (s.generation == u64_max)) [
    | inl e ↦
        rw (e, bump)
          (λ small low. absurd (let same : s.generation ≡ u64_max = ground arith in omega arith))
    | inr e ↦
        let one : s.generation + 1 ≡ suc s.generation = omega arith in
        rw (e, bump) (λ small low. rw one (n low))
  ]

  fail_all-Next : (s : State F) (gs : List ℕ) → Next s → Next (fail_all s gs)
  unfolding fail_pending
  fail_all-Next s [] n = n
  fail_all-Next s (g ∷ gs) n = fail_all-Next (fail_pending s g) gs n

  supersede-Next : (s : State F) (now : ℕ) → Orderly s → Next (supersede s now).0
  unfolding supersede take_current fail_pending
  supersede-Next s now o = elim (Bool-cases (nothing_to_keep s.current)) [
    | inl e ↦
        rw (e, supersede)
          (λ low.
            suc-IsOrderly s.generation (take_current s now).base_after (no_selection now) s.retiring
              (fresh-IsOrderly s.generation s.base_after (take_current s now).base_after s.current
                (no_selection now) s.retiring (omega arith) (empty-entries now) o))
    | inr e ↦
        let kept = trim (insert_retired s.retiring s.generation s.current) in
        rw (e, supersede)
          (fail_all-Next (record (take_current s now) { retiring = kept.1 }) kept.0
            (λ low.
              retired-IsOrderly s.generation s.base_after s.current (no_selection now) s.retiring
                low (empty-entries now) o))
  ]

  retire_current-Good : (s : State F) (now : ℕ) → Orderly s → Good (retire_current s now).0
  unfolding retire_current
  retire_current-Good s now o = bump-Good (supersede s now).0 (supersede-Next s now o)

  shutdown-Good : (s : State F) (now : ℕ) → Orderly s → Good (shutdown s now).0
  unfolding shutdown take_current
  shutdown-Good s now o =
      bump-Good (take_current (record s { retiring = []; pending = [] }) now) (λ low. record {
        apart = tt;
        older = tt;
        newest = tt;
        counted = inl (empty-entries now);
        few = omega arith;
      })

  pub capabilities-Good :
      (s : State F) (a b c : Bool) (now : ℕ) → Orderly s → Good (capabilities s a b c now).0
  unfolding capabilities
  capabilities-Good s a b c now o =
      elim (Bool-cases (same_flag s.stream a && (same_flag s.huge b && same_flag s.locking c))) [
        | inl e ↦ rw (e, capabilities) (λ small low. o)
        | inr e ↦ rw (e, capabilities) (shutdown-Good s now o)
      ]

  pub close-Good : (s : State F) (now : ℕ) → Orderly s → Good (close s now).0
  unfolding close
  close-Good s now o = shutdown-Good s now o

  pub retire_generation-Good :
      (s : State F) (now : ℕ) → Orderly s → Good (retire_generation s now).0
  unfolding retire_generation
  retire_generation-Good s now o = retire_current-Good s now o

  drop_retired-Good : (s : State F) (gs : List ℕ) → Good s → Good (drop_retired s gs)
  unfolding fail_pending
  drop_retired-Good s [] n = n
  drop_retired-Good s (g ∷ gs) n =
      drop_retired-Good (fail_pending (record s { retiring = remove_retired s.retiring g }) g) gs
        (λ small low.
          removed-IsOrderly s.generation s.base_after g s.current s.retiring (n small low))

  pub release_locks-Good :
      (s : State F) (ids : List ℕ) (now : ℕ) → Orderly s → Good (release_locks s ids now).0
  unfolding release_locks take_current fail_pending
  release_locks-Good s ids now o = elim (Bool-cases (is_among (s.current).data_id ids)) [
    | inl e ↦
        rw (e, release_locks)
          (drop_retired-Good (bump (fail_pending (take_current s now) s.generation))
            (covered s.retiring ids ++ (s.generation ∷ []))
            (bump-Good (fail_pending (take_current s now) s.generation) (λ low.
              suc-IsOrderly s.generation (take_current s now).base_after (no_selection now)
                s.retiring
                (fresh-IsOrderly s.generation s.base_after (take_current s now).base_after s.current
                  (no_selection now) s.retiring (omega arith) (empty-entries now) o))))
    | inr e ↦ rw (e, release_locks) (drop_retired-Good s (covered s.retiring ids) (λ small low. o))
  ]

  announced-Good :
      (s : State F) (files : List FileDescriptor) (lock : Option ℕ) (max_entries now : ℕ)
      → Good s
      → Good (announced s files lock max_entries now)
  unfolding next_base
  announced-Good s files lock max_entries now n small low =
      let tree = build files max_entries s.base_after now in
      let first = build-base files max_entries s.base_after now in
      let ends = built_end tree.base (entries tree) low in
      let there : s.base_after < u64_max = omega arith in
      let o = n small there in
      record {
        apart = o.apart;
        older =
            All-map (Under s.generation s.base_after) (Under s.generation (next_base tree))
              s.retiring (λ x u. (u.0, let v = u.1 in let w = ends.1 in omega arith)) o.older;
        newest =
            All-map (Under s.generation s.base_after)
              (λ x. Before x (record { tree = tree; data_id = if s.locking then lock else none }))
              s.retiring (λ x u. inr (let v = u.1 in omega arith)) o.older;
        counted = inr ends.1;
        few = o.few;
      }

  pub accept_for-Good :
      (s : State F) (expected : ℕ) (files : List FileDescriptor) (lock : Option ℕ)
      (max_entries now : ℕ)
      → Orderly s
      → Good (accept_for s expected files lock max_entries now).0
  unfolding accept_for
  accept_for-Good s expected files lock max_entries now o =
      let done = retire_current s now in
      elim (Bool-cases (live s expected)) [
        | inl e ↦ elim (Bool-cases (live done.0 (done.0).generation)) [
          | inl f ↦
              rw (e, f, accept_for)
                (announced-Good done.0 files lock max_entries now (retire_current-Good s now o))
          | inr f ↦ rw (e, f, accept_for) (retire_current-Good s now o)
        ]
        | inr e ↦ rw (e, accept_for) (λ small low. o)
      ]
