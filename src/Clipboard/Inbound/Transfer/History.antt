-- ===== src/Clipboard/Inbound/Transfer/History.antt =====
-- Where the inodes of one selection of src/clipboard/inbound/transfer.rs are, as seen from every state
-- that comes after: no other selection gets one of them.
use hypr_rdp.Base.{
  ℕ, ◌≤◌, ◌<◌, ◌≡◌, refl, Bool, true, ◌&&◌, Option, List, [], ◌∷◌, ◌++◌, ◌==◌, arith, u64_max, ltb,
  Bool-cases, Option-cases, inl, inr, ◌⊎◌, All, ◌∙◌, subst,
}
use hypr_rdp.Clipboard.Inbound.Tree.{entries, next_base, set_size}
use hypr_rdp.Clipboard.Inbound.Tree.Paths.{FileDescriptor}
use hypr_rdp.Clipboard.Inbound.Tree.First.{build-base}
use hypr_rdp.Clipboard.Inbound.Transfer.Selections.{
  Selection, State, live, selection, insert_retired, remove_retired, trim, fail_pending, fail_all,
  take_current, bump, supersede, nothing_to_keep, retire_current, shutdown,
}
use hypr_rdp.Clipboard.Inbound.Transfer.Inodes.{first_of, end_of, Before, trim-All, remove-All}
use hypr_rdp.Clipboard.Inbound.Transfer.Supersede.{empty-entries}
use hypr_rdp.Clipboard.Inbound.Transfer.Quiet.{Same}
use hypr_rdp.Clipboard.Inbound.Transfer.Sizes.{
  Spanwise, set_size-SameSpan, set_in-All, get_retired-or_current,
}
use hypr_rdp.Clipboard.Inbound.Transfer.Reads.{store_size}
use hypr_rdp.Clipboard.Inbound.Transfer.Answers.{IsQuiet}
use hypr_rdp.Clipboard.Inbound.Transfer.{
  capabilities, retire_generation, release_locks, close, accept_for, announced, drop_retired,
  same_flag, covered, is_among,
}

-- A selection without inodes, of the generation and the inodes of `a`, or with its inodes after those of
-- `a` or before them.
abbrev pub IsApart : ℕ → Selection → ℕ × Selection → Type 0
IsApart g a x =
    (entries x.1.tree ≡ 0)
    ⊎ (((x.0 ≡ g) × (first_of x.1 ≡ first_of a) × (entries x.1.tree ≡ entries a.tree))
        ⊎ ((end_of a ≤ first_of x.1) ⊎ (end_of x.1 ≤ first_of a)))

pub Before-IsApart :
    (g : ℕ) (a : Selection) (x : ℕ × Selection) → first_of a < end_of a → Before x a → IsApart g a x
Before-IsApart g a x full (inl none_there) = absurd (omega arith)
Before-IsApart g a x full (inr before) = inr (inr (inr before))

pub Before-IsApart_newer :
    (g : ℕ) (a : Selection) (x y : ℕ × Selection) → x.1 ≡ a → Before x y.1 → IsApart g a y
Before-IsApart_newer g a x y is (inl none_there) = inl none_there
Before-IsApart_newer g a x y is (inr after) =
    inr (inr (inl (subst (λ z. end_of z ≤ first_of y.1) is after)))

insert-All {κ} :
    (P : ℕ × Selection → Type κ) (xs : List (ℕ × Selection)) (g : ℕ) (new : Selection)
    → All P xs
    → P (g, new)
    → All P (insert_retired xs g new)
insert-All P [] g new h p = (p, tt)
insert-All P ((k, sel) ∷ xs) g new h p = elim (Bool-cases (ltb g k)) [
  | inl e ↦ rw e (p, h)
  | inr e ↦ elim (Bool-cases (g == k)) [
    | inl f ↦ rw (e, f) (p, h.1)
    | inr f ↦ rw (e, f) (h.0, insert-All P xs g new h.1 p)
  ]
]

IsApart-span : (g : ℕ) (a : Selection) → Spanwise (IsApart g a)
IsApart-span g a k sel t e (inl none_there) = inl (e.1 ∙ none_there)
IsApart-span g a k sel t e (inr (inl (key, first, count))) =
    inr (inl (key, e.0 ∙ first, e.1 ∙ count))
IsApart-span g a k sel t e (inr (inr (inl after))) = let base = e.0 in inr (inr (inl (omega arith)))
IsApart-span g a k sel t e (inr (inr (inr before))) =
    let base = e.0 in let count = e.1 in inr (inr (inr (omega arith)))

-- Every selection is apart from `a`, and the next tree starts after it.
pub record Marked {F : Type 0} (g : ℕ) (a : Selection) (s : State F) : Type 0 where
  pub ended : end_of a ≤ s.base_after
  pub marked : All (IsApart g a) s.retiring
  pub now_marked : IsApart g a (s.generation, s.current)

module _ {F : Type 0} (g : ℕ) (a : Selection) where
  -- The same while the current selection has been taken, before the new generation.
  record Cleared (s : State F) : Type 0 where
    below : end_of a ≤ s.base_after
    apart : All (IsApart g a) s.retiring
    vacant : entries (s.current).tree ≡ 0

  bump-Marked : (s : State F) → Cleared s → Marked g a (bump s)
  unfolding bump
  bump-Marked s c = elim (Bool-cases (s.generation == u64_max)) [
    | inl e ↦ rw (e, bump) (record { ended = c.below; marked = c.apart; now_marked = inl c.vacant })
    | inr e ↦ rw (e, bump) (record { ended = c.below; marked = c.apart; now_marked = inl c.vacant })
  ]

  fail_all-Cleared : (s : State F) (gs : List ℕ) → Cleared s → Cleared (fail_all s gs)
  unfolding fail_pending
  fail_all-Cleared s [] c = c
  fail_all-Cleared s (h ∷ hs) c =
      fail_all-Cleared (fail_pending s h) hs
        (record { below = c.below; apart = c.apart; vacant = c.vacant })

  -- The selection is taken, with other ones retired.
  taken-Cleared :
      (s : State F) (now : ℕ) (xs : List (ℕ × Selection))
      → Marked g a s
      → All (IsApart g a) xs
      → Cleared (record (take_current s now) { retiring = xs })
  unfolding take_current
  taken-Cleared s now xs o apart = record {
    below = let ended = o.ended in omega arith;
    apart = apart;
    vacant = empty-entries now;
  }

  supersede-Cleared : (s : State F) (now : ℕ) → Marked g a s → Cleared (supersede s now).0
  unfolding supersede take_current fail_pending
  supersede-Cleared s now o = elim (Bool-cases (nothing_to_keep s.current)) [
    | inl e ↦
        let c = taken-Cleared s now s.retiring o o.marked in
        rw (e, supersede) (record { below = c.below; apart = c.apart; vacant = c.vacant })
    | inr e ↦
        let all = insert_retired s.retiring s.generation s.current in
        rw (e, supersede)
          (fail_all-Cleared (record (take_current s now) { retiring = (trim all).1 }) (trim all).0
            (taken-Cleared s now (trim all).1 o (
              trim-All (IsApart g a) all (
                insert-All (IsApart g a) s.retiring s.generation s.current o.marked o.now_marked))))
  ]

  retire_current-Marked :
      (s : State F) (now : ℕ) → Marked g a s → Marked g a (retire_current s now).0
  unfolding retire_current
  retire_current-Marked s now o = bump-Marked (supersede s now).0 (supersede-Cleared s now o)

  shutdown-Marked : (s : State F) (now : ℕ) → Marked g a s → Marked g a (shutdown s now).0
  unfolding shutdown take_current
  shutdown-Marked s now o =
      let c = taken-Cleared s now [] o tt in
      bump-Marked (take_current (record s { retiring = []; pending = [] }) now)
        (record { below = c.below; apart = c.apart; vacant = c.vacant })

  pub Same-Marked : (s t : State F) → Same s t → Marked g a s → Marked g a t
  Same-Marked s t e o = record {
    ended = rw (e.1) o.ended;
    marked = rw (e.3) o.marked;
    now_marked = rw (e.0, e.2) o.now_marked;
  }

  pub capabilities-Marked :
      (s : State F) (b c d : Bool) (now : ℕ)
      → Marked g a s
      → Marked g a (capabilities s b c d now).0
  unfolding capabilities
  capabilities-Marked s b c d now o =
      elim (Bool-cases (same_flag s.stream b && (same_flag s.huge c && same_flag s.locking d))) [
        | inl e ↦
            rw (e, capabilities)
              (Same-Marked s (record s { stream = b; huge = c; locking = d })
                (refl, refl, refl, refl) o)
        | inr e ↦
            let done = (shutdown s now).0 in
            rw (e, capabilities)
              (Same-Marked done (record done { stream = b; huge = c; locking = d })
                (refl, refl, refl, refl) (shutdown-Marked s now o))
      ]

  pub close-Marked : (s : State F) (now : ℕ) → Marked g a s → Marked g a (close s now).0
  unfolding close
  close-Marked s now o =
      let done = (shutdown s now).0 in
      Same-Marked done (record done { closed = true }) (refl, refl, refl, refl)
        (shutdown-Marked s now o)

  pub retire_generation-Marked :
      (s : State F) (now : ℕ) → Marked g a s → Marked g a (retire_generation s now).0
  unfolding retire_generation
  retire_generation-Marked s now o = retire_current-Marked s now o

  drop_retired-Marked : (s : State F) (gs : List ℕ) → Marked g a s → Marked g a (drop_retired s gs)
  unfolding fail_pending
  drop_retired-Marked s [] o = o
  drop_retired-Marked s (h ∷ hs) o =
      drop_retired-Marked (fail_pending (record s { retiring = remove_retired s.retiring h }) h) hs
        (record {
          ended = o.ended;
          marked = remove-All (IsApart g a) s.retiring h o.marked;
          now_marked = o.now_marked;
        })

  pub release_locks-Marked :
      (s : State F) (ids : List ℕ) (now : ℕ) → Marked g a s → Marked g a (release_locks s ids now).0
  unfolding release_locks take_current fail_pending
  release_locks-Marked s ids now o = elim (Bool-cases (is_among (s.current).data_id ids)) [
    | inl e ↦
        let c = taken-Cleared s now s.retiring o o.marked in
        rw (e, release_locks)
          (drop_retired-Marked (bump (fail_pending (take_current s now) s.generation))
            (covered s.retiring ids ++ (s.generation ∷ []))
            (bump-Marked (fail_pending (take_current s now) s.generation)
              (record { below = c.below; apart = c.apart; vacant = c.vacant })))
    | inr e ↦ rw (e, release_locks) (drop_retired-Marked s (covered s.retiring ids) o)
  ]

  announced-Marked :
      (s : State F) (files : List FileDescriptor) (lock : Option ℕ) (max_entries now : ℕ)
      → end_of a ≤ u64_max
      → Marked g a s
      → Marked g a (announced s files lock max_entries now)
  unfolding next_base
  announced-Marked s files lock max_entries now fits o =
      let first = build-base files max_entries s.base_after now in
      let ended = o.ended in
      record { ended = ground arith; marked = o.marked; now_marked = inr (inr (inl (omega arith))) }

  pub accept_for-Marked :
      (s : State F) (expected : ℕ) (files : List FileDescriptor) (lock : Option ℕ)
      (max_entries now : ℕ)
      → end_of a ≤ u64_max
      → Marked g a s
      → Marked g a (accept_for s expected files lock max_entries now).0
  unfolding accept_for
  accept_for-Marked s expected files lock max_entries now fits o =
      let done = retire_current s now in
      elim (Bool-cases (live s expected)) [
        | inl e ↦ elim (Bool-cases (live done.0 (done.0).generation)) [
          | inl f ↦
              rw (e, f, accept_for)
                (announced-Marked done.0 files lock max_entries now fits
                  (retire_current-Marked s now o))
          | inr f ↦ rw (e, f, accept_for) (retire_current-Marked s now o)
        ]
        | inr e ↦ rw (e, accept_for) o
      ]

  store_size-Marked :
      (s : State F) (h inode size : ℕ) → Marked g a s → Marked g a (store_size s h inode size).0
  unfolding store_size
  store_size-Marked s h inode size o = elim (Option-cases (selection s h)) [
    | inl e ↦ rw (e, store_size) o
    | inr (sel, e) ↦ elim (Bool-cases (s.generation == h)) [
      | inl f ↦
          let spans = set_size-SameSpan sel.tree inode size in
          let same = get_retired-or_current s h sel f e in
          rw (e, f, store_size)
            (record {
              ended = o.ended;
              marked = o.marked;
              now_marked =
                  IsApart-span g a s.generation sel (set_size sel.tree inode size).0 spans
                    (rw same o.now_marked);
            })
      | inr f ↦
          rw (e, f, store_size)
            (record {
              ended = o.ended;
              marked = set_in-All (IsApart g a) s.retiring h inode size (IsApart-span g a) o.marked;
              now_marked = o.now_marked;
            })
    ]
  ]

  pub Marked-IsQuiet : IsQuiet {F = F} (Marked g a)
  Marked-IsQuiet = record { on_same = Same-Marked; on_size = store_size-Marked }
