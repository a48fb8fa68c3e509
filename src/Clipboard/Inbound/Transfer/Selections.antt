-- ===== src/Clipboard/Inbound/Transfer/Selections.antt =====
-- `State` of src/clipboard/inbound/transfer.rs. The map of retired selections is a list in the order
-- of their generations, the map of pending requests an association list; `F` is the state of the
-- protocol library's chunked fetch. `now` is the time at which a tree is made.
use hypr_rdp.Base.{
  ℕ, suc, ◌+◌, max, Bool, true, false, not, ◌&&◌, ◌||◌, Option, none, some, List, [], ◌∷◌, ◌++◌,
  ◌==◌, if◌then◌else◌, ltb, length, u64_max, is_some,
}
use hypr_rdp.Clipboard.Inbound.Tree.{RemoteTree, empty, next_base, roots}

abbrev pub max_retiring : ℕ
max_retiring = 4

pub record Selection : Type 0 where
  pub tree : RemoteTree
  pub data_id : Option ℕ

pub data Operation (F : Type 0) : Type 0 where
  size_of : (inode : ℕ) → Operation F
  range_of : (range_base : ℕ) (fetch : F) → Operation F

-- `closed_answer` is `answer.is_closed()`: nobody waits for the answer any more.
pub record Pending (F : Type 0) : Type 0 where
  pub asked_by : ℕ
  pub operation : Operation F
  pub closed_answer : Bool
  pub reserved : ℕ

pub record State (F : Type 0) : Type 0 where
  pub generation : ℕ
  pub closed : Bool
  pub stream : Bool
  pub huge : Bool
  pub locking : Bool
  pub current : Selection
  pub retiring : List (ℕ × Selection)
  pub base_after : ℕ  -- next_base
  pub next_stream : Option ℕ
  pub pending : List (ℕ × Pending F)

-- `BTreeMap::get`, `insert` and `remove`.
abbrev pub get_retired : List (ℕ × Selection) → ℕ → Option Selection
get_retired [] g = none
get_retired ((k, sel) ∷ retiring) g =
    let rest = get_retired retiring g in if k == g then some sel else rest

abbrev pub insert_retired : List (ℕ × Selection) → ℕ → Selection → List (ℕ × Selection)
insert_retired [] g new = (g, new) ∷ []
insert_retired ((k, sel) ∷ retiring) g new =
    let rest = insert_retired retiring g new in
    if ltb g k
    then (g, new) ∷ ((k, sel) ∷ retiring)
    else if g == k
    then (g, new) ∷ retiring
    else (k, sel) ∷ rest

abbrev pub remove_retired : List (ℕ × Selection) → ℕ → List (ℕ × Selection)
remove_retired [] g = []
remove_retired ((k, sel) ∷ retiring) g =
    let rest = remove_retired retiring g in if k == g then rest else (k, sel) ∷ rest

abbrev pub is_retired : List (ℕ × Selection) → ℕ → Bool
is_retired [] g = false
is_retired ((k, sel) ∷ retiring) g = k == g || is_retired retiring g

abbrev pub keys : List (ℕ × Selection) → List ℕ
keys [] = []
keys ((k, sel) ∷ retiring) = k ∷ keys retiring

-- The while loop of `retire_current`: what is released, oldest first, and what is left.
abbrev pub trim : List (ℕ × Selection) → List ℕ × List (ℕ × Selection)
trim [] = ([], [])
trim ((k, sel) ∷ retiring) =
    let rest = trim retiring in
    if ltb max_retiring (suc (length retiring))
    then (k ∷ rest.0, rest.1)
    else ([], (k, sel) ∷ retiring)

abbrev no_roots : List ℕ → Bool
no_roots [] = true
no_roots (_ ∷ _) = false

-- Nothing was mounted for it, or no lock keeps the client's copy alive.
abbrev pub nothing_to_keep : Selection → Bool
nothing_to_keep sel = no_roots (roots sel.tree) || not (is_some sel.data_id)

module _ {F : Type 0} where
  unfoldable pub live : State F → ℕ → Bool
  live s g = not s.closed && (s.stream && s.generation == g)

  unfoldable pub servable : State F → ℕ → Bool
  servable s g = not s.closed && (s.stream && (s.generation == g || is_retired s.retiring g))

  unfoldable pub selection : State F → ℕ → Option Selection
  selection s g =
      if not s.closed && s.stream
      then (if s.generation == g then some s.current else get_retired s.retiring g)
      else none

  -- `pending.retain`.
  abbrev pub without_generation : List (ℕ × Pending F) → ℕ → List (ℕ × Pending F)
  without_generation [] g = []
  without_generation ((id, p) ∷ pending) g =
      let rest = without_generation pending g in if p.asked_by == g then rest else (id, p) ∷ rest

  unfoldable pub fail_pending : State F → ℕ → State F
  fail_pending s g = record s { pending = without_generation s.pending g }

  abbrev pub fail_all : State F → List ℕ → State F
  fail_all s [] = s
  fail_all s (g ∷ gs) = fail_all (fail_pending s g) gs

  -- The selection that is taken is the state's own before the call.
  unfoldable pub take_current : State F → (now : ℕ) → State F
  take_current s now = record s {
    base_after = max s.base_after (next_base s.current.tree);
    current = record { tree = empty now; data_id = none };
  }

  unfoldable pub bump : State F → State F
  bump s =
      if s.generation == u64_max
      then record s { closed = true }
      else record s { generation = s.generation + 1 }

  -- The superseded selection ends, or is retired.
  unfoldable pub supersede : State F → (now : ℕ) → State F × List ℕ
  unfolding take_current fail_pending
  supersede s now =
      let taken = take_current s now in
      if nothing_to_keep s.current
      then (fail_pending taken s.generation, s.generation ∷ [])
      else (let kept = trim (insert_retired s.retiring s.generation s.current) in
          (fail_all (record taken { retiring = kept.1 }) kept.0, kept.0))

  unfoldable pub retire_current : State F → (now : ℕ) → State F × List ℕ
  unfolding supersede bump
  retire_current s now = let done = supersede s now in (bump done.0, done.1)

  unfoldable pub shutdown : State F → (now : ℕ) → State F × List ℕ
  unfolding take_current bump
  shutdown s now = (
    bump (take_current (record s { retiring = []; pending = [] }) now),
    keys s.retiring ++ (s.generation ∷ []),
  )
