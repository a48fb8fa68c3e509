-- ===== src/Clipboard/Inbound/Transfer.antt =====
-- src/clipboard/inbound/transfer.rs: the selections that the client announced, and the requests for
-- their files. Each method that takes the lock is one transfer_step; the two halves of `size` and `read`, one
-- before the answer is waited for and one after, are steps of their own. The protocol library's
-- chunked fetch is a parameter, and so is whether the event channel takes a message.
pub mod Selections
pub mod Inodes
pub mod Supersede
pub mod Quiet
pub mod Sizes
pub mod Answers
pub mod History
pub mod Reach
pub mod Reads
use hypr_rdp.Base.{
  ℕ, ◌+◌, ◌*◌, Bool, true, false, not, ◌&&◌, ◌||◌, Option, none, some, List, [], ◌∷◌, ◌++◌, ◌==◌,
  if◌then◌else◌, ltb, leb, length, u32_max,
}
use hypr_rdp.Clipboard.Inbound.Tree.{RemoteTree, empty, node, next_base, roots}
use hypr_rdp.Clipboard.Inbound.Tree.Entries.{build}
use hypr_rdp.Clipboard.Inbound.Tree.Paths.{FileDescriptor}
use hypr_rdp.Clipboard.Inbound.Transfer.Selections.{
  Selection, Operation, Pending, State, live, fail_pending, take_current, bump, retire_current,
  shutdown, remove_retired,
}

abbrev pub max_pending : ℕ
max_pending = 64

abbrev pub max_buffered : ℕ
max_buffered = 16 * 1024 * 1024

abbrev pub max_read : ℕ
max_read = 8 * 1024 * 1024

-- `FileContentsRequest`; `wants_size` tells the flag `SIZE` from `RANGE`.
pub record Request : Type 0 where
  pub stream_id : ℕ
  pub index : ℕ
  pub wants_size : Bool
  pub position : ℕ
  pub requested_size : ℕ
  pub lock_id : Option ℕ

pub record Response : Type 0 where
  pub response_stream : ℕ
  pub is_error : Bool
  pub payload : List ℕ

pub data Progress : Type 0 where
  failed complete in_progress : Progress

-- `ChunkedFetch` of the protocol library.
pub record FetchApi (F : Type 0) : Type 0 where
  pub new_fetch : (stream index amount max_chunk : ℕ) → (lock : Option ℕ) → (limit : ℕ) → F
  pub next_request : F → Option Request × F
  pub take_response : F → Response → Progress × F
  pub into_data : F → List ℕ

pub data Value : Type 0 where
  size_value : ℕ → Value
  bytes_value : List ℕ → Value

-- What the first half of a call comes to: an error, an answer, or a request to wait for.
pub data Reply : Type 0 where
  refused : Reply
  answered : Value → Reply
  waits : Request → Reply

-- What a response comes to: nothing, the end of a call, or the request for the next chunk.
pub data Effect : Type 0 where
  ignored : Effect
  ends : Option Value → Effect
  continues : Request → Effect

abbrev same_flag : Bool → Bool → Bool
same_flag true b = b
same_flag false b = not b

abbrev is_among : Option ℕ → List ℕ → Bool
is_among none ids = false
is_among (some id) [] = false
is_among (some id) (k ∷ ids) = k == id || is_among (some id) ids

abbrev covered : List (ℕ × Selection) → List ℕ → List ℕ
covered [] ids = []
covered ((g, sel) ∷ retiring) ids =
    let rest = covered retiring ids in if is_among sel.data_id ids then g ∷ rest else rest

abbrev names_of : RemoteTree → List ℕ → List (List ℕ)
names_of t [] = []
names_of t (inode ∷ inodes) = elim (node t inode) [
  | none ↦ names_of t inodes
  | some n ↦ n.name ∷ names_of t inodes
]

module _ {F : Type 0} where
  unfoldable pub new_transfer : (now : ℕ) → State F
  new_transfer now = record {
    generation = 0;
    closed = false;
    stream = false;
    huge = false;
    locking = false;
    current = record { tree = empty now; data_id = none };
    retiring = [];
    base_after = 0;
    next_stream = some 1;
    pending = [];
  }

  unfoldable pub capabilities :
      State F → (stream huge locking : Bool) → (now : ℕ) → State F × List ℕ
  unfolding shutdown
  capabilities s stream huge locking now =
      let done =
        if same_flag s.stream stream && (same_flag s.huge huge && same_flag s.locking locking)
        then (s, [])
        else shutdown s now in
      (record done.0 { stream = stream; huge = huge; locking = locking }, done.1)

  unfoldable pub retire_generation : State F → (now : ℕ) → State F × (Option ℕ × List ℕ)
  unfolding retire_current live
  retire_generation s now =
      let done = retire_current s now in
      (done.0, (if live done.0 (done.0).generation then some (done.0).generation else none, done.1))

  abbrev drop_retired : State F → List ℕ → State F
  drop_retired s [] = s
  drop_retired s (g ∷ gs) =
      drop_retired (fail_pending (record s { retiring = remove_retired s.retiring g }) g) gs

  unfoldable pub release_locks : State F → List ℕ → (now : ℕ) → State F × List ℕ
  unfolding take_current fail_pending bump
  release_locks s ids now =
      let retired = covered s.retiring ids in
      let ends_current = is_among (s.current).data_id ids in
      let t = if ends_current then bump (fail_pending (take_current s now) s.generation) else s in
      let released = if ends_current then retired ++ (s.generation ∷ []) else retired in
      (drop_retired t released, released)

  unfoldable pub close : State F → (now : ℕ) → State F × List ℕ
  unfolding shutdown
  close s now = let done = shutdown s now in (record done.0 { closed = true }, done.1)

  abbrev announced : State F → List FileDescriptor → Option ℕ → (max_entries now : ℕ) → State F
  announced s files lock max_entries now =
      let tree = build files max_entries s.base_after now in
      record s {
        base_after = next_base tree;
        current = record { tree = tree; data_id = if s.locking then lock else none };
      }

  unfoldable pub accept_for :
      State F
      → (expected : ℕ) → List FileDescriptor
      → Option ℕ
      → (max_entries now : ℕ) → State F × Option (ℕ × (List (List ℕ) × List ℕ))
  unfolding live retire_current
  accept_for s expected files lock max_entries now =
      let done = retire_current s now in
      let t = announced done.0 files lock max_entries now in
      if not (live s expected)
      then (s, none)
      else if not (live done.0 (done.0).generation)
      then (done.0, none)
      else (t, some (t.generation, (names_of (t.current).tree (roots (t.current).tree), done.1)))

  abbrev without_closed : List (ℕ × Pending F) → List (ℕ × Pending F)
  without_closed [] = []
  without_closed ((id, p) ∷ pending) =
      let rest = without_closed pending in if p.closed_answer then rest else (id, p) ∷ rest

  abbrev pub total_reserved : List (ℕ × Pending F) → ℕ
  total_reserved [] = 0
  total_reserved ((id, p) ∷ pending) = p.reserved + total_reserved pending

  -- The stream's number, if the budgets leave room.
  unfoldable pub allocate : State F → (bytes : ℕ) → State F × Option ℕ
  allocate s bytes =
      let open_ones = without_closed s.pending in
      let pruned = record s { pending = open_ones } in
      if leb max_pending (length open_ones) || ltb max_buffered (bytes + total_reserved open_ones)
      then (pruned, none)
      else elim s.next_stream [
        | none ↦ (pruned, none)
        | some id ↦
            (record pruned { next_stream = if id == u32_max then none else some (id + 1) }, some id)
      ]

  abbrev pub remove_pending : List (ℕ × Pending F) → ℕ → List (ℕ × Pending F)
  remove_pending [] id = []
  remove_pending ((k, p) ∷ pending) id =
      let rest = remove_pending pending id in if k == id then rest else (k, p) ∷ rest

  abbrev pub get_pending : List (ℕ × Pending F) → ℕ → Option (Pending F)
  get_pending [] id = none
  get_pending ((k, p) ∷ pending) id =
      let rest = get_pending pending id in if k == id then some p else rest

  -- `pending.insert`: an older request of the number would be replaced.
  abbrev put_pending : State F → ℕ → Pending F → State F
  put_pending s id p = record s { pending = (id, p) ∷ remove_pending s.pending id }

  -- `sent` says whether the event channel took the request.
  unfoldable pub submit :
      State F → ℕ → Request → Operation F → (reserved : ℕ) → (sent : Bool) → State F × Reply
  submit s g request operation reserved sent =
      if sent
      then (
        put_pending s request.stream_id (record {
          asked_by = g;
          operation = operation;
          closed_answer = false;
          reserved = reserved;
        }),
        waits request,
      )
      else (s, refused)
