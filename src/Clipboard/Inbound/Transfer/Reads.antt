-- ===== src/Clipboard/Inbound/Transfer/Reads.antt =====
-- `size`, `read`, `on_response` and the timeout of src/clipboard/inbound/transfer.rs, and the steps
-- of the whole.
use hypr_rdp.Base.{
  ℕ, ◌+◌, ◌-◌, ◌*◌, min, Bool, true, false, not, ◌&&◌, ◌||◌, Option, none, some, List, [], ◌∷◌,
  ◌==◌, if◌then◌else◌, ltb, leb, length, u32_max,
}
use hypr_rdp.Clipboard.Formats.{le32_at}
use hypr_rdp.Clipboard.Inbound.Tree.{RemoteNode, directory, file, node, set_size, checked_add}
use hypr_rdp.Clipboard.Inbound.Tree.Paths.{FileDescriptor}
use hypr_rdp.Clipboard.Inbound.Transfer.Selections.{
  Selection, size_of, range_of, Pending, State, servable, selection,
}
use hypr_rdp.Clipboard.Inbound.Transfer.{
  Request, Response, failed, complete, in_progress, FetchApi, size_value, bytes_value, Reply,
  refused, answered, Effect, ignored, ends, continues, max_read, allocate, submit, remove_pending,
  get_pending, put_pending, capabilities, retire_generation, release_locks, close, accept_for,
}

abbrev pub size_request : ℕ → ℕ → Option ℕ → Request
size_request id index lock = record {
  stream_id = id;
  index = index;
  wants_size = true;
  position = 0;
  requested_size = 8;
  lock_id = lock;
}

-- `u64::from_le_bytes`.
abbrev pub le64 : List ℕ → ℕ
le64 bytes = le32_at bytes 0 + 4294967296 * le32_at bytes 4

abbrev pub is_servable_size : (huge : Bool) → ℕ → Bool
is_servable_size huge size = huge || leb size u32_max

abbrev pub set_in : List (ℕ × Selection) → ℕ → ℕ → ℕ → List (ℕ × Selection)
set_in [] g inode size = []
set_in ((k, sel) ∷ retiring) g inode size =
    let rest = set_in retiring g inode size in
    if k == g
    then (k, record sel { tree = (set_size sel.tree inode size).0 }) ∷ retiring
    else (k, sel) ∷ rest

-- Whatever can happen to the state: the calls, and a caller that no longer waits.
pub data TransferEvent : Type 0 where
  negotiated : (stream huge locking : Bool) → TransferEvent
  superseded : TransferEvent
  released : (ids : List ℕ) → TransferEvent
  shut : TransferEvent
  announced_files : (expected : ℕ) (files : List FileDescriptor) (lock : Option ℕ) → TransferEvent
  size_wanted : (g inode : ℕ) (sent : Bool) → TransferEvent
  read_wanted : (g inode position size : ℕ) (sent : Bool) → TransferEvent
  responded : (response : Response) (sent : Bool) → TransferEvent
  expired : (id : ℕ) → TransferEvent
  abandoned : (id : ℕ) → TransferEvent

module _ {F : Type 0} where
  unfoldable pub ask_size : State F → ℕ → ℕ → ℕ → Option ℕ → (sent : Bool) → State F × Reply
  unfolding allocate submit
  ask_size s g inode index lock sent =
      let room = allocate s 8 in
      elim room.1 [
        | none ↦ (room.0, refused)
        | some id ↦ submit room.0 g (size_request id index lock) (size_of inode) 8 sent
      ]

  -- The size of a node, if it is known; or a request for it.
  unfoldable pub node_size :
      State F → ℕ → ℕ → Selection → RemoteNode → (sent : Bool) → State F × Reply
  unfolding ask_size
  node_size s g inode sel n sent = elim n.size [
    | some size ↦ (s, if is_servable_size s.huge size then answered (size_value size) else refused)
    | none ↦ elim n.kind [
      | directory ↦ (s, refused)
      | file index ↦ ask_size s g inode index sel.data_id sent
    ]
  ]

  -- The first half of `size`.
  unfoldable pub start_size : State F → (g inode : ℕ) → (sent : Bool) → State F × Reply
  unfolding node_size selection servable node
  start_size s g inode sent = if not (servable s g) then (s, refused) else elim (selection s g) [
    | none ↦ (s, refused)
    | some sel ↦ elim (node sel.tree inode) [
      | none ↦ (s, refused)
      | some n ↦ node_size s g inode sel n sent
    ]
  ]

  -- `selection_mut(g)`, and `set_size` on its tree.
  unfoldable pub store_size : State F → ℕ → ℕ → ℕ → State F × Bool
  unfolding set_size selection
  store_size s g inode size = elim (selection s g) [
    | none ↦ (s, false)
    | some sel ↦
        let stored = (set_size sel.tree inode size).1 in
        if s.generation == g
        then (record s { current = record sel { tree = (set_size sel.tree inode size).0 } }, stored)
        else (record s { retiring = set_in s.retiring g inode size }, stored)
  ]

  unfoldable pub answer_size : State F → Pending F → ℕ → Response → State F × Effect
  unfolding store_size
  answer_size s p inode response =
      let size = le64 response.payload in
      let stored = store_size s p.asked_by inode size in
      if response.is_error || not (length response.payload == 8) then (s, ends none) else (
        stored.0,
        ends (if is_servable_size s.huge size && stored.1 then some (size_value size) else none),
      )

  -- The task that `submit` spawns.
  unfoldable pub timed_out : State F → ℕ → State F
  timed_out s id = record s { pending = remove_pending s.pending id }

  abbrev pub close_answer : List (ℕ × Pending F) → ℕ → List (ℕ × Pending F)
  close_answer [] id = []
  close_answer ((k, p) ∷ pending) id =
      let rest = close_answer pending id in
      (k, if k == id then record p { closed_answer = true } else p) ∷ rest

module _ {F : Type 0} (api : FetchApi F) (max_chunk : ℕ) where
  unfoldable pub ask_range :
      State F → ℕ → (index position amount : ℕ) → Option ℕ → (sent : Bool) → State F × Reply
  unfolding allocate submit
  ask_range s g index position amount lock sent =
      let room = allocate s amount in
      elim room.1 [
        | none ↦ (room.0, refused)
        | some id ↦
            let first = api.next_request (api.new_fetch id index amount max_chunk lock max_read) in
            elim first.0 [
              | none ↦ (room.0, refused)
              | some request ↦
                  submit room.0 g (record request { position = position })
                    (range_of position first.1) amount sent
            ]
      ]

  unfoldable pub node_range :
      State F → ℕ → Selection → RemoteNode → (position size : ℕ) → (sent : Bool) → State F × Reply
  unfolding ask_range
  node_range s g sel n position size sent = elim n.kind [
    | directory ↦ (s, refused)
    | file index ↦ elim n.size [
      | none ↦ (s, refused)
      | some known ↦
          let amount = min (known - position) size in
          if amount == 0
          then (s, answered (bytes_value []))
          else ask_range s g index position amount sel.data_id sent
    ]
  ]

  -- `read`, once `size` has answered.
  unfoldable pub start_read :
      State F → (g inode position size : ℕ) → (sent : Bool) → State F × Reply
  unfolding node_range selection servable node
  start_read s g inode position size sent =
      if not (servable s g) || ltb max_read size then (s, refused) else elim (selection s g) [
        | none ↦ (s, refused)
        | some sel ↦ elim (node sel.tree inode) [
          | none ↦ (s, refused)
          | some n ↦ node_range s g sel n position size sent
        ]
      ]

  -- The next chunk is asked for, unless its place is out of range.
  unfoldable pub next_chunk : State F → Pending F → ℕ → ℕ → F → (sent : Bool) → State F × Effect
  next_chunk s p id base fetch sent =
      let next = api.next_request fetch in
      elim next.0 [
        | none ↦ (s, ends none)
        | some request ↦ elim (checked_add base request.position) [
          | none ↦ (s, ends none)
          | some position ↦
              if sent
              then (
                put_pending s id (record p { operation = range_of base next.1 }),
                continues (record request { position = position }),
              )
              else (s, ends none)
        ]
      ]

  unfoldable pub answer_range :
      State F → Pending F → ℕ → F → Response → (sent : Bool) → State F × Effect
  unfolding next_chunk
  answer_range s p base fetch response sent =
      let took = api.take_response fetch response in
      elim took.0 [
        | failed ↦ (s, ends none)
        | complete ↦ (s, ends (some (bytes_value (api.into_data took.1))))
        | in_progress ↦ next_chunk s p response.response_stream base took.1 sent
      ]

  unfoldable pub answer_pending : State F → Pending F → Response → (sent : Bool) → State F × Effect
  unfolding answer_size answer_range
  answer_pending s p response sent = elim p.operation [
    | size_of inode ↦ answer_size s p inode response
    | range_of base fetch ↦ answer_range s p base fetch response sent
  ]

  unfoldable pub on_response : State F → Response → (sent : Bool) → State F × Effect
  unfolding answer_pending
  on_response s response sent =
      let t = record s { pending = remove_pending s.pending response.response_stream } in
      elim (get_pending s.pending response.response_stream) [
        | none ↦ (s, ignored)
        | some p ↦ if p.closed_answer then (t, ignored) else answer_pending t p response sent
      ]

  unfoldable pub transfer_step : (max_entries now : ℕ) → State F → TransferEvent → State F
  unfolding capabilities retire_generation release_locks close accept_for start_size start_read
      on_response timed_out
  transfer_step max_entries now s (negotiated stream huge locking) =
      (capabilities s stream huge locking now).0
  transfer_step max_entries now s superseded = (retire_generation s now).0
  transfer_step max_entries now s (released ids) = (release_locks s ids now).0
  transfer_step max_entries now s shut = (close s now).0
  transfer_step max_entries now s (announced_files expected files lock) =
      (accept_for s expected files lock max_entries now).0
  transfer_step max_entries now s (size_wanted g inode sent) = (start_size s g inode sent).0
  transfer_step max_entries now s (read_wanted g inode position size sent) =
      (start_read s g inode position size sent).0
  transfer_step max_entries now s (responded response sent) = (on_response s response sent).0
  transfer_step max_entries now s (expired id) = timed_out s id
  transfer_step max_entries now s (abandoned id) = record s { pending = close_answer s.pending id }
