-- ===== src/Clipboard/Inbound/Transfer/Quiet.antt =====
-- The reads and the responses of src/clipboard/inbound/transfer.rs change no selection, but for the
-- size of a node.
use hypr_rdp.Base.{
  ℕ, ◌+◌, ◌-◌, min, ◌≡◌, refl, Bool, true, false, not, ◌||◌, Option, ◌==◌, length, ltb, leb,
  Bool-cases, Option-cases, inl, inr, ◌⊎◌, ◌∙◌,
}
use hypr_rdp.Clipboard.Inbound.Tree.{RemoteNode, RemoteNodeKind, directory, file, node, checked_add}
use hypr_rdp.Clipboard.Inbound.Transfer.Selections.{
  Selection, Operation, size_of, range_of, Pending, State, servable, selection,
}
use hypr_rdp.Clipboard.Inbound.Transfer.Inodes.{Orderly}
use hypr_rdp.Clipboard.Inbound.Transfer.{
  Request, Response, Progress, failed, complete, in_progress, FetchApi, max_read, without_closed,
  total_reserved, max_pending, max_buffered, allocate, submit,
}
use hypr_rdp.Clipboard.Inbound.Transfer.Reads.{
  size_request, ask_size, node_size, start_size, ask_range, node_range, start_read, next_chunk,
  answer_range,
}

kind_cases : (k : RemoteNodeKind) → (k ≡ directory) ⊎ ((index : ℕ) × (k ≡ file index))
kind_cases directory = inl refl
kind_cases (file index) = inr (index, refl)

progress_cases : (p : Progress) → (p ≡ failed) ⊎ ((p ≡ complete) ⊎ (p ≡ in_progress))
progress_cases failed = inl refl
progress_cases complete = inr (inl refl)
progress_cases in_progress = inr (inr refl)

module _ {F : Type 0} where
  -- The state has the same selections.
  abbrev pub Same : State F → State F → Type 0
  Same s t =
      (t.generation ≡ s.generation)
      × (t.base_after ≡ s.base_after)
      × (t.current ≡ s.current)
      × (t.retiring ≡ s.retiring)

  pub Same-Orderly : (s t : State F) → Same s t → Orderly s → Orderly t
  Same-Orderly s t e o = rw (e.0, e.1, e.2, e.3) o

  Same-trans : (s t u : State F) → Same s t → Same t u → Same s u
  Same-trans s t u e f = (f.0 ∙ e.0, f.1 ∙ e.1, f.2 ∙ e.2, f.3 ∙ e.3)

  still : (s : State F) → Same s s
  still s = (refl, refl, refl, refl)

  allocate-Same : (s : State F) (bytes : ℕ) → Same s (allocate s bytes).0
  unfolding allocate
  allocate-Same s bytes =
      let open_ones = without_closed s.pending in
      elim (Bool-cases (
        leb max_pending (length open_ones)
        || ltb max_buffered (bytes + total_reserved open_ones))) [
          | inl e ↦ rw (e, allocate) (refl, refl, refl, refl)
          | inr e ↦ elim (Option-cases s.next_stream) [
            | inl f ↦ rw (e, f, allocate) (refl, refl, refl, refl)
            | inr (id, f) ↦ rw (e, f, allocate) (refl, refl, refl, refl)
          ]
        ]

  submit-Same :
      (s : State F) (g : ℕ) (request : Request) (operation : Operation F) (reserved : ℕ)
      (sent : Bool)
      → Same s (submit s g request operation reserved sent).0
  unfolding submit
  submit-Same s g request operation reserved true = still s
  submit-Same s g request operation reserved false = still s

  ask_size-Same :
      (s : State F) (g inode index : ℕ) (lock : Option ℕ) (sent : Bool)
      → Same s (ask_size s g inode index lock sent).0
  unfolding ask_size
  ask_size-Same s g inode index lock sent =
      let room = allocate s 8 in
      elim (Option-cases room.1) [
        | inl e ↦ rw (e, ask_size) (allocate-Same s 8)
        | inr (id, e) ↦
            rw (e, ask_size)
              (Same-trans s room.0
                (submit room.0 g (size_request id index lock) (size_of inode) 8 sent).0
                (allocate-Same s 8)
                (submit-Same room.0 g (size_request id index lock) (size_of inode) 8 sent))
      ]

  node_size-Same :
      (s : State F) (g inode : ℕ) (sel : Selection) (n : RemoteNode) (sent : Bool)
      → Same s (node_size s g inode sel n sent).0
  unfolding node_size
  node_size-Same s g inode sel n sent = elim (Option-cases n.size) [
    | inl e ↦ elim (kind_cases n.kind) [
      | inl f ↦ rw (e, f, node_size) (still s)
      | inr (index, f) ↦ rw (e, f, node_size) (ask_size-Same s g inode index sel.data_id sent)
    ]
    | inr (size, e) ↦ rw (e, node_size) (still s)
  ]

  pub start_size-Same :
      (s : State F) (g inode : ℕ) (sent : Bool) → Same s (start_size s g inode sent).0
  unfolding start_size
  start_size-Same s g inode sent = elim (Bool-cases (servable s g)) [
    | inl e ↦ elim (Option-cases (selection s g)) [
      | inl f ↦ rw (e, f, start_size) (still s)
      | inr (sel, f) ↦ elim (Option-cases (node sel.tree inode)) [
        | inl h ↦ rw (e, f, h, start_size) (still s)
        | inr (n, h) ↦ rw (e, f, h, start_size) (node_size-Same s g inode sel n sent)
      ]
    ]
    | inr e ↦ rw (e, start_size) (still s)
  ]

module _ {F : Type 0} (api : FetchApi F) (max_chunk : ℕ) where
  ask_range-Same :
      (s : State F) (g index position amount : ℕ) (lock : Option ℕ) (sent : Bool)
      → Same s (ask_range api max_chunk s g index position amount lock sent).0
  unfolding ask_range
  ask_range-Same s g index position amount lock sent =
      let room = allocate s amount in
      elim (Option-cases room.1) [
        | inl e ↦ rw (e, ask_range) (allocate-Same s amount)
        | inr (id, e) ↦
            let first = api.next_request (api.new_fetch id index amount max_chunk lock max_read) in
            elim (Option-cases first.0) [
              | inl f ↦ rw (e, f, ask_range) (allocate-Same s amount)
              | inr (request, f) ↦
                  let asked = record request { position = position } in
                  rw (e, f, ask_range)
                    (Same-trans s room.0
                      (submit room.0 g asked (range_of position first.1) amount sent).0
                      (allocate-Same s amount)
                      (submit-Same room.0 g asked (range_of position first.1) amount sent))
            ]
      ]

  node_range-Same :
      (s : State F) (g : ℕ) (sel : Selection) (n : RemoteNode) (position size : ℕ) (sent : Bool)
      → Same s (node_range api max_chunk s g sel n position size sent).0
  unfolding node_range
  node_range-Same s g sel n position size sent = elim (kind_cases n.kind) [
    | inl e ↦ rw (e, node_range) (still s)
    | inr (index, e) ↦ elim (Option-cases n.size) [
      | inl f ↦ rw (e, f, node_range) (still s)
      | inr (known, f) ↦ elim (Bool-cases (min (known - position) size == 0)) [
        | inl h ↦ rw (e, f, h, node_range) (still s)
        | inr h ↦
            rw (e, f, h, node_range)
              (ask_range-Same s g index position (min (known - position) size) sel.data_id sent)
      ]
    ]
  ]

  pub start_read-Same :
      (s : State F) (g inode position size : ℕ) (sent : Bool)
      → Same s (start_read api max_chunk s g inode position size sent).0
  unfolding start_read
  start_read-Same s g inode position size sent =
      elim (Bool-cases (not (servable s g) || ltb max_read size)) [
        | inl e ↦ rw (e, start_read) (still s)
        | inr e ↦ elim (Option-cases (selection s g)) [
          | inl f ↦ rw (e, f, start_read) (still s)
          | inr (sel, f) ↦ elim (Option-cases (node sel.tree inode)) [
            | inl h ↦ rw (e, f, h, start_read) (still s)
            | inr (n, h) ↦ rw (e, f, h, start_read) (node_range-Same s g sel n position size sent)
          ]
        ]
      ]

  next_chunk-Same :
      (s : State F) (p : Pending F) (id base : ℕ) (fetch : F) (sent : Bool)
      → Same s (next_chunk api max_chunk s p id base fetch sent).0
  unfolding next_chunk
  next_chunk-Same s p id base fetch sent =
      let next = api.next_request fetch in
      elim (Option-cases next.0) [
        | inl e ↦ rw (e, next_chunk) (still s)
        | inr (request, e) ↦ elim (Option-cases (checked_add base request.position)) [
          | inl f ↦ rw (e, f, next_chunk) (still s)
          | inr (position, f) ↦ elim (Bool-cases sent) [
            | inl h ↦ rw (e, f, h, next_chunk) (refl, refl, refl, refl)
            | inr h ↦ rw (e, f, h, next_chunk) (still s)
          ]
        ]
      ]

  pub answer_range-Same :
      (s : State F) (p : Pending F) (base : ℕ) (fetch : F) (response : Response) (sent : Bool)
      → Same s (answer_range api max_chunk s p base fetch response sent).0
  unfolding answer_range
  answer_range-Same s p base fetch response sent =
      let took = api.take_response fetch response in
      elim (progress_cases took.0) [
        | inl e ↦ rw (e, answer_range) (still s)
        | inr (inl e) ↦ rw (e, answer_range) (still s)
        | inr (inr e) ↦
            rw (e, answer_range) (next_chunk-Same s p response.response_stream base took.1 sent)
      ]
