-- ===== src/Clipboard/Inbound/Transfer/Answers.antt =====
-- A property that reads no more of the state of src/clipboard/inbound/transfer.rs than its selections,
-- and of them no sizes, is kept by every read and every response.
use hypr_rdp.Base.{
  ℕ, ◌≡◌, refl, Bool, true, false, not, ◌||◌, ◌==◌, if◌then◌else◌, length, Bool-cases, Option-cases,
  inl, inr, ◌⊎◌,
}
use hypr_rdp.Clipboard.Inbound.Transfer.Selections.{Operation, size_of, range_of, Pending, State}
use hypr_rdp.Clipboard.Inbound.Transfer.Quiet.{Same, answer_range-Same}
use hypr_rdp.Clipboard.Inbound.Transfer.{
  Response, Effect, ignored, FetchApi, remove_pending, get_pending,
}
use hypr_rdp.Clipboard.Inbound.Transfer.Reads.{
  store_size, answer_size, answer_range, answer_pending, le64, on_response,
}

either :
    {F : Type 0} (P : State F → Type 0) (b : Bool) (x y : State F × Effect)
    → P x.0
    → P y.0
    → P (if b then x else y).0
either P true x y o p = o
either P false x y o p = p

operation_cases :
    {F : Type 0} (o : Operation F)
    → ((inode : ℕ) × (o ≡ size_of inode)) ⊎ ((base : ℕ) × (fetch : F) × (o ≡ range_of base fetch))
operation_cases (size_of inode) = inl (inode, refl)
operation_cases (range_of base fetch) = inr (base, fetch, refl)

-- Kept where the selections are, and where a size is stored.
pub record IsQuiet {F : Type 0} (P : State F → Type 0) : Type 0 where
  pub on_same : (s t : State F) → Same s t → P s → P t
  pub on_size : (s : State F) (g inode size : ℕ) → P s → P (store_size s g inode size).0

module _ {F : Type 0} (api : FetchApi F) (max_chunk : ℕ) (P : State F → Type 0)
    (quiet : IsQuiet P) where
  answer_size-keeps :
      (s : State F) (p : Pending F) (inode : ℕ) (response : Response)
      → P s
      → P (answer_size s p inode response).0
  unfolding answer_size
  answer_size-keeps s p inode response o =
      elim (Bool-cases (response.is_error || not (length response.payload == 8))) [
        | inl e ↦ rw (e, answer_size) o
        | inr e ↦ rw (e, answer_size) (quiet.on_size s p.asked_by inode (le64 response.payload) o)
      ]

  answer_pending-keeps :
      (s : State F) (p : Pending F) (response : Response) (sent : Bool)
      → P s
      → P (answer_pending api max_chunk s p response sent).0
  unfolding answer_pending
  answer_pending-keeps s p response sent o = elim (operation_cases p.operation) [
    | inl (inode, e) ↦ rw (e, answer_pending) (answer_size-keeps s p inode response o)
    | inr (base, fetch, e) ↦
        rw (e, answer_pending)
          (quiet.on_same s (answer_range api max_chunk s p base fetch response sent).0
            (answer_range-Same api max_chunk s p base fetch response sent) o)
  ]

  pub on_response-keeps :
      (s : State F) (response : Response) (sent : Bool)
      → P s
      → P (on_response api max_chunk s response sent).0
  unfolding on_response
  on_response-keeps s response sent o =
      let t = record s { pending = remove_pending s.pending response.response_stream } in
      let there = quiet.on_same s t (refl, refl, refl, refl) o in
      elim (Option-cases (get_pending s.pending response.response_stream)) [
        | inl e ↦ rw (e, on_response) o
        | inr (p, e) ↦
            rw (e, on_response)
              (either P p.closed_answer (t, ignored)
                (answer_pending api max_chunk t p response sent) there
                (answer_pending-keeps t p response sent there))
      ]
