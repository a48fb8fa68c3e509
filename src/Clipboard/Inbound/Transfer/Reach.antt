-- ===== src/Clipboard/Inbound/Transfer/Reach.antt =====
-- Whatever the client, the compositor and the readers do to the state of
-- src/clipboard/inbound/transfer.rs, no two of its selections own an inode, together or one after the
-- other.
use hypr_rdp.Base.{
  ap, ℕ, suc, ◌≤◌, ◌<◌, ◌≡◌, refl, ◌≢◌, Option, some, List, [], ◌∷◌, ◌==◌, arith, u64_max,
  Bool-cases, inl, inr, ◌⊎◌, subst, All, get_elem?-lt,
}
use hypr_rdp.Clipboard.Inbound.Tree.{entries, RemoteNode, node, root_inode, empty, rooted}
use hypr_rdp.Clipboard.Inbound.Tree.Mount.{node_place}
use hypr_rdp.Clipboard.Inbound.Transfer.Selections.{Selection, State, selection, get_retired}
use hypr_rdp.Clipboard.Inbound.Transfer.Inodes.{
  All-map, Under, first_of, end_of, Before, Older, Pairwise, Orderly,
}
use hypr_rdp.Clipboard.Inbound.Transfer.Supersede.{
  Good, capabilities-Good, close-Good, retire_generation-Good, release_locks-Good, accept_for-Good,
}
use hypr_rdp.Clipboard.Inbound.Transfer.Quiet.{Same-Orderly, start_size-Same, start_read-Same}
use hypr_rdp.Clipboard.Inbound.Transfer.Answers.{IsQuiet, on_response-keeps}
use hypr_rdp.Clipboard.Inbound.Transfer.History.{
  IsApart, Before-IsApart, Before-IsApart_newer, Marked, Same-Marked, Marked-IsQuiet,
  capabilities-Marked, close-Marked, retire_generation-Marked, release_locks-Marked,
  accept_for-Marked,
}
use hypr_rdp.Clipboard.Inbound.Transfer.Sizes.{store_size-Orderly}
use hypr_rdp.Clipboard.Inbound.Transfer.{FetchApi, new_transfer}
use hypr_rdp.Clipboard.Inbound.Transfer.Reads.{
  start_size, start_read, timed_out, TransferEvent, negotiated, superseded, released, shut,
  announced_files, size_wanted, read_wanted, responded, expired, abandoned, transfer_step,
}

new_transfer-Orderly : (F : Type 0) (now : ℕ) → Orderly (new_transfer {F = F} now)
unfolding new_transfer empty rooted
new_transfer-Orderly F now = record {
  apart = tt;
  older = tt;
  newest = tt;
  counted = inl refl;
  few = omega arith;
}

Orderly-IsQuiet : (F : Type 0) → IsQuiet {F = F} Orderly
Orderly-IsQuiet F = record { on_same = Same-Orderly; on_size = store_size-Orderly }

module _ {F : Type 0} (api : FetchApi F) (max_chunk : ℕ) where
  step-Good :
      (max_entries now : ℕ) (s : State F) (e : TransferEvent)
      → Orderly s
      → Good (transfer_step api max_chunk max_entries now s e)
  unfolding transfer_step timed_out
  step-Good max_entries now s (negotiated a b c) o = capabilities-Good s a b c now o
  step-Good max_entries now s superseded o = retire_generation-Good s now o
  step-Good max_entries now s (released ids) o = release_locks-Good s ids now o
  step-Good max_entries now s shut o = close-Good s now o
  step-Good max_entries now s (announced_files expected files lock) o =
      accept_for-Good s expected files lock max_entries now o
  step-Good max_entries now s (size_wanted g inode sent) o =
      λ small low. Same-Orderly s (start_size s g inode sent).0 (start_size-Same s g inode sent) o
  step-Good max_entries now s (read_wanted g inode position size sent) o = λ small low.
      Same-Orderly s (start_read api max_chunk s g inode position size sent).0
        (start_read-Same api max_chunk s g inode position size sent) o
  step-Good max_entries now s (responded response sent) o =
      λ small low. on_response-keeps api max_chunk Orderly (Orderly-IsQuiet F) s response sent o
  step-Good max_entries now s (expired id) o = λ small low. o
  step-Good max_entries now s (abandoned id) o = λ small low. o

  -- The states that events lead to, as long as the two counters of 64 bits, of generations and of
  -- inodes, have not come to their end.
  pub data Reached (max_entries : ℕ) : State F → Type 0 where
    begin : (now : ℕ) → Reached max_entries (new_transfer now)
    then_event :
        {s : State F} (now : ℕ) (e : TransferEvent)
        → (transfer_step api max_chunk max_entries now s e).generation < u64_max
        → (transfer_step api max_chunk max_entries now s e).base_after < u64_max
        → Reached max_entries s
        → Reached max_entries (transfer_step api max_chunk max_entries now s e)

  Reached-Orderly : (max_entries : ℕ) {s : State F} → Reached max_entries s → Orderly s
  Reached-Orderly max_entries (begin now) = new_transfer-Orderly F now
  Reached-Orderly max_entries (then_event {s} now e small low r) =
      step-Good max_entries now s e (Reached-Orderly max_entries r) small low

retired-All {κ} :
    (P : ℕ × Selection → Type κ) (xs : List (ℕ × Selection)) (g : ℕ) (a : Selection)
    → All P xs
    → get_retired xs g ≡ some a
    → P (g, a)
retired-All P [] g a h e = cc
retired-All P ((k, sel) ∷ xs) g a h e = elim (Bool-cases (k == g)) [
  | inl f ↦
      let key : k ≡ g = ground arith in
      let same : ◌≡◌ {A = Option Selection} (some sel) (some a) = rw f at e in
      let whole : (k, sel) ≡ (g, a) = cc in subst P whole h.0
  | inr f ↦ retired-All P xs g a h.1 (rw f at e)
]

abbrev Owns : Selection → ℕ → Type 0
Owns a inode = (first_of a ≤ inode) × (inode < end_of a)

node-Owns :
    (a : Selection) (inode : ℕ) (n : RemoteNode)
    → inode ≢ root_inode
    → node a.tree inode ≡ some n
    → Owns a inode
node-Owns a inode n other e =
    let place = node_place a.tree inode n other e in
    let short = get_elem?-lt (a.tree).nodes (suc place.0) n place.2 in
    let at = place.1 in (omega arith, omega arith)

selection_cases :
    {F : Type 0} (s : State F) (g : ℕ) (a : Selection)
    → selection s g ≡ some a
    → ((s.generation ≡ g) × (s.current ≡ a)) ⊎ (get_retired s.retiring g ≡ some a)
unfolding selection
selection_cases s g a e = elim (Bool-cases (s.generation == g)) [
  | inl f ↦ inl (ground arith, ground arith)
  | inr f ↦ inr (ground arith)
]

-- The retired selections of an orderly state, seen from one of them.
retired-Apart :
    (xs : List (ℕ × Selection)) (g : ℕ) (a : Selection)
    → first_of a < end_of a
    → Pairwise xs
    → get_retired xs g ≡ some a
    → All (IsApart g a) xs
retired-Apart [] g a full p e = tt
retired-Apart ((k, sel) ∷ xs) g a full p e = elim (Bool-cases (k == g)) [
  | inl f ↦
      let key : k ≡ g = ground arith in
      let same : ◌≡◌ {A = Option Selection} (some sel) (some a) = rw f at e in
      let is : sel ≡ a = cc in
      (
        inr (inl (key, ap (λ x. first_of x) is, ap (λ x. entries x.tree) is)),
        All-map (Older (k, sel)) (IsApart g a) xs
            (λ y o. Before-IsApart_newer g a (k, sel) y is o.1) p.0,
      )
  | inr f ↦
      let there = retired-All (Older (k, sel)) xs g a p.0 (rw f at e) in
      (Before-IsApart g a (k, sel) full there.1, retired-Apart xs g a full p.1 (rw f at e))
]

Orderly-Marked :
    {F : Type 0} (s : State F) (g : ℕ) (a : Selection)
    → first_of a < end_of a
    → Orderly s
    → selection s g ≡ some a
    → Marked g a s
Orderly-Marked s g a full o e = elim (selection_cases s g a e) [
  | inl (g_is, a_is) ↦ record {
    ended = elim (rw a_is at o.counted) [
      | inl none_there ↦ absurd (omega arith)
      | inr below ↦ below
    ];
    marked =
        All-map (λ x. Before x s.current) (IsApart g a) s.retiring
          (λ x b. Before-IsApart g a x full (subst (Before x) a_is b)) o.newest;
    now_marked = inr (inl (g_is, ap (λ x. first_of x) a_is, ap (λ x. entries x.tree) a_is));
  }
  | inr there ↦ record {
    ended = (retired-All (Under s.generation s.base_after) s.retiring g a o.older there).1;
    marked = retired-Apart s.retiring g a full o.apart there;
    now_marked =
        Before-IsApart_newer g a (g, a) (s.generation, s.current) refl
          (retired-All (λ x. Before x s.current) s.retiring g a o.newest there);
  }
]

module _ {F : Type 0} (api : FetchApi F) (max_chunk max_entries : ℕ) where
  -- The states that events lead to from a state.
  pub data Later (s : State F) : State F → Type 0 where
    still_there : Later s s
    later_event :
        {t : State F} (now : ℕ) (e : TransferEvent)
        → Later s t
        → Later s (transfer_step api max_chunk max_entries now t e)

  step-Marked :
      (g : ℕ) (a : Selection) (now : ℕ) (s : State F) (e : TransferEvent)
      → end_of a ≤ u64_max
      → Marked g a s
      → Marked g a (transfer_step api max_chunk max_entries now s e)
  unfolding transfer_step timed_out
  step-Marked g a now s (negotiated b c d) fits o = capabilities-Marked g a s b c d now o
  step-Marked g a now s superseded fits o = retire_generation-Marked g a s now o
  step-Marked g a now s (released ids) fits o = release_locks-Marked g a s ids now o
  step-Marked g a now s shut fits o = close-Marked g a s now o
  step-Marked g a now s (announced_files expected files lock) fits o =
      accept_for-Marked g a s expected files lock max_entries now fits o
  step-Marked g a now s (size_wanted h inode sent) fits o =
      Same-Marked g a s (start_size s h inode sent).0 (start_size-Same s h inode sent) o
  step-Marked g a now s (read_wanted h inode position size sent) fits o =
      Same-Marked g a s (start_read api max_chunk s h inode position size sent).0
        (start_read-Same api max_chunk s h inode position size sent) o
  step-Marked g a now s (responded response sent) fits o =
      on_response-keeps api max_chunk (Marked g a) (Marked-IsQuiet g a) s response sent o
  step-Marked g a now s (expired id) fits o =
      Same-Marked g a s (timed_out s id) (refl, refl, refl, refl) o
  step-Marked g a now s (abandoned id) fits o =
      Same-Marked g a s (transfer_step api max_chunk max_entries now s (abandoned id))
        (refl, refl, refl, refl) o

  Later-Marked :
      (g : ℕ) (a : Selection) {s t : State F}
      → end_of a ≤ u64_max
      → Marked g a s
      → Later s t
      → Marked g a t
  Later-Marked g a fits o still_there = o
  Later-Marked g a fits o (later_event {t} now e r) =
      step-Marked g a now t e fits (Later-Marked g a fits o r)

  Reached-small : {s : State F} → Reached api max_chunk max_entries s → s.base_after ≤ u64_max
  unfolding new_transfer
  Reached-small (begin now) = omega arith
  Reached-small (then_event now e small low r) = omega arith

served-IsApart :
    {F : Type 0} (g h : ℕ) (a b : Selection) (t : State F)
    → Marked g a t
    → selection t h ≡ some b
    → IsApart g a (h, b)
served-IsApart g h a b t o e = elim (selection_cases t h b e) [
  | inl (h_is, b_is) ↦
      let whole : (t.generation, t.current) ≡ (h, b) = cc in subst (IsApart g a) whole o.now_marked
  | inr there ↦ retired-All (IsApart g a) t.retiring h b o.marked there
]

-- In every state that events can lead to while no counter of 64 bits has come to its end, and in that
-- state or any that later events lead to: if an inode other than the root's names a node in a selection
-- that the first state serves, current or retired, and a node in one that the later state serves, the
-- two have one generation, and their trees the same range of inodes. Neither two selections that are
-- served together nor two that follow each other share an inode, so that a handle kept open across new
-- announcements never reads another file.
pub inode_of_one_selection :
    {F : Type 0} (api : FetchApi F) (max_chunk max_entries : ℕ) (s t : State F) (g h inode : ℕ)
    (a b : Selection) (m n : RemoteNode)
    → Reached api max_chunk max_entries s
    → Later api max_chunk max_entries s t
    → selection s g ≡ some a
    → selection t h ≡ some b
    → inode ≢ root_inode
    → node a.tree inode ≡ some m
    → node b.tree inode ≡ some n
    → (h ≡ g) × (first_of b ≡ first_of a) × (entries b.tree ≡ entries a.tree)
inode_of_one_selection api max_chunk max_entries s t g h inode a b m n r later sg th other na nb =
    let oa = node-Owns a inode m other na in
    let ob = node-Owns b inode n other nb in
    let full : first_of a < end_of a = (let x = oa.0 in let y = oa.1 in omega arith) in
    let marked = Orderly-Marked s g a full (Reached-Orderly api max_chunk max_entries r) sg in
    let ended = marked.ended in
    let small = Reached-small api max_chunk max_entries r in
    let at_last = Later-Marked api max_chunk max_entries g a (omega arith) marked later in
    let (a0, a1) = oa in
    let (b0, b1) = ob in
    elim (served-IsApart g h a b t at_last th) [
      | inl none_there ↦ absurd (omega arith)
      | inr (inl same) ↦ same
      | inr (inr (inl after)) ↦ absurd (omega arith)
      | inr (inr (inr before)) ↦ absurd (omega arith)
    ]
