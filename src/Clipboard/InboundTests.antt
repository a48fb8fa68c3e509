-- ===== src/Clipboard/InboundTests.antt =====
-- A client's list with a file in a folder, an unsafe name and a folder that comes late, and the
-- selections that two announcements of it make.
use hypr_rdp.Base.{ℕ, ◌≡◌, refl, arith, true, false, none, some, List, [], ◌∷◌, length}
use hypr_rdp.Clipboard.Inbound.Tree.{
  empty, next_base, RemoteTree, RemoteNode, node, children, entries, directory, file,
}
use hypr_rdp.Clipboard.Inbound.Tree.Entries.{build}
use hypr_rdp.Clipboard.Inbound.Tree.Paths.{system_time, FileDescriptor}
use hypr_rdp.Clipboard.Inbound.Tree.Mount.{IsSandboxed, build-IsSandboxed}
use hypr_rdp.Clipboard.Inbound.Transfer.Selections.{State, selection}
use hypr_rdp.Clipboard.Inbound.Transfer.{complete, FetchApi, new_transfer}
use hypr_rdp.Clipboard.Inbound.Transfer.Reads.{
  negotiated, announced_files, expired, timed_out, transfer_step,
}
use hypr_rdp.Clipboard.Inbound.Transfer.Reach.{
  Reached, begin, then_event, still_there, later_event, inode_of_one_selection,
}
use hypr_rdp.Clipboard.Inbound.Transfer.Inodes.{first_of}

abbrev plain_file : List ℕ → FileDescriptor
plain_file name = record {
  attributes = none;
  last_write_time = none;
  file_size_field = some 5;
  file_name = name;
  relative_path = none;
}

abbrev folder : List ℕ → FileDescriptor
folder name = record {
  attributes = some (record { is_directory_flag = true; is_read_only_flag = true });
  last_write_time = some 10_000_000;
  file_size_field = none;
  file_name = name;
  relative_path = none;
}

-- "d\f", "../x" and the folder "d".
abbrev listed : List FileDescriptor
listed =
    plain_file (100 ∷ (92 ∷ (102 ∷ [])))
    ∷ (plain_file (46 ∷ (46 ∷ (47 ∷ (120 ∷ [])))) ∷ (folder (100 ∷ []) ∷ []))

abbrev mount : RemoteTree
mount = build listed 100 2 7

two_entries : entries mount ≡ 2
unfolding build system_time
two_entries = refl

-- The folder was made for the file in it, and takes its flags from the descriptor that comes late.
late_folder :
    node mount 2
    ≡ some (record {
      name = 100 ∷ [];
      parent = 1;
      size = some 0;
      modified = 1_000_000_000;
      kind = directory;
      read_only = true;
      children = 3 ∷ [];
    })
unfolding build node system_time
late_folder = refl

file_in_folder :
    node mount 3
    ≡ some (record {
      name = 102 ∷ [];
      parent = 2;
      size = some 5;
      modified = 7;
      kind = file 0;
      read_only = false;
      children = [];
    })
unfolding build node system_time
file_in_folder = refl

build-IsSandboxed_example : IsSandboxed listed 100 mount
build-IsSandboxed_example = build-IsSandboxed listed 100 2 7 (omega arith) (omega arith)

-- A fetch that is complete at its first response.
abbrev one_chunk : FetchApi ℕ
one_chunk = record {
  new_fetch = λ stream index amount max_chunk lock limit. index;
  next_request = λ f. (
    some (record {
      stream_id = 1;
      index = f;
      wants_size = false;
      position = 0;
      requested_size = 1;
      lock_id = none;
    }),
    f,
  );
  take_response = λ f r. (complete, f);
  into_data = λ f. [];
}

abbrev after_negotiation : State ℕ
after_negotiation = transfer_step one_chunk 8 100 7 (new_transfer 7) (negotiated true true true)

abbrev after_first : State ℕ
after_first =
    transfer_step one_chunk 8 100 7 after_negotiation
      (announced_files after_negotiation.generation listed (some 1))

abbrev after_second : State ℕ
after_second =
    transfer_step one_chunk 8 100 7 after_first
      (announced_files after_first.generation listed (some 2))

two_generations :
    (after_first.generation ≡ 2)
    × (after_second.generation ≡ 3)
    × (length after_second.retiring ≡ 1)
unfolding transfer_step new_transfer children empty build next_base system_time
two_generations = (refl, refl, refl)

second_Reached : Reached one_chunk 8 100 after_second
unfolding transfer_step new_transfer children empty build next_base system_time
second_Reached =
    then_event 7 (announced_files after_first.generation listed (some 2)) (omega arith)
      (omega arith)
      (then_event 7 (announced_files after_negotiation.generation listed (some 1)) (omega arith)
        (omega arith)
        (then_event 7 (negotiated true true true) (omega arith) (omega arith) (begin 7)))

abbrev second_folder : RemoteNode
second_folder = record {
  name = 100 ∷ [];
  parent = 1;
  size = some 0;
  modified = 1_000_000_000;
  kind = directory;
  read_only = true;
  children = 5 ∷ [];
}

served : selection after_second 3 ≡ some after_second.current
unfolding transfer_step new_transfer children empty build next_base system_time selection
served = refl

folder_at : node (after_second.current).tree 4 ≡ some second_folder
unfolding transfer_step new_transfer children empty build next_base system_time node
folder_at = refl

-- A request that is given up changes no selection.
abbrev after_third : State ℕ
after_third = transfer_step one_chunk 8 100 3 after_second (expired 1)

served_later : selection after_third 3 ≡ some after_third.current
unfolding transfer_step new_transfer children empty build next_base system_time selection timed_out
served_later = refl

folder_at_later : node (after_third.current).tree 4 ≡ some second_folder
unfolding transfer_step new_transfer children empty build next_base system_time node timed_out
folder_at_later = refl

inode_of_one_selection_example :
    (◌≡◌ {A = ℕ} 3 3)
    × (first_of after_third.current ≡ first_of after_second.current)
    × (entries (after_third.current).tree ≡ entries (after_second.current).tree)
inode_of_one_selection_example =
    inode_of_one_selection one_chunk 8 100 after_second after_third 3 3 4 after_second.current
      after_third.current second_folder second_folder second_Reached
      (later_event 3 (expired 1) still_there) served served_later (λ e. omega arith) folder_at
      folder_at_later
