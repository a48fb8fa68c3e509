-- ===== src/Input/Actor.antt =====
-- src/input/actor.rs: the thread that owns the keyboard state. A command runs to its end before the
-- next, so a handler is a function on the actor's state; the requests to the compositor are recorded,
-- the latest first. Logging is left out.
pub mod Replay
pub mod Calls
pub mod Typing
pub mod Held
pub mod Client
pub mod Mirrors
pub mod Session
pub mod Announce
use Prim.Native.String.{String}
use hypr_rdp.Base.{
  ℕ, suc, Bool, true, false, not, ◌&&◌, ◌||◌, Option, none, some, List, [], ◌∷◌, ◌==◌,
  if◌then◌else◌, length,
}
use hypr_rdp.Input.Keymap.{xt_to_evdev}
use hypr_rdp.Input.Keyboard.{
  Xkb, KeyboardModifierState, KeyboardStateTracker, SynchronizeFlags, UnicodeKeyMapping,
  layout_index_by_name, modifier_state, tracker_key, set_locked_group, synchronize_locks,
}
use hypr_rdp.Input.Depressed.{
  DepressedKeys, no_keys, is_empty, nothing_held, holds_modifier, press_unicode_shift,
  release_unicode_shift, press, release, release_all,
}

abbrev pub left_shift_key : ℕ
left_shift_key = 42

unfoldable pub is_modifier : ℕ → Bool
is_modifier k =
    k == 29
    || k == left_shift_key
    || k == 54
    || k == 56
    || k == 97
    || k == 100
    || k == 125
    || k == 126

pub data KeyboardEvent : Type 0 where
  pressed released : (code : ℕ) (extended : Bool) → KeyboardEvent
  synchronize : SynchronizeFlags → KeyboardEvent
  unicode_pressed unicode_released : (code_point : ℕ) → KeyboardEvent

pub record InitialLayoutCandidates : Type 0 where
  pub main : Option (String × String)
  pub others : List (String × String)

-- A mouse event is passed through, named by a number.
pub data InputCommand : Type 0 where
  keyboard : KeyboardEvent → InputCommand
  mouse : (event : ℕ) → InputCommand
  release_held : InputCommand
  apply_keymap : (keymap_data : List ℕ) → InputCommand
  set_locked_layout : (layout_name : String) (from_own_keyboard : Bool) → InputCommand
  set_initial_layout : InitialLayoutCandidates → InputCommand

-- The requests of `KeyboardSink` and `InputBackend`.
pub data Call : Type 0 where
  key_call : (time evdev_key : ℕ) (down : Bool) → Call
  modifiers_call : KeyboardModifierState → Call
  keymap_call : (keymap_data : List ℕ) → Call
  mouse_call : (time event : ℕ) → Call
  flush_call pump_call : Call

-- The world outside: libxkbcommon, the loader of keymaps (`none` where it refuses one), and whether
-- the device takes a keymap after the given requests.
pub record Env (S : Type 0) : Type 0 where
  pub xkb : Xkb S
  pub load : List ℕ → Option (KeyboardStateTracker S)
  pub accepts : List Call → List ℕ → Bool

pub record Actor (S : Type 0) : Type 0 where
  pub tracker : KeyboardStateTracker S
  pub keymap_data : List ℕ
  pub depressed : DepressedKeys
  pub calls : List Call

-- The candidates of `pick_initial_layout` that resolve in the keymap.
resolve : (String → Option ℕ) → List (String × String) → List (String × ℕ)
resolve index [] = []
resolve index ((device, layout) ∷ rest) =
    let more = resolve index rest in
    elim (index layout) [ none ↦ more | some group ↦ (device, group) ∷ more ]

first_nonzero : List (String × ℕ) → Option (String × ℕ)
first_nonzero [] = none
first_nonzero ((device, group) ∷ rest) =
    if group == 0 then first_nonzero rest else some (device, group)

first_of_all : List (String × ℕ) → Option (String × ℕ)
first_of_all [] = none
first_of_all (c ∷ rest) = some c

abbrev or_else {ℓ} : {A : Type ℓ} → Option A → Option A → Option A
or_else (some a) o = some a
or_else none o = o

pick_other : List (String × ℕ) → Option (String × ℕ)
unfolding first_nonzero first_of_all
pick_other resolved = or_else (first_nonzero resolved) (first_of_all resolved)

abbrev main_candidate : (String → Option ℕ) → Option (String × String) → Option (String × ℕ)
main_candidate index none = none
main_candidate index (some (device, layout)) = elim (index layout) [
  | none ↦ none
  | some group ↦ some (device, group)
]

unfoldable pub pick_initial_layout :
    (String → Option ℕ) → InitialLayoutCandidates → Option (String × ℕ)
unfolding resolve pick_other
pick_initial_layout index c =
    or_else (main_candidate index c.main) (pick_other (resolve index c.others))

module _ {S : Type 0} where
  unfoldable pub emit : Actor S → Call → Actor S
  emit a c = record a { calls = c ∷ a.calls }

module _ {S : Type 0} (v : Env S) where
  -- `sink.modifiers(tracker.modifier_state())`.
  unfoldable pub announce : Actor S → Actor S
  unfolding emit
  announce a = emit a (modifiers_call (modifier_state v.xkb a.tracker))

  -- `announce` and `sink.flush()`.
  unfoldable pub announce_flush : Actor S → Actor S
  unfolding announce emit
  announce_flush a = emit (announce a) flush_call

  -- `sink.key(t, k, down); if tracker.key(k, down) { sink.modifiers(..) }`.
  unfoldable pub drive_key : Actor S → ℕ → ℕ → Bool → Actor S
  unfolding emit announce
  drive_key a t k down =
      let b = emit a (key_call t k down) in
      let (tracker, changed) = tracker_key v.xkb b.tracker k down in
      let c = record b { tracker = tracker } in if changed then announce c else c

  -- `sink.key(t, k, false); tracker.key(k, false);`
  unfoldable pub release_one : Actor S → ℕ → ℕ → Actor S
  unfolding emit
  release_one a t k =
      let b = emit a (key_call t k false) in
      record b { tracker = (tracker_key v.xkb b.tracker k false).0 }

  unfoldable pub release_keys : Actor S → ℕ → List ℕ → Actor S
  release_keys a t [] = a
  release_keys a t (k ∷ ks) = release_keys (release_one a t k) t ks

  abbrev shift_only : DepressedKeys → Bool
  shift_only d = not (is_empty d.unicode_shift_owners) && not (holds_modifier d left_shift_key)

  -- The second part is the count of released keys, which is logged.
  unfoldable pub release_depressed : Actor S → ℕ → Actor S × ℕ
  unfolding release_one release_all
  release_depressed a t =
      let unicode_shift_only = shift_only a.depressed in
      let (keys, rest) = release_all a.depressed in
      let b = release_keys (record a { depressed = rest }) t keys in
      let c = if unicode_shift_only then release_one b t left_shift_key else b in
      (
        record c { depressed = record rest { unicode_shift_owners = [] } },
        if unicode_shift_only then suc (length keys) else length keys,
      )

  unfoldable pub release_held_keys : Actor S → ℕ → Actor S
  release_held_keys a t =
      if nothing_held a.depressed then a else announce_flush (release_depressed a t).0

  -- The arm of `Pressed`, for a mapped scancode.
  unfoldable pub press_key : Actor S → ℕ → ℕ → Actor S
  press_key a t k =
      let b = record a { depressed = press a.depressed k (is_modifier k) } in
      if is_modifier k && holds_modifier a.depressed k
      then a
      else if k == left_shift_key && not (is_empty a.depressed.unicode_shift_owners)
      then b
      else emit (drive_key b t k true) flush_call

  -- The arm of `Released`, for a mapped scancode.
  unfoldable pub release_key : Actor S → ℕ → ℕ → Actor S
  release_key a t k =
      let b = record a { depressed = release a.depressed k (is_modifier k) } in
      if is_modifier k && not (holds_modifier a.depressed k)
      then a
      else if k == left_shift_key && not (is_empty a.depressed.unicode_shift_owners)
      then b
      else emit (drive_key b t k false) flush_call

  -- The block under `if mapping.needs_shift` of `UnicodePressed`.
  unfoldable pub hold_unicode_shift : Actor S → ℕ → ℕ → Actor S
  hold_unicode_shift a t code_point =
      let active =
        holds_modifier a.depressed left_shift_key
        || not (is_empty a.depressed.unicode_shift_owners) in
      let b = record a { depressed = press_unicode_shift a.depressed code_point } in
      if active then b else drive_key b t left_shift_key true

  -- The arm of `UnicodePressed`, for a mapped character.
  unfoldable pub press_unicode : Actor S → ℕ → ℕ → UnicodeKeyMapping → Actor S
  press_unicode a t code_point m =
      let b = if m.needs_shift then hold_unicode_shift a t code_point else a in
      let c = emit b (key_call t m.evdev_key true) in
      emit (record c { depressed = press c.depressed m.evdev_key false }) flush_call

  -- The `if` with three more conditions of `UnicodeReleased`; the first of them has an effect.
  unfoldable pub drop_unicode_shift : Actor S → ℕ → ℕ → Actor S
  drop_unicode_shift a t code_point =
      let (rest, was_owner) = release_unicode_shift a.depressed code_point in
      let b = record a { depressed = rest } in
      if was_owner && is_empty rest.unicode_shift_owners && not (holds_modifier rest left_shift_key)
      then drive_key b t left_shift_key false
      else b

  -- The arm of `UnicodeReleased`, for a mapped character.
  unfoldable pub release_unicode : Actor S → ℕ → ℕ → UnicodeKeyMapping → Actor S
  release_unicode a t code_point m =
      let b = emit a (key_call t m.evdev_key false) in
      let c = record b { depressed = release b.depressed m.evdev_key false } in
      emit (if m.needs_shift then drop_unicode_shift c t code_point else c) flush_call

  -- The arm of `Synchronize`.
  unfoldable pub synchronize_keys : Actor S → ℕ → SynchronizeFlags → Actor S
  synchronize_keys a t flags =
      let b = (release_depressed a t).0 in
      announce_flush (record b { tracker = (synchronize_locks v.xkb b.tracker flags).0 })

  unfoldable pub handle_rdp_event : Actor S → ℕ → KeyboardEvent → Actor S
  handle_rdp_event a t (pressed code extended) = elim (xt_to_evdev code extended) [
    | none ↦ a
    | some k ↦ press_key a t k
  ]
  handle_rdp_event a t (released code extended) = elim (xt_to_evdev code extended) [
    | none ↦ a
    | some k ↦ release_key a t k
  ]
  handle_rdp_event a t (synchronize flags) = synchronize_keys a t flags
  handle_rdp_event a t (unicode_pressed cp) = elim (a.tracker.unicode_to_keycode cp) [
    | none ↦ a
    | some m ↦ press_unicode a t cp m
  ]
  handle_rdp_event a t (unicode_released cp) = elim (a.tracker.unicode_to_keycode cp) [
    | none ↦ a
    | some m ↦ release_unicode a t cp m
  ]

  -- `sink.keymap(..)`: the request, and whether the device takes it.
  unfoldable pub send_keymap : Actor S → List ℕ → Actor S × Bool
  send_keymap a keymap = (emit a (keymap_call keymap), v.accepts a.calls keymap)

  unfoldable pub handle_own_layout_event : Actor S → String → Actor S
  unfolding send_keymap
  handle_own_layout_event a layout_name = elim (layout_index_by_name a.tracker layout_name) [
    | some group ↦ if group == (modifier_state v.xkb a.tracker).group then a else announce_flush a
    | none ↦
        let (b, accepted) = send_keymap a a.keymap_data in
        emit (if accepted then announce b else b) flush_call
  ]

  -- `if tracker.set_locked_group(group) { .. }`.
  unfoldable pub lock_group : Actor S → ℕ → Actor S
  lock_group a group =
      let (tracker, changed) = set_locked_group v.xkb a.tracker group in
      let b = record a { tracker = tracker } in if changed then announce_flush b else b

  -- The arm of `ApplyKeymap` once the keymap is loaded.
  unfoldable pub switch_keymap : Actor S → ℕ → List ℕ → KeyboardStateTracker S → Actor S
  unfolding send_keymap
  switch_keymap a t keymap tracker =
      let (b, accepted) = send_keymap a keymap in
      let c = (release_depressed b t).0 in
      if accepted then announce_flush (record c { tracker = tracker; keymap_data = keymap }) else b

  unfoldable pub handle_command : Actor S → ℕ → InputCommand → Actor S
  handle_command a t release_held = release_held_keys a t
  handle_command a t (keyboard event) = handle_rdp_event a t event
  handle_command a t (mouse event) = emit a (mouse_call t event)
  handle_command a t (apply_keymap keymap) = elim (v.load keymap) [
    | none ↦ a
    | some tracker ↦ switch_keymap a t keymap tracker
  ]
  handle_command a t (set_locked_layout name true) = handle_own_layout_event a name
  handle_command a t (set_locked_layout name false) = elim (layout_index_by_name a.tracker name) [
    | none ↦ a
    | some group ↦ lock_group a group
  ]
  handle_command a t (set_initial_layout c) =
      elim (pick_initial_layout (λ name. layout_index_by_name a.tracker name) c) [
        | none ↦ a
        | some (device, group) ↦ lock_group a group
      ]

  -- What `recv_timeout` returns, with the time; the list ends when every sender is gone.
  unfoldable pub actor_loop : Actor S → List (ℕ × Option InputCommand) → Actor S
  actor_loop a [] = a
  actor_loop a ((t, none) ∷ rest) = actor_loop (emit a pump_call) rest
  actor_loop a ((t, some c) ∷ rest) = actor_loop (emit (handle_command a t c) pump_call) rest

  unfoldable pub start_actor : KeyboardStateTracker S → List ℕ → Actor S
  start_actor tracker keymap = announce_flush (record {
    tracker = tracker;
    keymap_data = keymap;
    depressed = no_keys;
    calls = keymap_call keymap ∷ [];
  })

  -- The requests made until the actor stops, at time `t`.
  unfoldable pub run_input_actor : List ℕ → List (ℕ × Option InputCommand) → ℕ → List Call
  unfolding start_actor
  run_input_actor keymap script t = elim (v.load keymap) [
    | none ↦ []
    | some tracker ↦
        if v.accepts [] keymap
        then (release_held_keys (actor_loop (start_actor tracker keymap) script) t).calls
        else keymap_call keymap ∷ []
  ]
